-- ===== src/Server/Redirect.antt =====
-- internal/server/server.go: handleRedirect. What it asks of the router and what it records are those
-- of internal/router and internal/stats; metrics, tracing and logging are left out. The answer says
-- which calls set the response: SetStatusCode and SetBodyString, or Redirect of the library fasthttp.
pub mod Laws
pub mod Answers
use the_redirector.Base.{
  ℕ, zero, suc, ◌+◌, Bool, true, false, ◌&&◌, not, Option, none, some, List, [], ◌∷◌, ◌++◌, Bytes,
  lit, is_empty, is_some, Dict, length, reverse, ◌==◌, if◌then◌else◌, ℤ, pos,
}
use the_redirector.Config.{Engine, Rule, get_location, is_redirect}
use the_redirector.Router.{Router, is_prefix, is_allowed_host, match}
use the_redirector.Stats.{RequestRecord, Collector, Floats, record_request}

pub record Incoming : Type 0 where
  pub path : Bytes
  pub host : Bytes
  -- QueryArgs().String()
  pub query : Bytes
  pub client_ip : Bytes

-- The headers are those of the calls of Header.Set, in their order.
pub data Answer : Type 0 where
  misdirected not_found : Answer
  replied : ℤ → Bytes → List (Bytes × Bytes) → Answer
  redirected : Bytes → ℤ → List (Bytes × Bytes) → Answer

-- text[n:]; `none` is the panic where the text is shorter
unfoldable pub slice_from : Bytes → ℕ → Option Bytes
slice_from s zero = some s
slice_from [] (suc n) = none
slice_from (c ∷ s) (suc n) = slice_from s n

-- Whether the text ends with a question mark.
abbrev pub ends_query : Bytes → Bool
ends_query s = elim (reverse s) [ [] ↦ false | c ∷ rest ↦ c == b'?' ]

-- PreserveQuery is set and true.
abbrev pub keeps_query : Option Bool → Bool
keeps_query none = false
keeps_query (some b) = b

-- The query is added behind the destination.
pub with_query : Option Bool → Bytes → Bytes → Bytes
with_query preserve query destination =
    if keeps_query preserve && not (is_empty query)
    then (if not (is_empty destination) && not (ends_query destination)
        then destination ++ (lit "?" ++ query)
        else destination ++ query)
    else destination

module _ {R : Type 0} where
  -- The path behind the prefix is added, for a prefix rule that asks for it.
  pub with_suffix : Rule R → Bytes → Bytes → Option Bytes
  unfolding slice_from
  with_suffix rule path destination =
      if rule.redirect.preserve_path && is_prefix rule.match.type
      then elim (slice_from path (length rule.match.path)) [
        | none ↦ none
        | some suffix ↦ some (destination ++ suffix)
      ]
      else some destination

  pub finish : Rule R → Bytes → Option Bytes → Option Bytes
  unfolding with_query
  finish rule query none = none
  finish rule query (some destination) =
      some (with_query rule.redirect.preserve_query query destination)

  -- The headers of the rule, then the two of the server.
  abbrev headers_of : Dict Bytes → Bytes → Rule R → List (Bytes × Bytes)
  headers_of custom own rule =
      custom ++ (own, lit "the-redirector") ∷ (lit "X-Rule-ID", rule.id) ∷ []

module _ {R : Type 0} (engine : Engine R) (range_headers : Dict Bytes → Dict Bytes) where
  -- The captures are put into the destination, where the rule has a pattern and groups matched.
  pub with_captures : Option R → List Bytes → Bytes → Bytes → Bytes
  with_captures none captures path destination = destination
  with_captures (some x) [] path destination = destination
  with_captures (some x) (group ∷ groups) path destination = engine.replace_all x path destination

  -- The destination of a redirect; `none` is a panic.
  unfoldable pub destination : Rule R → List Bytes → Bytes → Bytes → Option Bytes
  unfolding with_captures with_suffix finish
  destination rule captures path query = finish rule query (
      with_suffix rule path
        (with_captures rule.compiled_regex captures path (get_location rule.redirect)))

  redirect_to : Rule R → Option Bytes → Option Answer
  redirect_to rule none = none
  redirect_to rule (some target) = some (
      redirected target rule.redirect.status
        (headers_of (range_headers rule.redirect.headers) (lit "X-Redirected-By") rule))

  -- The answer of a rule that matched.
  unfoldable pub answer_of : Rule R → List Bytes → Bytes → Bytes → Option Answer
  unfolding redirect_to
  answer_of rule captures path query =
      if not (is_redirect rule.redirect)
      then some (
          replied rule.redirect.status rule.redirect.body
            (headers_of (range_headers rule.redirect.headers) (lit "X-Matched-By") rule))
      else redirect_to rule (destination rule captures path query)

  answer_found : Option (Rule R × List Bytes) → Incoming → Option Answer
  unfolding answer_of
  answer_found none r = some not_found
  answer_found (some (rule, captures)) r = answer_of rule captures r.path r.query

  -- handleRedirect, without what it records; `none` is a panic.
  unfoldable pub handle_redirect : Router R → Incoming → Option Answer
  unfolding answer_found
  handle_redirect router r =
      if not (is_allowed_host router r.host)
      then some misdirected
      else answer_found (match engine router r.host r.path) r

-- The status of the response. fasthttp may replace the one that Redirect is given.
abbrev status_of : (ℤ → ℤ) → Answer → ℤ
status_of sent misdirected = pos 421
status_of sent not_found = pos 404
status_of sent (replied status body headers) = status
status_of sent (redirected target status headers) = sent status

module _ {R F : Type 0} (engine : Engine R) (floats : Floats F) where
  request_record : Option (Rule R × List Bytes) → ℤ → Incoming → ℕ → ℕ → RequestRecord
  request_record found status r start latency = record {
    timestamp = start;
    path = r.path;
    host = r.host;
    status = status;
    rule_id = elim found [ none ↦ [] | some (rule, captures) ↦ rule.id ];
    destination = elim found [ none ↦ [] | some (rule, captures) ↦ get_location rule.redirect ];
    latency_us = latency;
    client_ip = r.client_ip;
  }

  -- What the deferred function of handleRedirect records: nothing of a request that the allowlist
  -- turned away.
  unfoldable pub record_answer :
      (ℤ → ℤ) → Router R → Incoming → Answer → ℕ → ℕ → Collector F → Collector F
  unfolding request_record
  record_answer sent router r answer start latency c =
      if not (is_allowed_host router r.host)
      then c
      else record_request floats c (
          request_record (match engine router r.host r.path) (status_of sent answer) r start
            latency)
