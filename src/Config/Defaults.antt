-- ===== src/Config/Defaults.antt =====
-- internal/config/config.go: applyDefaults, with the laws of the rules that it fills in.
use the_redirector.Base.{
  ℕ, ◌+◌, ◌≡◌, refl, ◌≢◌, ap₂, Bool, Option, none, some, List, [], ◌∷◌, ◌++◌, All, lit, is_empty,
  format_nat, ℤ, pos, eqb_ℤ, if◌then◌else◌, arith,
}
use the_redirector.Config.{
  MatchType, exact, prefix, regex, glob, unset, other, Rule, DefaultConfig, Config,
}

abbrev default_match_type : MatchType → MatchType
default_match_type unset = exact
default_match_type t = t

default_preserve : Bool → Option Bool → Option Bool
default_preserve d none = some d
default_preserve d (some b) = some b

module _ {R : Type 0} where
  -- The body of the loop, for the rule with index `i`.
  rule_defaults : DefaultConfig → ℕ → Rule R → Rule R
  unfolding default_preserve
  rule_defaults d i r = record {
    id = if is_empty r.id then lit "rule-" ++ format_nat (i + 1) else r.id;
    match = record r.match { type = default_match_type r.match.type };
    redirect = record r.redirect {
      status = if eqb_ℤ r.redirect.status (pos 0) then d.status_code else r.redirect.status;
      preserve_query = default_preserve d.preserve_query r.redirect.preserve_query;
    };
    priority = r.priority;
    compiled_regex = r.compiled_regex;
  }

  rules_defaults : DefaultConfig → ℕ → List (Rule R) → List (Rule R)
  unfolding rule_defaults
  rules_defaults d i [] = []
  rules_defaults d i (r ∷ rs) = rule_defaults d i r ∷ rules_defaults d (i + 1) rs

abbrev default_int : ℤ → ℤ → ℤ
default_int d n = if eqb_ℤ n (pos 0) then d else n

-- (*Config).applyDefaults
unfoldable pub apply_defaults : {R F : Type 0} → Config R F → Config R F
unfolding rules_defaults
apply_defaults c =
    let server = record c.server {
      port = default_int (pos 8080) c.server.port;
      management_port = default_int (pos 8081) c.server.management_port;
    } in
    let defaults = record c.defaults {
      status_code = default_int (pos 301) c.defaults.status_code;
    } in
    record c { server = server; defaults = defaults; rules = rules_defaults defaults 0 c.rules }

default_match_type-ne-unset : (t : MatchType) → default_match_type t ≢ unset
default_match_type-ne-unset unset = cc
default_match_type-ne-unset exact = cc
default_match_type-ne-unset prefix = cc
default_match_type-ne-unset regex = cc
default_match_type-ne-unset glob = cc
default_match_type-ne-unset (other t) = cc

default_match_type_of_ne : (t : MatchType) → t ≢ unset → default_match_type t ≡ t
default_match_type_of_ne unset h = absurd (h refl)
default_match_type_of_ne exact h = refl
default_match_type_of_ne prefix h = refl
default_match_type_of_ne regex h = refl
default_match_type_of_ne glob h = refl
default_match_type_of_ne (other t) h = refl

module _ {R : Type 0} where
  -- No field of the rule that has a default is left open.
  pub record IsFilled (r : Rule R) : Type 0 where
    pub id : r.id ≢ []
    pub type : r.match.type ≢ unset
    pub status : r.redirect.status ≢ pos 0
    pub preserve : r.redirect.preserve_query ≢ none

  rule_defaults-IsFilled :
      (d : DefaultConfig) (i : ℕ) (r : Rule R)
      → d.status_code ≢ pos 0
      → IsFilled (rule_defaults d i r)
  unfolding rule_defaults
  rule_defaults-IsFilled d i r h = record {
    id = ground arith;
    type = default_match_type-ne-unset r.match.type;
    status = ground arith;
    preserve = ground arith;
  }

  rule_defaults_of_IsFilled :
      (d : DefaultConfig) (i : ℕ) (r : Rule R) → IsFilled r → rule_defaults d i r ≡ r
  unfolding rule_defaults
  rule_defaults_of_IsFilled d i r f = ground (arith, default_match_type_of_ne r.match.type f.type)

  rules_defaults-IsFilled :
      (d : DefaultConfig) (i : ℕ) (rs : List (Rule R))
      → d.status_code ≢ pos 0
      → All IsFilled (rules_defaults d i rs)
  unfolding rules_defaults
  rules_defaults-IsFilled d i [] h = tt
  rules_defaults-IsFilled d i (r ∷ rs) h =
      (rule_defaults-IsFilled d i r h, rules_defaults-IsFilled d (i + 1) rs h)

  rules_defaults_of_IsFilled :
      (d : DefaultConfig) (i : ℕ) (rs : List (Rule R))
      → All IsFilled rs
      → rules_defaults d i rs ≡ rs
  unfolding rules_defaults
  rules_defaults_of_IsFilled d i [] h = refl
  rules_defaults_of_IsFilled d i (r ∷ rs) h =
      ap₂ ◌∷◌ (rule_defaults_of_IsFilled d i r h.0) (rules_defaults_of_IsFilled d (i + 1) rs h.1)

default_int-ne-zero : (d n : ℤ) → d ≢ pos 0 → default_int d n ≢ pos 0
default_int-ne-zero d n h = ground arith

default_int_of_ne : (d n : ℤ) → n ≢ pos 0 → default_int d n ≡ n
default_int_of_ne d n h = ground arith

-- After applyDefaults every rule has an id, a match type, a status and a decision on the query; the
-- ports and the default status are not 0; and applying the defaults once more changes nothing.
pub apply_defaults_fills :
    {R F : Type 0} (c : Config R F)
    → All IsFilled (apply_defaults c).rules
      × ((apply_defaults c).server.port ≢ pos 0)
      × ((apply_defaults c).server.management_port ≢ pos 0)
      × ((apply_defaults c).defaults.status_code ≢ pos 0)
      × (apply_defaults (apply_defaults c) ≡ apply_defaults c)
unfolding apply_defaults
apply_defaults_fills c =
    let d = record c.defaults { status_code = default_int (pos 301) c.defaults.status_code } in
    let filled =
      rules_defaults-IsFilled d 0 c.rules
        (default_int-ne-zero (pos 301) c.defaults.status_code (ground arith)) in
    (
      filled,
      ground arith,
      ground arith,
      ground arith,
      rw (
        default_int_of_ne (pos 8080) (default_int (pos 8080) c.server.port) (ground arith),
        default_int_of_ne (pos 8081) (default_int (pos 8081) c.server.management_port)
            (ground arith),
        default_int_of_ne (pos 301) (default_int (pos 301) c.defaults.status_code) (ground arith),
        rules_defaults_of_IsFilled d 0 (rules_defaults d 0 c.rules) filled,
      ),
    )
