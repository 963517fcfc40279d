-- ===== src/Syncer/Webhook.antt =====
-- internal/syncer/syncer.go: the webhook: ServeHTTP, validateGitHubSignature and validateGitLabToken.
-- The HMAC of crypto/hmac with SHA-256 is a function; encoding/hex and the comparisons, which take the
-- same time for all texts of a length, are written out by their results.
pub mod Signature
use the_redirector.Base.{
  ℕ, zero, suc, ◌+◌, ◌-◌, ◌*◌, Bool, true, false, not, ◌&&◌, Option, none, some, List, [], ◌∷◌,
  ◌++◌, Bytes, lit, is_empty, ◌=s◌, strip_prefix, ltb, leb, if◌then◌else◌, ◌==◌, ℤ, pos,
}

-- The value of a hexadecimal digit.
unfoldable pub hex_value : ℕ → Option ℕ
hex_value c =
    if leb 48 c && leb c 57
    then some (c - 48)
    else if leb 97 c && leb c 102
    then some (c - 87)
    else if leb 65 c && leb c 70
    then some (c - 55)
    else none

unfoldable pub hex_pair : Option ℕ → Option ℕ → Option ℕ
hex_pair none y = none
hex_pair (some a) none = none
hex_pair (some a) (some b) = some (a * 16 + b)

unfoldable pub cons_some : Option ℕ → Option Bytes → Option Bytes
cons_some none rest = none
cons_some (some b) none = none
cons_some (some b) (some bs) = some (b ∷ bs)

-- hex.DecodeString
unfoldable pub hex_decode : Bytes → Option Bytes
unfolding hex_pair cons_some
hex_decode [] = some []
hex_decode (a ∷ []) = none
hex_decode (a ∷ b ∷ s) =
    let rest = hex_decode s in cons_some (hex_pair (hex_value a) (hex_value b)) rest

pub data SignatureError : Type 0 where
  missing_header missing_prefix invalid_hex mismatch : SignatureError

module _ (hmac : Bytes → Bytes → Bytes) where
  -- validateGitHubSignature: the error, if there is one.
  unfoldable pub validate_github_signature : Bytes → Bytes → Bytes → Option SignatureError
  validate_github_signature secret header body =
      if is_empty header then some missing_header else elim (strip_prefix header (lit "sha256=")) [
        | none ↦ some missing_prefix
        | some hex ↦ elim (hex_decode hex) [
          | none ↦ some invalid_hex
          | some received ↦ if not (received =s hmac secret body) then some mismatch else none
        ]
      ]

-- validateGitLabToken
unfoldable pub validate_gitlab_token : Bytes → Bytes → Option SignatureError
validate_gitlab_token secret token =
    if is_empty token
    then some missing_header
    else if not (token =s secret)
    then some mismatch
    else none

-- What a request carries; `none` for the body is an error of reading it. A missing header is empty.
pub record Hook : Type 0 where
  pub is_post : Bool
  pub body : Option Bytes
  pub github_event : Bytes
  pub gitlab_event : Bytes
  pub signature : Bytes
  pub token : Bytes

-- What ServeHTTP does: it sends a status itself, or starts a sync and answers by its result.
pub data Hooked : Type 0 where
  refused : ℕ → Hooked
  triggers_sync : Hooked

module _ (hmac : Bytes → Bytes → Bytes) where
  -- The checks under a secret: the status of the refusal, or none.
  unfoldable pub check_secret : Bytes → Hook → Bytes → Option ℕ
  unfolding validate_github_signature validate_gitlab_token
  check_secret secret r body =
      if not (is_empty r.github_event)
      then elim (validate_github_signature hmac secret r.signature body) [
        | some e ↦ some 403
        | none ↦ none
      ]
      else if not (is_empty r.gitlab_event)
      then elim (validate_gitlab_token secret r.token) [ some e ↦ some 403 | none ↦ none ]
      else some 400

  unfoldable pub check_hook : Bytes → Hook → Bytes → Option ℕ
  unfolding check_secret
  check_hook secret r body = if not (is_empty secret) then check_secret secret r body else none

  -- ServeHTTP, up to the sync.
  unfoldable pub serve_hook : Bytes → Hook → Hooked
  unfolding check_hook
  serve_hook secret r = if not r.is_post then refused 405 else elim r.body [
    | none ↦ refused 400
    | some body ↦ elim (check_hook secret r body) [
      | some status ↦ refused status
      | none ↦ triggers_sync
    ]
  ]
