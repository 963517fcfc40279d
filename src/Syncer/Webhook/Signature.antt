-- ===== src/Syncer/Webhook/Signature.antt =====
-- Which webhooks start a sync (internal/syncer/syncer.go).
use the_redirector.Base.{
  ℕ, ◌+◌, ◌/◌, ◌%◌, ◌<◌, ◌≡◌, ◌↔◌, inl, inr, refl, sym, ap, ◌∙◌, subst, true, false, none, some, [],
  ◌∷◌, ◌++◌, All, Bytes, lit, is_empty, ◌=s◌, =s_iff, =s_refl, strip_prefix, strip_prefix-append,
  eq-append_of_strip_prefix, ltb, if◌then◌else◌, arith, Bool-cases, Option-cases, some_injective,
}
use the_redirector.Syncer.Webhook.{
  hex_value, hex_pair, cons_some, hex_decode, validate_github_signature, validate_gitlab_token,
  Hook, triggers_sync, check_secret, check_hook, serve_hook,
}

-- A digit below 16, and a byte as two of them, as the signer writes it.
hex_digit : ℕ → ℕ
hex_digit n = if ltb n 10 then 48 + n else 87 + n

pub hex_encode : Bytes → Bytes
unfolding hex_digit
hex_encode [] = []
hex_encode (b ∷ bs) = hex_digit (b / 16) ∷ hex_digit (b % 16) ∷ hex_encode bs

hex_value-hex_digit : (n : ℕ) → n < 16 → hex_value (hex_digit n) ≡ some n
unfolding hex_value hex_digit
hex_value-hex_digit n h = ground (arith, h)

hex_pair-parts :
    (b : ℕ)
    → b < 256
    → hex_pair (hex_value (hex_digit (b / 16))) (hex_value (hex_digit (b % 16))) ≡ some b
unfolding hex_pair
hex_pair-parts b h =
    rw (hex_value-hex_digit (b / 16) (omega (arith, h)), hex_value-hex_digit (b % 16) (omega arith))
      (ap some (omega arith))

hex_decode-hex_encode : (bs : Bytes) → All (λ b. b < 256) bs → hex_decode (hex_encode bs) ≡ some bs
unfolding hex_decode hex_encode cons_some
hex_decode-hex_encode [] h = refl
hex_decode-hex_encode (b ∷ bs) h = rw (hex_pair-parts b h.0, hex_decode-hex_encode bs h.1) refl

module _ (hmac : Bytes → Bytes → Bytes) where
  -- The header that a signer sends, `sha256=` and the HMAC of the body in hexadecimal digits, passes,
  -- where the HMAC consists of bytes.
  pub validate_github_signature-hex_encode :
      (secret body : Bytes)
      → All (λ b. b < 256) (hmac secret body)
      → validate_github_signature hmac secret (lit "sha256=" ++ hex_encode (hmac secret body)) body
        ≡ none
  unfolding validate_github_signature
  validate_github_signature-hex_encode secret body h =
      rw
        (
          strip_prefix-append (lit "sha256=") (hex_encode (hmac secret body)),
          hex_decode-hex_encode (hmac secret body) h,
          =s_refl (hmac secret body),
        )
        refl

  -- The header holds the HMAC of the body.
  abbrev pub IsSigned : Bytes → Bytes → Bytes → Type 0
  IsSigned secret header body =
      (hex : Bytes) × (header ≡ lit "sha256=" ++ hex) × (hex_decode hex ≡ some (hmac secret body))

  IsSigned-iff :
      (secret header body : Bytes)
      → (validate_github_signature hmac secret header body ≡ none) ↔ IsSigned secret header body
  unfolding validate_github_signature
  IsSigned-iff secret header body = (
    λ h. elim (Bool-cases (is_empty header)) [
      | inl missing ↦ absurd (ground (arith, rw (missing, validate_github_signature) at h))
      | inr some_header ↦ elim (Option-cases (strip_prefix header (lit "sha256="))) [
        | inl bare ↦ absurd (ground (arith, rw (some_header, bare, validate_github_signature) at h))
        | inr (hex, stripped) ↦ elim (Option-cases (hex_decode hex)) [
          | inl odd ↦
              absurd
                (ground (arith, rw (some_header, stripped, odd, validate_github_signature) at h))
          | inr (received, decoded) ↦ elim (Bool-cases (received =s hmac secret body)) [
            | inr wrong ↦ absurd (
                ground (
                  arith,
                  rw (some_header, stripped, decoded, wrong, validate_github_signature) at h,
                ))
            | inl right ↦ (
              hex,
              eq-append_of_strip_prefix header (lit "sha256=") hex stripped,
              decoded ∙ ap some ((=s_iff received (hmac secret body)).0 right),
            )
          ]
        ]
      ]
    ],
    λ (hex, same, decoded).
        subst (λ x. validate_github_signature hmac secret x body ≡ none) (sym same)
          (rw (strip_prefix-append (lit "sha256=") hex, decoded, =s_refl (hmac secret body)) refl),
  )

  -- The request shows that its sender knows the secret.
  pub data IsAuthentic (secret : Bytes) (r : Hook) (body : Bytes) : Type 0 where
    from_github :
        is_empty r.github_event ≡ false
        → IsSigned secret r.signature body
        → IsAuthentic secret r body
    from_gitlab :
        is_empty r.github_event ≡ true
        → is_empty r.gitlab_event ≡ false
        → r.token ≡ secret
        → IsAuthentic secret r body

  token_iff :
      (secret token : Bytes)
      → is_empty secret ≡ false
      → (validate_gitlab_token secret token ≡ none) ↔ (token ≡ secret)
  unfolding validate_gitlab_token
  token_iff secret token some_secret = (
    λ h. elim (Bool-cases (is_empty token)) [
      | inl missing ↦ absurd (ground (arith, rw (missing, validate_gitlab_token) at h))
      | inr some_token ↦ elim (Bool-cases (token =s secret)) [
        | inl same ↦ (=s_iff token secret).0 same
        | inr differ ↦ absurd (ground (arith, rw (some_token, differ, validate_gitlab_token) at h))
      ]
    ],
    λ same. rw (same, some_secret, =s_refl secret) refl,
  )

  check_secret_iff :
      (secret : Bytes) (r : Hook) (body : Bytes)
      → is_empty secret ≡ false
      → (check_secret hmac secret r body ≡ none) ↔ IsAuthentic secret r body
  unfolding check_secret
  check_secret_iff secret r body some_secret = elim (Bool-cases (is_empty r.github_event)) [
    | inr github ↦ (
      (λ h. elim (Option-cases (validate_github_signature hmac secret r.signature body)) [
        | inl valid ↦ from_github github ((IsSigned-iff secret r.signature body).0 valid)
        | inr (e, bad) ↦ absurd (ground (arith, rw (github, bad, check_secret) at h))
      ]),
      λ a. elim a [
        | from_github _ signed ↦
            rw (github, (IsSigned-iff secret r.signature body).1 signed, check_secret) refl
        | from_gitlab other_event _ _ ↦ absurd (ground (arith, github, other_event))
      ],
    )
    | inl other_event ↦ elim (Bool-cases (is_empty r.gitlab_event)) [
      | inr gitlab ↦ (
        (λ h. elim (Option-cases (validate_gitlab_token secret r.token)) [
          | inl valid ↦
              from_gitlab other_event gitlab ((token_iff secret r.token some_secret).0 valid)
          | inr (e, bad) ↦ absurd (ground (arith, rw (other_event, gitlab, bad, check_secret) at h))
        ]),
        λ a. elim a [
          | from_github github _ ↦ absurd (ground (arith, github, other_event))
          | from_gitlab _ _ same ↦
              rw (other_event, gitlab, (token_iff secret r.token some_secret).1 same, check_secret)
                refl
        ],
      )
      | inl unknown ↦ (
        (λ h. absurd (ground (arith, rw (other_event, unknown, check_secret) at h))),
        λ a. elim a [
          | from_github github _ ↦ absurd (ground (arith, github, other_event))
          | from_gitlab _ gitlab _ ↦ absurd (ground (arith, gitlab, unknown))
        ],
      )
    ]
  ]

  -- With a secret set, a request starts a sync exactly when it is a POST whose body can be read and
  -- either has a GitHub event and a signature that is the HMAC of the body, or has no GitHub event
  -- but a GitLab event and the secret as its token.
  pub serve_hook_iff :
      (secret : Bytes) (r : Hook)
      → is_empty secret ≡ false
      → (serve_hook hmac secret r ≡ triggers_sync)
        ↔ ((r.is_post ≡ true) × ((body : Bytes) × (r.body ≡ some body) × IsAuthentic secret r body))
  unfolding serve_hook check_hook
  serve_hook_iff secret r some_secret = elim (Bool-cases r.is_post) [
    | inr other_method ↦ (
      (λ h. absurd (ground (arith, rw (other_method, serve_hook) at h))),
      λ h. absurd (ground (arith, h.0, other_method)),
    )
    | inl post ↦ elim (Option-cases r.body) [
      | inl unread ↦ (
        (λ h. absurd (ground (arith, rw (post, unread, serve_hook) at h))),
        λ (_, (body, read, _)). absurd (ground (arith, read, unread)),
      )
      | inr (body, read) ↦ elim (Option-cases (check_secret hmac secret r body)) [
        | inl passes ↦ (
          (λ h. (post, (body, read, (check_secret_iff secret r body some_secret).0 passes))),
          λ _. rw (post, read, some_secret, passes, serve_hook, check_hook) refl,
        )
        | inr (status, refused_with) ↦ (
          (λ h. absurd (
              ground
                (arith, rw (post, read, some_secret, refused_with, serve_hook, check_hook) at h))),
          λ (_, (body', read', authentic)). absurd (
              ground (
                arith,
                refused_with,
                (check_secret_iff secret r body some_secret).1
                    (subst (IsAuthentic secret r) (some_injective (sym read' ∙ read)) authentic),
              )),
        )
      ]
    ]
  ]
