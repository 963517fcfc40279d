-- ===== src/Syncer/Push/Retries.antt =====
-- The retries of pushToTarget (internal/syncer/syncer.go).
use the_redirector.Base.{
  ℕ, zero, suc, ◌+◌, ◌*◌, ◌%◌, ◌≤◌, ◌<◌, ◌≡◌, ◌≢◌, ◌↔◌, ◌⊎◌, inl, inr, refl, sym, ap, ◌∙◌, subst,
  Bool, false, Option, none, some, List, [], ◌∷◌, length, pos, arith, Bool-cases, Option-cases, ltb,
  ltb→lt, some_injective,
}
use Prim.Native.Nat.{◌^◌}
use the_redirector.Syncer.Push.{
  TargetConfig, PushRequest, Sent, PushError, Pushed, do_push, push_from, push_to_target, try_push,
  wait_for, backoff, pow2,
}

le_cases : (a j : ℕ) → a ≤ j → (j ≡ a) ⊎ (a + 1 ≤ j)
le_cases a j h = elim (Bool-cases (ltb a j)) [
  | inl below ↦ inr (omega (arith, ltb→lt a j below))
  | inr same ↦ inl (ground (arith, same, h))
]

-- The delays are those of the retries from a number on.
unfoldable pub IsBackoff : ℕ → ℕ → List ℕ → Type 0
IsBackoff delay n [] = Unit
IsBackoff delay n (d ∷ ds) = (d ≡ backoff delay n) × IsBackoff delay (suc n) ds

-- The first is the given delay, and each that follows is twice the one before, in 64 bits.
abbrev pub IsDoubling : ℕ → List ℕ → Type 0
IsDoubling d [] = Unit
IsDoubling d (x ∷ xs) = (x ≡ d) × IsDoubling ((2 * d) % 2 ^ 64) xs

doubled : (q : ℕ) → (2 * q) % 2 ^ 64 ≡ (2 * (q % 2 ^ 64)) % 2 ^ 64
doubled q = omega arith

backoff-suc : (delay n : ℕ) → backoff delay (suc n) ≡ (2 * backoff delay n) % 2 ^ 64
unfolding backoff pow2
backoff-suc delay n = halves (pow2 n)
  where
    halves : (p : ℕ) → (delay * (2 * p)) % 2 ^ 64 ≡ (2 * ((delay * p) % 2 ^ 64)) % 2 ^ 64
    halves p =
        let twice : delay * (2 * p) ≡ 2 * (delay * p) = grind arith in
        rw twice (doubled (delay * p))

backoff-zero : (delay : ℕ) → backoff delay 0 ≡ delay % 2 ^ 64
unfolding backoff pow2
backoff-zero delay = omega arith

IsBackoff-IsDoubling :
    (delay n : ℕ) (ds : List ℕ) → IsBackoff delay n ds → IsDoubling (backoff delay n) ds
unfolding IsBackoff
IsBackoff-IsDoubling delay n [] h = tt
IsBackoff-IsDoubling delay n (d ∷ ds) h = (
  h.0,
  subst (λ x. IsDoubling x ds) (backoff-suc delay n) (IsBackoff-IsDoubling delay (suc n) ds h.1),
)

module _ (delay : ℕ) (outcome : ℕ → Option PushError) (done : ℕ → Bool) where
  -- The context is not done before the attempt.
  abbrev pub Goes : ℕ → Type 0
  Goes zero = Unit
  Goes (suc n) = done (suc n) ≡ false

  -- Of so many attempts from one on, one succeeds, all before it fail, and the context is not done
  -- before any of them.
  pub record Succeeds (attempt left : ℕ) : Type 0 where
    pub at : ℕ
    pub low : attempt ≤ at
    pub high : at < attempt + left
    pub works : outcome at ≡ none
    pub fails : (j : ℕ) → attempt ≤ j → j < at → outcome j ≢ none
    pub goes : (j : ℕ) → attempt ≤ j → j ≤ at → Goes j

  wait_for_iff :
      (attempt : ℕ) (rest : Pushed)
      → ((wait_for delay outcome done attempt rest).0 ≡ none) ↔ (Goes attempt × (rest.0 ≡ none))
  unfolding wait_for
  wait_for_iff zero rest = ((λ h. (tt, h)), λ h. h.1)
  wait_for_iff (suc n) rest = elim (Bool-cases (done (suc n))) [
    | inl stops ↦ rw stops ((λ h. absurd (ground (arith, h))), λ h. absurd (ground (arith, h.0)))
    | inr runs ↦ rw runs ((λ h. (refl, h)), λ h. h.1)
  ]

  try_push_iff :
      (attempt : ℕ) (rest : PushError → Pushed)
      → ((try_push delay outcome done attempt rest).0 ≡ none) ↔ (
          (outcome attempt ≡ none)
          ⊎ ((e : PushError) × (outcome attempt ≡ some e) × ((rest e).0 ≡ none)))
  unfolding try_push
  try_push_iff attempt rest = elim (Option-cases (outcome attempt)) [
    | inl works ↦ rw (works, try_push) ((λ h. inl refl), λ h. refl)
    | inr (e, fails) ↦
        rw (fails, try_push)
          (
            (λ h. inr (e, refl, h)),
            λ h. elim h [
              | inl works ↦ absurd (ground (arith, works))
              | inr (e', same, rest_works) ↦ ap (λ x. (rest x).0) (some_injective same) ∙ rest_works
            ],
          )
  ]

  first_works :
      (attempt left : ℕ) → Goes attempt → outcome attempt ≡ none → Succeeds attempt (suc left)
  first_works attempt left goes works = record {
    at = attempt;
    low = omega arith;
    high = omega arith;
    works = works;
    fails = λ j low below. absurd (omega (arith, low, below));
    goes = λ j low high. subst Goes (omega (arith, low, high)) goes;
  }

  later_works :
      (attempt left : ℕ) {e : PushError}
      → Goes attempt
      → outcome attempt ≡ some e
      → Succeeds (attempt + 1) left
      → Succeeds attempt (suc left)
  later_works attempt left goes failed s = record {
    at = s.at;
    low = omega (arith, s.low);
    high = omega (arith, s.high);
    works = s.works;
    fails = λ j low below. elim (le_cases attempt j low) [
      | inl same ↦ λ works. ground (arith, subst (λ k. outcome k ≡ none) same works, failed)
      | inr above ↦ s.fails j above below
    ];
    goes = λ j low high. elim (le_cases attempt j low) [
      | inl same ↦ subst Goes (sym same) goes
      | inr above ↦ s.goes j above high
    ];
  }

  split-Succeeds :
      (attempt left : ℕ)
      → Succeeds attempt (suc left)
      → Goes attempt
        × ((outcome attempt ≡ none) ⊎ ((outcome attempt ≢ none) × Succeeds (attempt + 1) left))
  split-Succeeds attempt left s = (
    s.goes attempt (omega arith) s.low,
    elim (le_cases attempt s.at s.low) [
      | inl same ↦ inl (subst (λ k. outcome k ≡ none) same s.works)
      | inr above ↦ inr (
        s.fails attempt (omega arith) (omega (arith, above)),
        record {
          at = s.at;
          low = above;
          high = omega (arith, s.high);
          works = s.works;
          fails = λ j low below. s.fails j (omega (arith, low)) below;
          goes = λ j low high. s.goes j (omega (arith, low)) high;
        },
      )
    ],
  )

  push_from_iff :
      (attempt left : ℕ) (last : Option PushError)
      → (left ≡ 0 → last ≢ none)
      → ((push_from delay outcome done attempt left last).0 ≡ none) ↔ Succeeds attempt left
  unfolding push_from
  push_from_iff attempt zero last some_error =
      ((λ h. absurd (some_error refl h)), λ s. absurd (omega (arith, s.low, s.high)))
  push_from_iff attempt (suc left) last some_error =
      let rest = λ (e : PushError). push_from delay outcome done (attempt + 1) left (some e) in
      let waited = wait_for_iff attempt (try_push delay outcome done attempt rest) in
      let tried = try_push_iff attempt rest in
      (
        (λ h.
            let (goes, h') = waited.0 h in
            elim (tried.0 h') [
              | inl works ↦ first_works attempt left goes works
              | inr (e, failed, h'') ↦
                  later_works attempt left goes failed (
                    (push_from_iff (attempt + 1) left (some e) (λ z. λ w. ground (arith, w))).0 h'')
            ]),
        λ s.
            let (goes, more) = split-Succeeds attempt left s in
            waited.1 (
              goes,
              elim more [
                | inl works ↦ tried.1 (inl works)
                | inr (fails, s') ↦ elim (Option-cases (outcome attempt)) [
                  | inl works ↦ absurd (fails works)
                  | inr (e, failed) ↦ tried.1 (
                      inr (
                        e,
                        failed,
                        (push_from_iff (attempt + 1) left (some e) (λ z. λ w. ground (arith, w))).1
                            s',
                      ))
                ]
              ],
            ),
      )

  delays-push_from :
      (n left : ℕ) (last : Option PushError)
      → let delays = (push_from delay outcome done (suc n) left last).1 in
        IsBackoff delay n delays × (length delays ≤ left)
  unfolding push_from wait_for try_push IsBackoff
  delays-push_from n zero last = (tt, omega arith)
  delays-push_from n (suc left) last = elim (Bool-cases (done (suc n))) [
    | inl stops ↦ rw stops ((refl, tt), omega arith)
    | inr runs ↦ elim (Option-cases (outcome (suc n))) [
      | inl works ↦ rw (runs, works) ((refl, tt), omega arith)
      | inr (e, failed) ↦ rw (runs, failed) (more e (delays-push_from (suc n) left (some e)))
    ]
  ]
    where
      same_attempt : suc (suc n) ≡ suc n + 1
      same_attempt = omega arith

      more :
          (e : PushError)
          → (let delays = (push_from delay outcome done (suc (suc n)) left (some e)).1 in
              IsBackoff delay (suc n) delays × (length delays ≤ left))
          → let delays = (push_from delay outcome done (suc n + 1) left (some e)).1 in
            ((backoff delay n ≡ backoff delay n) × IsBackoff delay (suc n) delays)
            × (suc (length delays) ≤ suc left)
      more e (b, l) =
          subst
            (λ a.
              let delays = (push_from delay outcome done a left (some e)).1 in
              ((backoff delay n ≡ backoff delay n) × IsBackoff delay (suc n) delays)
              × (suc (length delays) ≤ suc left))
            same_attempt ((refl, b), omega (arith, l))

  delays-push_all :
      (n : ℕ)
      → let delays = (push_from delay outcome done 0 (suc n) none).1 in
        IsBackoff delay 0 delays × (length delays ≤ n)
  unfolding push_from wait_for try_push IsBackoff
  delays-push_all n = elim (Option-cases (outcome 0)) [
    | inl works ↦ rw (works, try_push) (tt, omega arith)
    | inr (e, failed) ↦ rw (failed, try_push) (delays-push_from 0 n (some e))
  ]

module _ (delay : ℕ) (send : ℕ → PushRequest → Sent) (done : ℕ → Bool) (target : TargetConfig) where
  -- With at most `n` retries: the push succeeds exactly when one of the first n + 1 attempts does and
  -- the context is not done before it.
  pub push_to_target_iff :
      (n : ℕ)
      → ((push_to_target (pos n) delay send done target).0 ≡ none)
        ↔ Succeeds delay (λ attempt. do_push (send attempt) target) done 0 (suc n)
  unfolding push_to_target
  push_to_target_iff n = push_from_iff delay _ done 0 (suc n) none (λ z. absurd (omega (arith, z)))

  -- With at most n retries, a push begins at most n waits: the first for the retry delay, and each
  -- later one for twice the time of the one before, all in 64 bits.
  pub delays-push_to_target :
      (n : ℕ)
      → let delays = (push_to_target (pos n) delay send done target).1 in
        IsDoubling (delay % 2 ^ 64) delays × (length delays ≤ n)
  unfolding push_to_target
  delays-push_to_target n =
      let (waits, few) = delays-push_all delay (λ attempt. do_push (send attempt) target) done n in
      let delays =
        (push_from delay (λ attempt. do_push (send attempt) target) done 0 (suc n) none).1 in
      (
        subst (λ d. IsDoubling d delays) (backoff-zero delay)
            (IsBackoff-IsDoubling delay 0 delays waits),
        few,
      )
