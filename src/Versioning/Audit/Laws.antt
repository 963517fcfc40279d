-- ===== src/Versioning/Audit/Laws.antt =====
-- The audit log against the history of events, newest first.
use the_redirector.Base.{
  ℕ, zero, suc, ◌+◌, ◌-◌, ◌≤◌, ◌≡◌, refl, sym, ap, ◌∙◌, Bool, false, List, [], ◌∷◌, ◌++◌, length,
  take, length-append, append_assoc, append-nil, ltb, if◌then◌else◌, arith, Bool-cases, Bytes,
  ltb→lt, ==_iff, ◌==◌, take_nil, inl, inr,
}
use the_redirector.Base.Ring.{Holds, Slots, at, put-Holds, entries_from_lem}
use the_redirector.Versioning.Audit.{
  AuditEvent, AuditLog, AuditFilter, log, recent, passes, query_from, query,
}

-- The events that the filters keep.
pub keep : {D : Type 0} → AuditFilter → List (AuditEvent D) → List (AuditEvent D)
keep f [] = []
keep f (e ∷ h) = if passes f e then e ∷ keep f h else keep f h

take_long : {A : Type 0} (n m : ℕ) (l : List A) → length l ≤ n → length l ≤ m → take n l ≡ take m l
take_long n m [] h k = take_nil n ∙ sym (take_nil m)
take_long zero m (x ∷ l) h k = absurd (omega arith)
take_long (suc n) zero (x ∷ l) h k = absurd (omega arith)
take_long (suc n) (suc m) (x ∷ l) h k =
    ap (λ t. x ∷ t) (take_long n m l (omega arith) (omega arith))

module _ {D H : Type 0} where
  -- In a log that holds a history: Recent returns the last events, newest first: as many as asked
  -- for, or as there are.
  pub recent-take :
      (a : AuditLog D H) (h : List (AuditEvent D)) (n : ℕ) → Holds a.ring h → recent a n ≡ take n h
  unfolding recent
  recent-take a h n v = elim (Bool-cases (ltb a.ring.count n)) [
    | inl less ↦ rw less (
        entries_from_lem a.ring 0 a.ring.count h v.slots (omega (arith, v.counted))
        ∙ take_long a.ring.count n h (omega (arith, v.counted))
            (omega (arith, v.counted, ltb→lt _ _ less)))
    | inr more ↦ rw more (entries_from_lem a.ring 0 n h v.slots (ground (arith, v.counted)))
  ]

  query_from_all :
      (a : AuditLog D H) (f : AuditFilter) (i : ℕ) (h result : List (AuditEvent D)) (n : ℕ)
      → Slots a.ring i h
      → length h ≡ n
      → f.limit ≡ 0
      → query_from a f i n result ≡ result ++ keep f h
  unfolding query_from keep at
  query_from_all a f i [] result zero s e lim = sym (append-nil result)
  query_from_all a f i [] result (suc n) s e lim = absurd (omega arith)
  query_from_all a f i (x ∷ h) result zero s e lim = absurd (omega arith)
  query_from_all a f i (x ∷ h) result (suc n) s e lim = elim (Bool-cases (passes f x)) [
    | inr skip ↦
        ground (arith, s.0, skip, query_from_all a f (i + 1) h result n s.1 (omega arith) lim)
    | inl pass ↦ ground (
      arith,
      s.0,
      pass,
      query_from_all a f (i + 1) h (result ++ x ∷ []) n s.1 (omega arith) lim,
      append_assoc result (x ∷ []) (keep f h),
    )
  ]

  query_from_limited :
      (a : AuditLog D H) (f : AuditFilter) (i : ℕ) (h result : List (AuditEvent D)) (n k : ℕ)
      → Slots a.ring i h
      → length h ≡ n
      → f.limit ≡ length result + suc k
      → query_from a f i n result ≡ result ++ take (suc k) (keep f h)
  unfolding query_from keep at
  query_from_limited a f i [] result zero k s e lim = sym (append-nil result)
  query_from_limited a f i [] result (suc n) k s e lim = absurd (omega arith)
  query_from_limited a f i (x ∷ h) result zero k s e lim = absurd (omega arith)
  query_from_limited a f i (x ∷ h) result (suc n) zero s e lim = elim (Bool-cases (passes f x)) [
    | inr skip ↦
        ground (arith, s.0, skip, query_from_limited a f (i + 1) h result n 0 s.1 (omega arith) lim)
    | inl pass ↦ ground (arith, s.0, pass, length-append result (x ∷ []))
  ]
  query_from_limited a f i (x ∷ h) result (suc n) (suc k) s e lim = elim (Bool-cases (passes f x)) [
    | inr skip ↦
        ground (
          arith,
          s.0,
          skip,
          query_from_limited a f (i + 1) h result n (suc k) s.1 (omega arith) lim,
        )
    | inl pass ↦ ground (
      arith,
      s.0,
      pass,
      length-append result (x ∷ []),
      query_from_limited a f (i + 1) h (result ++ x ∷ []) n k s.1 (omega arith)
          (omega (arith, length-append result (x ∷ []))),
      append_assoc result (x ∷ []) (take (suc k) (keep f h)),
    )
  ]

  -- In a log that holds a history: Query returns the events that the filters keep, newest first, as
  -- many as the limit allows; a limit of 0 is none.
  pub query_lem :
      (a : AuditLog D H) (f : AuditFilter) (h : List (AuditEvent D))
      → Holds a.ring h
      → query a f ≡ (if f.limit == 0 then keep f h else take f.limit (keep f h))
  unfolding query
  query_lem a f h v = elim (Bool-cases (f.limit == 0)) [
    | inl none_set ↦
        rw none_set
          (query_from_all a f 0 h [] a.ring.count v.slots v.counted ((==_iff f.limit 0).0 none_set))
    | inr set_to ↦
        query_from_limited a f 0 h [] a.ring.count (f.limit - 1) v.slots v.counted
          (omega (arith, limit_pos set_to))
        ∙ ap (λ (n : ℕ). take n (keep f h)) (sym (limit_pos set_to))
        ∙ ap (λ (b : Bool). if b then keep f h else take f.limit (keep f h)) (sym set_to)
  ]
    where
      limit_pos : (f.limit == 0) ≡ false → f.limit ≡ suc (f.limit - 1)
      limit_pos e = ground arith

  -- In a log that holds a history: Log puts the new event in front of the history, of which the log
  -- keeps what fits; the handlers stay, and are called with the event.
  pub log-Holds :
      (a : AuditLog D H) (h : List (AuditEvent D)) (now : ℕ) (type actor source : Bytes)
      (details : D)
      → Holds a.ring h
      → let (e, a', called) = log a now type actor source details in
        Holds a'.ring (take a.ring.size (e ∷ h))
        × (a'.handlers ≡ a.handlers)
        × (called ≡ a.handlers)
  unfolding log
  log-Holds a h now type actor source details v = (put-Holds a.ring _ h v, refl, refl)
