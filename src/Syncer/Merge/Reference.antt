-- ===== src/Syncer/Merge/Reference.antt =====
-- The references for a merge (fetchAndMerge of internal/syncer/syncer.go): the list of all offered
-- rules, of which for each key the first is kept, or the last.
use the_redirector.Base.{
  ◌≡◌, refl, sym, ap, ◌∙◌, Bool, true, false, not, ◌&&◌, ◌||◌, List, [], ◌∷◌, ◌++◌, append-nil,
  append_assoc, Bytes, ◌=s◌, =s_iff, if◌then◌else◌, arith, Bool-cases, inl, inr,
}
use the_redirector.Config.{Rule}
use the_redirector.Syncer.Merge.{key_of, remove_rule_by_path}
use the_redirector.Syncer.Merge.Loop.{
  has, has-append, has-remove, add_first, add_last, remove_absent,
}
use the_redirector.Syncer.Merge.Laws.{fold}

=s_sym : (j k : Bytes) → (j =s k) ≡ (k =s j)
=s_sym j k = ground (arith, =s_iff j k, =s_iff k j)

module _ {R : Type 0} where
  -- For each key, the first rule.
  unfoldable pub keep_first : List (Rule R) → List (Rule R)
  keep_first [] = []
  keep_first (x ∷ xs) = x ∷ remove_rule_by_path (keep_first xs) (key_of x)

  -- For each key, the last rule.
  unfoldable pub keep_last : List (Rule R) → List (Rule R)
  keep_last [] = []
  keep_last (x ∷ xs) = let rest = keep_last xs in if has (key_of x) xs then rest else x ∷ rest

  -- No two rules have one key.
  abbrev pub IsKeyed : List (Rule R) → Type 0
  IsKeyed [] = Unit
  IsKeyed (x ∷ xs) = (has (key_of x) xs ≡ false) × IsKeyed xs

  -- The rules of the second list whose keys the first does not have.
  without : List (Rule R) → List (Rule R) → List (Rule R)
  without acc [] = []
  without acc (x ∷ xs) = let rest = without acc xs in if has (key_of x) acc then rest else x ∷ rest

  has-eq : (j k : Bytes) (l : List (Rule R)) → (j =s k) ≡ true → has j l ≡ has k l
  has-eq j k l e = ap (λ i. has i l) ((=s_iff j k).0 e)

  without-remove_known :
      (acc l : List (Rule R)) (k : Bytes)
      → has k acc ≡ true
      → without acc (remove_rule_by_path l k) ≡ without acc l
  unfolding without remove_rule_by_path
  without-remove_known acc [] k h = refl
  without-remove_known acc (y ∷ l) k h = elim (Bool-cases (key_of y =s k)) [
    | inl same ↦ rw (same, has-eq (key_of y) k acc same ∙ h) (without-remove_known acc l k h)
    | inr differ ↦ rw differ (
        ap (λ rest. if has (key_of y) acc then rest else y ∷ rest) (without-remove_known acc l k h))
  ]

  -- A list with one key more.
  without-more :
      (acc' acc : List (Rule R)) (x : Rule R)
      → ((k : Bytes) → has k acc' ≡ (has k acc || k =s key_of x))
      → (l : List (Rule R)) → without acc' l ≡ without acc (remove_rule_by_path l (key_of x))
  unfolding without remove_rule_by_path
  without-more acc' acc x h [] = refl
  without-more acc' acc x h (y ∷ l) = elim (Bool-cases (key_of y =s key_of x)) [
    | inl same ↦ rw (h (key_of y), same, or_true (has (key_of y) acc)) (without-more acc' acc x h l)
    | inr differ ↦
        rw (h (key_of y), differ, or_false (has (key_of y) acc))
          (ap (λ rest. if has (key_of y) acc then rest else y ∷ rest) (without-more acc' acc x h l))
  ]
    where
      or_true : (b : Bool) → (b || true) ≡ true
      or_true b = ground arith

      or_false : (b : Bool) → (b || false) ≡ b
      or_false b = ground arith

  without-grown :
      (acc l : List (Rule R)) (x : Rule R)
      → without (acc ++ x ∷ []) l ≡ without acc (remove_rule_by_path l (key_of x))
  without-grown acc l x =
      without-more (acc ++ x ∷ []) acc x
        (λ k. has-append k acc x ∙ ap (λ b. has k acc || b) (=s_sym (key_of x) k)) l

  fold-add_first :
      (acc xs : List (Rule R)) → fold add_first acc xs ≡ acc ++ without acc (keep_first xs)
  unfolding fold add_first keep_first without
  fold-add_first acc [] = sym (append-nil acc)
  fold-add_first acc (x ∷ xs) = elim (Bool-cases (has (key_of x) acc)) [
    | inl known ↦ rw known (
        fold-add_first acc xs
        ∙ ap (λ l. acc ++ l) (sym (without-remove_known acc (keep_first xs) (key_of x) known)))
    | inr fresh ↦ rw fresh (
        fold-add_first (acc ++ x ∷ []) xs
        ∙ append_assoc acc (x ∷ []) _
        ∙ ap (λ l. acc ++ x ∷ l) (without-grown acc (keep_first xs) x))
  ]

  without_nothing : (l : List (Rule R)) → without [] l ≡ l
  unfolding without
  without_nothing [] = refl
  without_nothing (y ∷ l) = ap (λ t. y ∷ t) (without_nothing l)

  pub fold-keep_first : (xs : List (Rule R)) → fold add_first [] xs ≡ keep_first xs
  fold-keep_first xs = fold-add_first [] xs ∙ without_nothing (keep_first xs)

  without-append :
      (acc l : List (Rule R)) (x : Rule R)
      → without acc (l ++ x ∷ []) ≡ without acc l ++ (if has (key_of x) acc then [] else x ∷ [])
  unfolding without
  without-append acc [] x = refl
  without-append acc (y ∷ l) x = elim (Bool-cases (has (key_of y) acc)) [
    | inl known ↦ rw known (without-append acc l x)
    | inr fresh ↦ rw fresh (ap (λ t. y ∷ t) (without-append acc l x))
  ]

  without-cons :
      (acc l : List (Rule R)) (x : Rule R)
      → without (x ∷ acc) l ≡ without acc (remove_rule_by_path l (key_of x))
  without-cons acc l x =
      without-more (x ∷ acc) acc x
        (λ k. ap (λ b. b || has k acc) (=s_sym (key_of x) k) ∙ or_comm (k =s key_of x) (has k acc))
        l
    where
      or_comm : (a b : Bool) → (a || b) ≡ (b || a)
      or_comm a b = ground arith

  fold-add_last : (acc xs : List (Rule R)) → fold add_last acc xs ≡ without xs acc ++ keep_last xs
  unfolding fold add_last keep_last
  fold-add_last acc [] = sym (append-nil _ ∙ without_nothing acc)
  fold-add_last acc (x ∷ xs) =
      fold-add_last (add_last acc x) xs
      ∙ ap (λ l. l ++ keep_last xs) (without-append xs (remove_rule_by_path acc (key_of x)) x)
      ∙ append_assoc (without xs (remove_rule_by_path acc (key_of x)))
          (if has (key_of x) xs then [] else x ∷ []) (keep_last xs)
      ∙ ap (λ l. l ++ ((if has (key_of x) xs then [] else x ∷ []) ++ keep_last xs))
          (sym (without-cons xs acc x))
      ∙ ap (λ l. without (x ∷ xs) acc ++ l) shape
    where
      shape :
          ((if has (key_of x) xs then [] else x ∷ []) ++ keep_last xs)
          ≡ (if has (key_of x) xs then keep_last xs else x ∷ keep_last xs)
      shape = ground arith

  pub fold-keep_last : (xs : List (Rule R)) → fold add_last [] xs ≡ keep_last xs
  unfolding without
  fold-keep_last xs = fold-add_last [] xs

  IsKeyed-remove : (k : Bytes) (l : List (Rule R)) → IsKeyed l → IsKeyed (remove_rule_by_path l k)
  unfolding remove_rule_by_path
  IsKeyed-remove k [] h = tt
  IsKeyed-remove k (y ∷ l) h = elim (Bool-cases (key_of y =s k)) [
    | inl same ↦ rw same (IsKeyed-remove k l h.1)
    | inr differ ↦
        rw differ (
          has-remove (key_of y) k l ∙ ap (λ b. b && not (k =s key_of y)) h.0,
          IsKeyed-remove k l h.1,
        )
  ]

  pub keep_first-IsKeyed : (xs : List (Rule R)) → IsKeyed (keep_first xs)
  unfolding keep_first
  keep_first-IsKeyed [] = tt
  keep_first-IsKeyed (x ∷ xs) = (
    has-remove (key_of x) (key_of x) (keep_first xs)
        ∙ shape (has (key_of x) (keep_first xs)) ((=s_iff (key_of x) (key_of x)).1 refl),
    IsKeyed-remove (key_of x) _ (keep_first-IsKeyed xs),
  )
    where
      shape : (b : Bool) {c : Bool} → c ≡ true → (b && not c) ≡ false
      shape b e = ground arith

  has-keep_last : (k : Bytes) (xs : List (Rule R)) → has k (keep_last xs) ≡ has k xs
  unfolding keep_last
  has-keep_last k [] = refl
  has-keep_last k (x ∷ xs) = elim (Bool-cases (has (key_of x) xs)) [
    | inl again ↦ rw again (has-keep_last k xs ∙ absorbed again)
    | inr single ↦ rw single (ap (λ b. key_of x =s k || b) (has-keep_last k xs))
  ]
    where
      absorbed : has (key_of x) xs ≡ true → has k xs ≡ (key_of x =s k || has k xs)
      absorbed again = elim (Bool-cases (key_of x =s k)) [
        | inl same ↦ rw same (sym (has-eq (key_of x) k xs same) ∙ again)
        | inr differ ↦ rw differ refl
      ]

  pub keep_last-IsKeyed : (xs : List (Rule R)) → IsKeyed (keep_last xs)
  unfolding keep_last
  keep_last-IsKeyed [] = tt
  keep_last-IsKeyed (x ∷ xs) = elim (Bool-cases (has (key_of x) xs)) [
    | inl again ↦ rw again (keep_last-IsKeyed xs)
    | inr single ↦ rw single (has-keep_last (key_of x) xs ∙ single, keep_last-IsKeyed xs)
  ]

  -- Of a list without a second rule of a key, all rules are kept.
  pub keep_first_all : (xs : List (Rule R)) → IsKeyed xs → keep_first xs ≡ xs
  unfolding keep_first
  keep_first_all [] h = refl
  keep_first_all (x ∷ xs) h =
      ap (λ l. x ∷ remove_rule_by_path l (key_of x)) (keep_first_all xs h.1)
      ∙ ap (λ l. x ∷ l) (remove_absent xs (key_of x) h.0)
