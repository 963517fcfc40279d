-- ===== src/Base/Sort.antt =====
-- sort.SliceStable of the Go library as insertion from the right, which is what it runs on slices of
-- up to 20 elements; where the test is a strict weak order every stable sort gives the same list.
-- sort.Slice is an interface.
use mathlib.Core.Path.{◌≡◌, refl, ◌∙◌, ap}
use mathlib.Core.Logic.{inl, inr}
use mathlib.Core.Bool.{Bool, true, false}
use mathlib.Core.List.{List, [], ◌∷◌, ◌++◌, reverse, reverse_aux, Memᴰ, append-nil, reverse-reverse}
use mathlib.Core.List.{Permᴰ}
use mathlib.Core.List.Permᴰ
use the_redirector.Base.Tests.{if◌then◌else◌, Bool-cases}
use the_redirector.Base.Lists.{All, All-mem, All-get}

module _ {ℓ} {A : Type ℓ} where
  pub perm-memᴰ : {xs ys : List A} {a : A} → Permᴰ xs ys → Memᴰ a xs → Memᴰ a ys
  perm-memᴰ Permᴰ.nil m = m
  perm-memᴰ (Permᴰ.cons e p) (Memᴰ.head f) = Memᴰ.head (f ∙ e)
  perm-memᴰ (Permᴰ.cons e p) (Memᴰ.tail m) = Memᴰ.tail (perm-memᴰ p m)
  perm-memᴰ (Permᴰ.swap e f) (Memᴰ.head g) = Memᴰ.tail (Memᴰ.head (g ∙ e))
  perm-memᴰ (Permᴰ.swap e f) (Memᴰ.tail (Memᴰ.head g)) = Memᴰ.head (g ∙ f)
  perm-memᴰ (Permᴰ.swap e f) (Memᴰ.tail (Memᴰ.tail m)) = Memᴰ.tail (Memᴰ.tail m)
  perm-memᴰ (Permᴰ.trans p q) m = perm-memᴰ q (perm-memᴰ p m)

  pub All-perm {κ} : (P : A → Type κ) {xs ys : List A} → Permᴰ xs ys → All P xs → All P ys
  All-perm P {xs} {ys} p h = All-mem P ys (λ a m. All-get P a xs h (perm-memᴰ (Permᴰ.symm p) m))

module _ {ℓ} {A : Type ℓ} (less : A → A → Bool) where
  -- The sorted part of the slice, last element first, with one more element put in.
  insert_last : A → List A → List A
  insert_last x [] = x ∷ []
  insert_last x (y ∷ ys) = if less x y then y ∷ insert_last x ys else x ∷ y ∷ ys

  sort_onto : List A → List A → List A
  sort_onto done [] = done
  sort_onto done (x ∷ xs) = sort_onto (insert_last x done) xs

  unfoldable pub sort_stable : List A → List A
  unfolding sort_onto insert_last
  sort_stable xs = reverse (sort_onto [] xs)

  -- No element stands right behind one that it is less than.
  abbrev pub IsStepwise : List A → Type 0
  IsStepwise [] = Unit
  IsStepwise (x ∷ []) = Unit
  IsStepwise (x ∷ y ∷ l) = (less y x ≡ false) × IsStepwise (y ∷ l)

  sort_onto-IsStepwise :
      (x : A) (done l : List A)
      → IsStepwise (x ∷ l)
      → sort_onto (x ∷ done) l ≡ reverse_aux l (x ∷ done)
  unfolding sort_onto insert_last
  sort_onto-IsStepwise x done [] h = refl
  sort_onto-IsStepwise x done (y ∷ l) h = rw h.0 (sort_onto-IsStepwise y (x ∷ done) l h.1)

  -- The insertion compares neighbours only, and leaves such a list as it is.
  pub sort_stable-IsStepwise : (l : List A) → IsStepwise l → sort_stable l ≡ l
  unfolding sort_stable sort_onto insert_last
  sort_stable-IsStepwise [] h = refl
  sort_stable-IsStepwise (x ∷ l) h =
      ap reverse (sort_onto-IsStepwise x [] l h) ∙ reverse-reverse (x ∷ l)

  -- No element comes before one that is less.
  abbrev pub IsSorted : List A → Type ℓ
  IsSorted [] = Unit
  IsSorted (x ∷ xs) = All (λ y. less y x ≡ false) xs × IsSorted xs

  -- On the elements with `P` the test is asymmetric, and what it leaves undecided is transitive.
  pub record IsOrder {κ} (P : A → Type κ) : Type (ℓ ⊔ κ) where
    pub asymmetric : (a b : A) → P a → P b → less a b ≡ true → less b a ≡ false
    pub transitive :
        (a b c : A) → P a → P b → P c → less a b ≡ false → less b c ≡ false → less a c ≡ false

  insert_last-perm : (x : A) (ys : List A) → Permᴰ (insert_last x ys) (x ∷ ys)
  unfolding insert_last
  insert_last-perm x [] = Permᴰ.refl _
  insert_last-perm x (y ∷ ys) = elim (Bool-cases (less x y)) [
    | inl before ↦
        rw before (Permᴰ.trans (Permᴰ.cons refl (insert_last-perm x ys)) (Permᴰ.swap refl refl))
    | inr after ↦ rw after (Permᴰ.refl _)
  ]

  sort_onto-perm : (done xs : List A) → Permᴰ (sort_onto done xs) (done ++ xs)
  unfolding sort_onto
  sort_onto-perm done [] = rw append-nil (Permᴰ.refl _)
  sort_onto-perm done (x ∷ xs) = Permᴰ.trans (sort_onto-perm (insert_last x done) xs) (
      Permᴰ.trans (Permᴰ.append_right xs (insert_last-perm x done))
        (Permᴰ.symm (Permᴰ.middle x done xs)))

  -- Sorting keeps the elements.
  pub sort_stable-perm : (xs : List A) → Permᴰ (sort_stable xs) xs
  unfolding sort_stable
  sort_stable-perm xs = Permᴰ.trans (Permᴰ.reverse _) (sort_onto-perm [] xs)

  -- The sorted part as it is kept, last element first.
  abbrev IsSortedDown : List A → Type ℓ
  IsSortedDown [] = Unit
  IsSortedDown (x ∷ xs) = All (λ y. less x y ≡ false) xs × IsSortedDown xs

  IsSorted-reverse_aux :
      (ds acc : List A)
      → IsSortedDown ds
      → IsSorted acc
      → All (λ d. All (λ a. less a d ≡ false) acc) ds
      → IsSorted (reverse_aux ds acc)
  IsSorted-reverse_aux [] acc h k across = k
  IsSorted-reverse_aux (d ∷ ds) acc h k across =
      IsSorted-reverse_aux ds (d ∷ acc) h.1 (across.0, k) (All-zip ds h.0 across.1)
    where
      All-zip :
          (es : List A)
          → All (λ e. less d e ≡ false) es
          → All (λ e. All (λ a. less a e ≡ false) acc) es
          → All (λ e. All (λ a. less a e ≡ false) (d ∷ acc)) es
      All-zip [] p q = tt
      All-zip (e ∷ es) p q = ((p.0, q.0), All-zip es p.1 q.1)

  module _ {κ} {P : A → Type κ} (order : IsOrder P) where
    below_later :
        (x y : A) (ys : List A)
        → P x
        → P y
        → All P ys
        → less x y ≡ false
        → All (λ z. less y z ≡ false) ys
        → All (λ z. less x z ≡ false) ys
    below_later x y [] px py ps e h = tt
    below_later x y (z ∷ ys) px py ps e h =
        (order.transitive x y z px py ps.0 e h.0, below_later x y ys px py ps.1 e h.1)

    insert_last-IsSortedDown :
        (x : A) (ys : List A) → P x → All P ys → IsSortedDown ys → IsSortedDown (insert_last x ys)
    unfolding insert_last
    insert_last-IsSortedDown x [] px ps h = (tt, tt)
    insert_last-IsSortedDown x (y ∷ ys) px ps h = elim (Bool-cases (less x y)) [
      | inl before ↦ rw before (
        All-perm _ (Permᴰ.symm (insert_last-perm x ys)) (order.asymmetric x y px ps.0 before, h.0),
        insert_last-IsSortedDown x ys px ps.1 h.1,
      )
      | inr after ↦ rw after ((after, below_later x y ys px ps.0 ps.1 after h.0), h)
    ]

    sort_onto-IsSortedDown :
        (done xs : List A)
        → All P done
        → All P xs
        → IsSortedDown done
        → IsSortedDown (sort_onto done xs)
    unfolding sort_onto
    sort_onto-IsSortedDown done [] pd px h = h
    sort_onto-IsSortedDown done (x ∷ xs) pd px h =
        sort_onto-IsSortedDown (insert_last x done) xs
          (All-perm _ (Permᴰ.symm (insert_last-perm x done)) (px.0, pd)) px.1
          (insert_last-IsSortedDown x done px.0 pd h)

    -- Where the test is an order, the result is sorted.
    pub sort_stable-IsSorted : (xs : List A) → All P xs → IsSorted (sort_stable xs)
    unfolding sort_stable
    sort_stable-IsSorted xs ps =
        IsSorted-reverse_aux (sort_onto [] xs) [] (sort_onto-IsSortedDown [] xs tt ps tt) tt
          (All-mem _ (sort_onto [] xs) (λ a m. tt))

-- sort.Slice of the Go library: a sort that need not be stable. The result has the same elements, in
-- order where the test is an order; where elements with no order between them stand is left open.
pub record SortSlice {ℓ} (A : Type ℓ) : Type ℓ where
  pub sort : (A → A → Bool) → List A → List A
  pub keeps : (less : A → A → Bool) (l : List A) → Permᴰ (sort less l) l
  pub orders :
      (less : A → A → Bool) (l : List A)
      → IsOrder less (λ a. Unit {ℓ})
      → IsSorted less (sort less l)

-- A stable sort is one.
unfoldable pub stable_sorting {ℓ} : {A : Type ℓ} → SortSlice A
stable_sorting = record {
  sort = λ less l. sort_stable less l;
  keeps = λ less l. sort_stable-perm less l;
  orders = λ less l order. sort_stable-IsSorted less order l (All-mem _ l (λ a m. tt));
}
