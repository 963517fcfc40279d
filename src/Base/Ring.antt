-- ===== src/Base/Ring.antt =====
-- The bounded buffer that internal/versioning keeps twice, in Store and in AuditLog: a slice of
-- pointers that is written in a circle, with the index of the newest entry and the number of entries.
use mathlib.Core.Path.{◌≡◌, refl, ◌∙◌, ap, sym}
use mathlib.Core.Logic.{◌≢◌, ◌⊎◌, inl, inr}
use mathlib.Core.Option.{Option, none, some}
use mathlib.Core.List.{List, [], ◌∷◌}
use native.Mathlib.Omega.{arith}
use native.Mathlib.Nat.{mod-eq_of_lt, mod-eq-sub-mod}
use native.Mathlib.Decide.{dec_lt}
use Prim.Native.Nat.{ℕ, zero, suc, ◌+◌, ◌-◌, ◌%◌, ◌≤◌, ◌<◌, min}
use the_redirector.Base.Tests.{ltb, if◌then◌else◌}
use the_redirector.Base.Lists.{
  length, get_elem?, set, take, replicate, length-set, get_elem?-set_self, get_elem?-set_ne,
  length-replicate,
}

pub record Ring {ℓ} (A : Type ℓ) : Type ℓ where
  pub items : List (Option A)
  pub size : ℕ
  pub current : ℕ
  pub count : ℕ

-- The index of the entry that is `i` older than the newest. The source adds the size last, on
-- integers; `i` is below the size here.
abbrev pub slot : ℕ → ℕ → ℕ → ℕ
slot size current i = (current + size - i) % size

module _ {ℓ} {A : Type ℓ} where
  abbrev pub new_ring : ℕ → Ring A
  new_ring size = record { items = replicate size none; size = size; current = 0; count = 0 }

  -- The newest entry goes one slot on, over the oldest if all are full.
  unfoldable pub put : Ring A → A → Ring A
  put r a = record {
    items = set r.items ((r.current + 1) % r.size) (some a);
    size = r.size;
    current = (r.current + 1) % r.size;
    count = if ltb r.count r.size then r.count + 1 else r.count;
  }

  -- The entry in a slot; `none` is a nil pointer.
  unfoldable pub at : Ring A → ℕ → Option A
  at r i = elim (get_elem? r.items (slot r.size r.current i)) [ none ↦ none | some o ↦ o ]

  -- Slot `i` on is read for so many rounds, and nil pointers are passed over.
  unfoldable pub entries_from : Ring A → ℕ → ℕ → List A
  unfolding at
  entries_from r i zero = []
  entries_from r i (suc n) = elim (at r i) [
    | none ↦ entries_from r (i + 1) n
    | some a ↦ a ∷ entries_from r (i + 1) n
  ]

  -- The slots from the `i`-th on hold the list.
  abbrev pub Slots : Ring A → ℕ → List A → Type ℓ
  Slots r i [] = Unit
  Slots r i (a ∷ h) =
      (get_elem? r.items (slot r.size r.current i) ≡ some (some a)) × Slots r (i + 1) h

  -- The buffer holds the list, newest first.
  pub record Holds (r : Ring A) (h : List A) : Type ℓ where
    pub positive : 0 < r.size
    pub storage : length r.items ≡ r.size
    pub newest : r.current < r.size
    pub fits : r.count ≤ r.size
    pub counted : length h ≡ r.count
    pub slots : Slots r 0 h

next_lem :
    (m c : ℕ) → c < m → ((c + 1 ≡ m) × ((c + 1) % m ≡ 0)) ⊎ ((c + 1 < m) × ((c + 1) % m ≡ c + 1))
next_lem m c h = elim (dec_lt (c + 1) m) [
  | yes p ↦ inr (p, mod-eq_of_lt p)
  | no p ↦ inl (
    omega arith,
    omega (
      arith,
      mod-eq-sub-mod {n = c + 1} {m = m} (omega arith),
      mod-eq_of_lt {n = c + 1 - m} {m = m} (omega arith),
    ),
  )
]

slot_lem :
    (m c i : ℕ)
    → c < m
    → i < m
    → ((i ≤ c) × (slot m c i ≡ c - i)) ⊎ ((c < i) × (slot m c i ≡ c + m - i))
slot_lem m c i hc hi = elim (dec_lt c i) [
  | yes p ↦ inr (p, mod-eq_of_lt {n = c + m - i} {m = m} (omega arith))
  | no p ↦ inl (
    omega arith,
    omega (
      arith,
      mod-eq-sub-mod {n = c + m - i} {m = m} (omega arith),
      mod-eq_of_lt {n = c + m - i - m} {m = m} (omega arith),
    ),
  )
]

slot_next :
    (m c i : ℕ)
    → c < m
    → i + 1 < m
    → (slot m ((c + 1) % m) (i + 1) ≡ slot m c i) × (slot m c i ≢ (c + 1) % m)
slot_next m c i hc hi = elim (next_lem m c hc) [
  | inl (e, n) ↦ omega (
    arith,
    e,
    n,
    slot_lem m c i hc (omega arith),
    slot_lem m ((c + 1) % m) (i + 1) (omega arith) hi,
  )
  | inr (e, n) ↦ omega (
    arith,
    e,
    n,
    slot_lem m c i hc (omega arith),
    slot_lem m ((c + 1) % m) (i + 1) (omega arith) hi,
  )
]

pub slot_zero : (m c : ℕ) → c < m → slot m c 0 ≡ c
slot_zero m c h = omega (arith, slot_lem m c 0 h (omega arith))

module _ {ℓ} {A : Type ℓ} where
  Slots-take : (r : Ring A) (i k : ℕ) (h : List A) → Slots r i h → Slots r i (take k h)
  Slots-take r i zero h s = tt
  Slots-take r i (suc k) [] s = tt
  Slots-take r i (suc k) (a ∷ h) s = (s.0, Slots-take r (i + 1) k h s.1)

  Slots-put :
      (r : Ring A) (a : A) (i : ℕ) (h : List A)
      → r.current < r.size
      → i + length h < r.size
      → Slots r i h
      → Slots (put r a) (i + 1) h
  unfolding put
  Slots-put r a i [] hc hi s = tt
  Slots-put r a i (b ∷ h) hc hi s =
      let (same, apart) = slot_next r.size r.current i hc (omega arith) in
      (
        rw (same, get_elem?-set_ne r.items (some a) (λ e. apart (sym e))) s.0,
        Slots-put r a (i + 1) h hc (omega arith) s.1,
      )

  length-take : (k : ℕ) (h : List A) → length (take k h) ≡ min k (length h)
  length-take zero h = omega arith
  length-take (suc k) [] = omega arith
  length-take (suc k) (a ∷ h) = omega (arith, length-take k h)

  take_pos : (n : ℕ) (a : A) (h : List A) → 0 < n → take n (a ∷ h) ≡ a ∷ take (n - 1) h
  take_pos zero a h p = absurd (omega arith)
  take_pos (suc n) a h p = ap (λ k. a ∷ take k h) (omega arith)

  -- Writing puts the entry in front and keeps what fits.
  pub put-Holds :
      (r : Ring A) (a : A) (h : List A) → Holds r h → Holds (put r a) (take r.size (a ∷ h))
  unfolding put
  put-Holds r a h v = rw (take_pos r.size a h v.positive) (record {
    positive = v.positive;
    storage = length-set r.items next (some a) ∙ v.storage;
    newest = next_in;
    fits = ground (arith, v.fits);
    counted = ground (arith, length-take (r.size - 1) h, v.counted, v.fits, v.positive);
    slots = (
      rw (slot_zero r.size next next_in)
          (get_elem?-set_self r.items next (some a) (omega (arith, v.storage, next_in))),
      Slots-put r a 0 (take (r.size - 1) h) v.newest
          (omega (arith, length-take (r.size - 1) h, v.positive))
          (Slots-take r 0 (r.size - 1) h v.slots),
    );
  })
    where
      next : ℕ
      next = (r.current + 1) % r.size

      next_in : next < r.size
      next_in = omega (arith, v.positive)

  pub new_ring-Holds : (size : ℕ) → 0 < size → Holds {A = A} (new_ring size) []
  new_ring-Holds size h = record {
    positive = h;
    storage = length-replicate size none;
    newest = h;
    fits = omega arith;
    counted = refl;
    slots = tt;
  }

  pub entries_from_lem :
      (r : Ring A) (i n : ℕ) (h : List A)
      → Slots r i h
      → n ≤ length h
      → entries_from r i n ≡ take n h
  unfolding entries_from
  entries_from_lem r i zero h s le = refl
  entries_from_lem r i (suc n) [] s le = absurd (omega arith)
  entries_from_lem r i (suc n) (a ∷ h) s le =
      rw (s.0, entries_from) (ap (λ l. a ∷ l) (entries_from_lem r (i + 1) n h s.1 (omega arith)))
