-- ===== src/Base/Results.antt =====
-- Go's (value, error) results: a value or an error.
use mathlib.Core.Path.{◌≡◌, refl}
use mathlib.Core.Logic.{◌⊎◌, inl, inr}
use mathlib.Core.Option.{some}
use mathlib.Core.Bool.{Bool, true, false}

pub data Result {ℓ κ} (E : Type κ) (A : Type ℓ) : Type (ℓ ⊔ κ) where
  ok : A → Result E A
  err : E → Result E A

module _ {μ} {E : Type μ} where
  abbrev pub IsOk {ℓ} : {A : Type ℓ} → Result E A → Type 0
  IsOk (ok a) = Unit
  IsOk (err e) = ⊥

  -- if test { return e }
  abbrev pub fail_if : Bool → E → Result E (Unit {0})
  fail_if test e = elim test [ true ↦ err e | false ↦ ok tt ]

  infixl 5 ◌>>=◌ ◌>>◌
  -- if err != nil { return err }, and what follows
  abbrev pub ◌>>=◌ {ℓ κ} : {A : Type ℓ} {B : Type κ} → Result E A → (A → Result E B) → Result E B
  err e >>= next = err e
  ok a >>= next = next a

  abbrev pub ◌>>◌ {κ} : {B : Type κ} → Result E (Unit {0}) → Result E B → Result E B
  checked >> next = checked >>= λ _. next

  -- Where the whole succeeds, the first part did.
  pub >>=-eq-ok {ℓ κ} :
      {A : Type ℓ} {B : Type κ} {b : B} (m : Result E A) (next : A → Result E B)
      → (m >>= next) ≡ ok b
      → (a : A) × (m ≡ ok a) × (next a ≡ ok b)
  >>=-eq-ok (err e) next h = cc
  >>=-eq-ok (ok a) next h = (a, refl, h)

module _ {ℓ κ} {E : Type κ} {A : Type ℓ} where
  pub Result-cases : (x : Result E A) → ((e : E) × (x ≡ err e)) ⊎ ((a : A) × (x ≡ ok a))
  Result-cases (err e) = inl (e, refl)
  Result-cases (ok a) = inr (a, refl)

  pub ok_injective : {a b : A} → ◌≡◌ {A = Result E A} (ok a) (ok b) → a ≡ b
  ok_injective e = cc

pub some_injective {ℓ} : {A : Type ℓ} {a b : A} → some a ≡ some b → a ≡ b
some_injective e = cc
