-- ===== src/Base/Text/Laws.antt =====
-- Laws of texts: equality and prefixes.
use mathlib.Core.Path.{◌≡◌, refl}
use mathlib.Core.Logic.{◌↔◌, inl, inr}
use mathlib.Core.Bool.{true, false≢true}
use mathlib.Core.Option.{some}
use mathlib.Core.List.{[], ◌∷◌, ◌++◌}
use native.Mathlib.Omega.{arith}
use the_redirector.Base.Tests.{Option-cases, is_some}
use the_redirector.Base.Text.Defs.{Bytes, ◌=s◌, strip_prefix, has_prefix}

pub =s_refl : (s : Bytes) → (s =s s) ≡ true
unfolding ◌=s◌
=s_refl [] = refl
=s_refl (a ∷ s) = ground (arith, =s_refl s)

pub eq_of_=s : (s t : Bytes) → (s =s t) ≡ true → s ≡ t
unfolding ◌=s◌
eq_of_=s [] [] h = refl
eq_of_=s [] (b ∷ t) h = cc
eq_of_=s (a ∷ s) [] h = cc
eq_of_=s (a ∷ s) (b ∷ t) h = ground (arith, eq_of_=s s t)

pub =s_iff : (s t : Bytes) → ((s =s t) ≡ true) ↔ (s ≡ t)
=s_iff s t = (eq_of_=s s t, λ e. rw e (=s_refl t))

pub strip_prefix-append : (p s : Bytes) → strip_prefix (p ++ s) p ≡ some s
unfolding strip_prefix
strip_prefix-append [] s = refl
strip_prefix-append (a ∷ p) s = ground (arith, strip_prefix-append p s)

pub eq-append_of_strip_prefix : (s p r : Bytes) → strip_prefix s p ≡ some r → s ≡ p ++ r
unfolding strip_prefix
eq-append_of_strip_prefix s [] r e = ground arith
eq-append_of_strip_prefix [] (b ∷ p) r e = cc
eq-append_of_strip_prefix (a ∷ s) (b ∷ p) r e = ground (arith, eq-append_of_strip_prefix s p r)

-- A text has a prefix exactly when it is the prefix followed by a text.
pub has_prefix_iff : (s p : Bytes) → (has_prefix s p ≡ true) ↔ ((r : Bytes) × (s ≡ p ++ r))
unfolding has_prefix
has_prefix_iff s p = (
  λ h. elim (Option-cases (strip_prefix s p)) [
    | inl missed ↦ absurd (false≢true (rw (missed, is_some) at h))
    | inr (r, found) ↦ (r, eq-append_of_strip_prefix s p r found)
  ],
  λ h. rw (h.1, strip_prefix-append),
)
