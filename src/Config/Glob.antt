-- ===== src/Config/Glob.antt =====
-- internal/config/config.go: globToRegex. The index of the loop is the text that is left, and its
-- rounds take fuel, of which the length of the pattern is enough (Config/Glob/Tokens).
pub mod Tokens
use the_redirector.Base.{
  ℕ, zero, suc, ◌≤◌, ◌≡◌, refl, ap, Bool, [], ◌∷◌, ◌++◌, any, length, Bytes, lit, ◌==◌,
  if◌then◌else◌, arith,
}

-- The case of a star, with what stands behind it: what is written, and what is left.
pub skip_slash : Bytes → Bytes
skip_slash [] = []
skip_slash (c ∷ s) = if c == b'/' then s else c ∷ s

pub star_step : Bytes → Bytes × Bytes
star_step [] = (lit "[^/]*", [])
star_step (d ∷ s) = if d == b'*' then (lit ".*", skip_slash s) else (lit "[^/]*", d ∷ s)

abbrev pub is_special : ℕ → Bool
is_special c = any (λ x. c == x) (lit ".+^$(){}[]|\\")

-- One round of the loop at the byte `c`.
pub glob_step : ℕ → Bytes → Bytes × Bytes
unfolding skip_slash star_step
glob_step c s =
    if c == b'*'
    then star_step s
    else if c == b'?'
    then (lit "[^/]", s)
    else if is_special c
    then (lit "\\" ++ c ∷ [], s)
    else (c ∷ [], s)

pub glob_loop : ℕ → Bytes → Bytes
glob_loop zero s = []
glob_loop (suc f) [] = []
glob_loop (suc f) (c ∷ s) = let (written, left) = glob_step c s in written ++ glob_loop f left

-- globToRegex
unfoldable pub glob_to_regex : Bytes → Bytes
unfolding glob_loop glob_step
glob_to_regex glob = lit "^" ++ (glob_loop (length glob) glob ++ lit "$")

abbrev pub LeftShorter : (c : ℕ) (s : Bytes) → Type 0
LeftShorter c s = length (glob_step c s).1 ≤ length s

pub glob_step-shorter : (c : ℕ) (s : Bytes) → LeftShorter c s
unfolding glob_step
glob_step-shorter c [] = ground arith
glob_step-shorter c (d ∷ []) = ground arith
glob_step-shorter c (d ∷ e ∷ s) = ground arith
