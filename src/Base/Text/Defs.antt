-- ===== src/Base/Text/Defs.antt =====
-- Go strings as lists of bytes. Spaces and letters are those of ASCII: `trim_space` and `to_lower`
-- leave the bytes of other characters as they are.
use Prim.Native.Char.{code}
use Prim.Native.Nat.{ℕ, zero, suc, ◌+◌, ◌/◌, ◌%◌}
use Prim.Native.String.{String}
use mathlib.Core.Bool.{Bool, true, false, ◌&&◌, ◌||◌}
use mathlib.Core.Option
use mathlib.Core.Option.{Option, none, some}
use mathlib.Core.List.{List, [], ◌∷◌, ◌++◌, reverse, map}
use the_redirector.Base.Tests.{leb, ◌==◌, if◌then◌else◌, is_some}
use the_redirector.Base.Lists.{any}

abbrev pub Bytes : Type 0
Bytes = List ℕ

-- The bytes of an ASCII literal.
abbrev pub lit : String → Bytes
lit String.[] = []
lit (String.◌∷◌ c s) = code c ∷ lit s

-- a == b on strings
infix 50 ◌=s◌
unfoldable pub ◌=s◌ : Bytes → Bytes → Bool
[] =s [] = true
[] =s (b ∷ t) = false
(a ∷ s) =s [] = false
(a ∷ s) =s (b ∷ t) = (a == b) && (s =s t)

abbrev pub is_empty : Bytes → Bool
is_empty [] = true
is_empty (_ ∷ _) = false

-- What follows the prefix, if the text has it.
unfoldable pub strip_prefix : Bytes → Bytes → Option Bytes
strip_prefix s [] = some s
strip_prefix [] (b ∷ p) = none
strip_prefix (a ∷ s) (b ∷ p) = if a == b then strip_prefix s p else none

-- strings.HasPrefix(s, prefix)
unfoldable pub has_prefix : Bytes → Bytes → Bool
unfolding strip_prefix
has_prefix s prefix = is_some (strip_prefix s prefix)

-- strings.HasSuffix(s, suffix)
unfoldable pub has_suffix : Bytes → Bytes → Bool
unfolding has_prefix
has_suffix s suffix = has_prefix (reverse s) (reverse suffix)

-- strings.TrimPrefix(s, prefix)
unfoldable pub trim_prefix : Bytes → Bytes → Bytes
unfolding strip_prefix
trim_prefix s prefix = Option.get_or (strip_prefix s prefix) s

-- strings.Contains of a text of one byte
unfoldable pub contains_byte : Bytes → ℕ → Bool
contains_byte s c = any (λ b. b == c) s

-- The text before the first `c` and the text behind it, that is s[:i] and s[i+1:] for
-- i = strings.Index(s, c); `none` where the index is -1.
unfoldable pub cut_byte : Bytes → ℕ → Option (Bytes × Bytes)
cut_byte [] c = none
cut_byte (b ∷ s) c =
    let rest = Option.map (λ (p : Bytes × Bytes). (b ∷ p.0, p.1)) (cut_byte s c) in
    if b == c then some ([], s) else rest

-- The same at the last `c`.
unfoldable pub cut_last_byte : Bytes → ℕ → Option (Bytes × Bytes)
cut_last_byte [] c = none
cut_last_byte (b ∷ s) c = elim (cut_last_byte s c) [
  | some p ↦ some (b ∷ p.0, p.1)
  | none ↦ if b == c then some ([], s) else none
]

abbrev pub is_space : ℕ → Bool
is_space c = (leb 9 c && leb c 13) || (c == 32)

unfoldable pub trim_left : Bytes → Bytes
trim_left [] = []
trim_left (b ∷ s) = if is_space b then trim_left s else b ∷ s

-- strings.TrimSpace
unfoldable pub trim_space : Bytes → Bytes
unfolding trim_left
trim_space s = reverse (trim_left (reverse (trim_left s)))

-- strings.ToLower
unfoldable pub to_lower : Bytes → Bytes
to_lower s = map (λ c. if leb 65 c && leb c 90 then c + 32 else c) s

-- strings.Split at a separator of one byte: never empty.
unfoldable pub split_byte : Bytes → ℕ → List Bytes
split_byte [] c = [] ∷ []
split_byte (b ∷ s) c = elim (split_byte s c) [
  | [] ↦ [] ∷ []
  | part ∷ parts ↦ if b == c then [] ∷ part ∷ parts else (b ∷ part) ∷ parts
]

-- strings.ReplaceAll of a byte by a text
unfoldable pub replace_byte : Bytes → ℕ → Bytes → Bytes
replace_byte [] c new = []
replace_byte (b ∷ s) c new = (if b == c then new else b ∷ []) ++ replace_byte s c new

-- The decimal digits of a number, most significant first, with fuel for the digits.
unfoldable pub digits_from : ℕ → ℕ → Bytes → Bytes
digits_from zero n acc = acc
digits_from (suc f) n acc =
    let digit = 48 + n % 10 in
    let rest = digits_from f (n / 10) (digit ∷ acc) in if n / 10 == 0 then digit ∷ acc else rest

-- fmt's %d of a number that is not negative
unfoldable pub format_nat : ℕ → Bytes
unfolding digits_from
format_nat n = digits_from (suc n) n []
