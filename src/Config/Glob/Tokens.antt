-- ===== src/Config/Glob/Tokens.antt =====
-- globToRegex (internal/config/config.go) against a reading of the pattern as a list of tokens.
use the_redirector.Base.{
  ℕ, zero, suc, ◌≤◌, ◌≡◌, refl, sym, ap, ◌∙◌, inl, inr, Bool, true, false, List, [], ◌∷◌, ◌++◌, any,
  length, Bytes, lit, ◌==◌, ==_iff, if◌then◌else◌, arith, Bool-cases, not, ◌&&◌,
}
use the_redirector.Config.Glob.{
  glob_step, glob_step-shorter, glob_loop, glob_to_regex, star_step, skip_slash, is_special,
}

-- Two stars with a slash, two stars, one star, a question mark, or any other byte.
pub data Token : Type 0 where
  stars_slash stars star question : Token
  plain : ℕ → Token

-- The text of a token in a glob pattern.
abbrev pub glob_of : Token → Bytes
glob_of stars_slash = lit "**/"
glob_of stars = lit "**"
glob_of star = lit "*"
glob_of question = lit "?"
glob_of (plain c) = c ∷ []

-- The bytes that regexp.QuoteMeta puts a backslash before.
abbrev pub is_meta : ℕ → Bool
is_meta c = any (λ x. c == x) (lit "\\.+*?()|[]{}^$")

-- The regular expression of a token.
abbrev pub regex_of : Token → Bytes
regex_of stars_slash = lit ".*"
regex_of stars = lit ".*"
regex_of star = lit "[^/]*"
regex_of question = lit "[^/]"
regex_of (plain c) = if is_meta c then lit "\\" ++ c ∷ [] else c ∷ []

abbrev pub starts : ℕ → Bytes → Bool
starts c [] = false
starts c (d ∷ s) = d == c

-- A token before a text is the longest one that can be read there.
abbrev pub is_longest : Token → Bytes → Bool
is_longest stars_slash s = true
is_longest stars s = not (starts b'/' s)
is_longest star s = not (starts b'*' s)
is_longest question s = true
is_longest (plain c) s = not (c == b'*') && not (c == b'?')

abbrev pub concat_of : (Token → Bytes) → List Token → Bytes
concat_of f [] = []
concat_of f (t ∷ ts) = f t ++ concat_of f ts

-- Each token is the longest one that can be read at its place.
abbrev pub IsReading : List Token → Type 0
IsReading [] = Unit
IsReading (t ∷ ts) = (is_longest t (concat_of glob_of ts) ≡ true) × IsReading ts

-- What a round of the loop reads and writes.
record IsStep (c : ℕ) (s written left : Bytes) : Type 0 where
  token : Token
  reads : c ∷ s ≡ glob_of token ++ left
  longest : is_longest token left ≡ true
  writes : written ≡ regex_of token

special_meta : (c : ℕ) → (c == b'*') ≡ false → (c == b'?') ≡ false → is_meta c ≡ is_special c
special_meta c h k = ground arith

starred : (c : ℕ) (s : Bytes) → c ≡ b'*' → IsStep c s (star_step s).0 (star_step s).1
unfolding star_step skip_slash
starred c [] e = record { token = star; reads = ap (λ x. x ∷ []) e; longest = refl; writes = refl }
starred c (d ∷ s) e = elim (Bool-cases (d == b'*')) [
  | inr one ↦
      rw (one, star_step)
        (record {
          token = star;
          reads = ap (λ x. x ∷ d ∷ s) e;
          longest = rw one refl;
          writes = refl;
        })
  | inl two ↦ rw (two, star_step) (doubled c d s e ((==_iff d b'*').0 two))
]
  where
    doubled :
        (c d : ℕ) (s : Bytes) → c ≡ b'*' → d ≡ b'*' → IsStep c (d ∷ s) (lit ".*") (skip_slash s)
    doubled c d [] e f = record {
      token = stars;
      reads = ap (λ x. x ∷ d ∷ []) e ∙ ap (λ x. b'*' ∷ x ∷ []) f;
      longest = refl;
      writes = refl;
    }
    doubled c d (x ∷ s) e f = elim (Bool-cases (x == b'/')) [
      | inl slash ↦
          rw (slash, skip_slash)
            (record {
              token = stars_slash;
              reads =
                  ap (λ y. y ∷ d ∷ x ∷ s) e
                  ∙ ap (λ y. b'*' ∷ y ∷ x ∷ s) f
                  ∙ ap (λ y. b'*' ∷ b'*' ∷ y ∷ s) ((==_iff x b'/').0 slash);
              longest = refl;
              writes = refl;
            })
      | inr other ↦
          rw (other, skip_slash)
            (record {
              token = stars;
              reads = ap (λ y. y ∷ d ∷ x ∷ s) e ∙ ap (λ y. b'*' ∷ y ∷ x ∷ s) f;
              longest = rw other refl;
              writes = refl;
            })
    ]

glob_step-IsStep : (c : ℕ) (s : Bytes) → IsStep c s (glob_step c s).0 (glob_step c s).1
unfolding glob_step star_step skip_slash
glob_step-IsStep c s = elim (Bool-cases (c == b'*')) [
  | inl a_star ↦ rw (a_star, glob_step) (starred c s ((==_iff c b'*').0 a_star))
  | inr no_star ↦ elim (Bool-cases (c == b'?')) [
    | inl mark ↦
        rw (no_star, mark, glob_step)
          (record {
            token = question;
            reads = ap (λ x. x ∷ s) ((==_iff c b'?').0 mark);
            longest = refl;
            writes = refl;
          })
    | inr no_mark ↦ elim (Bool-cases (is_special c)) [
      | inl special ↦
          rw (no_star, no_mark, special, glob_step)
            (record {
              token = plain c;
              reads = refl;
              longest = rw (no_star, no_mark) refl;
              writes = rw (special_meta c no_star no_mark, special) refl;
            })
      | inr other ↦
          rw (no_star, no_mark, other, glob_step)
            (record {
              token = plain c;
              reads = refl;
              longest = rw (no_star, no_mark) refl;
              writes = rw (special_meta c no_star no_mark, other) refl;
            })
    ]
  ]
]

-- A reading of the text, and the regular expressions of its tokens.
pub record IsRead (glob written : Bytes) : Type 0 where
  pub tokens : List Token
  pub reads : concat_of glob_of tokens ≡ glob
  pub reading : IsReading tokens
  pub writes : written ≡ concat_of regex_of tokens

glob_loop-IsRead : (f : ℕ) (s : Bytes) → length s ≤ f → IsRead s (glob_loop f s)
unfolding glob_loop
glob_loop-IsRead zero [] h = record { tokens = []; reads = refl; reading = tt; writes = refl }
glob_loop-IsRead (suc f) [] h = record { tokens = []; reads = refl; reading = tt; writes = refl }
glob_loop-IsRead zero (c ∷ s) h = absurd (omega arith)
glob_loop-IsRead (suc f) (c ∷ s) h =
    joined (glob_step-IsStep c s)
      (glob_loop-IsRead f (glob_step c s).1 (omega (arith, h, glob_step-shorter c s)))
  where
    joined :
        {written left more : Bytes}
        → IsStep c s written left
        → IsRead left more
        → IsRead (c ∷ s) (written ++ more)
    joined {written} {left} {more} step rest = record {
      tokens = step.token ∷ rest.tokens;
      reads = ap (λ x. glob_of step.token ++ x) rest.reads ∙ sym step.reads;
      reading = (ap (is_longest step.token) rest.reads ∙ step.longest, rest.reading);
      writes = ap (λ x. x ++ more) step.writes ∙ ap (λ x. regex_of step.token ++ x) rest.writes;
    }

-- Every glob pattern reads from the left as tokens, each the longest one at its place, and its
-- translation is the anchored text of their regular expressions: any text for two stars (with a slash
-- behind them or not), any text without a slash for one star, one byte other than a slash for a
-- question mark, and each other byte itself, behind a backslash where regexp.QuoteMeta puts one.
pub glob_to_regex-IsRead :
    (glob : Bytes)
    → (body : Bytes) × (glob_to_regex glob ≡ lit "^" ++ (body ++ lit "$")) × IsRead glob body
unfolding glob_to_regex
glob_to_regex-IsRead glob =
    (glob_loop (length glob) glob, refl, glob_loop-IsRead (length glob) glob (omega arith))
