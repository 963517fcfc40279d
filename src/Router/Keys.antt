-- ===== src/Router/Keys.antt =====
-- The keys of the exact rules (buildMatchKey of internal/router/router.go): a host without a slash
-- and a path that begins with one are told apart in the joined text.
use the_redirector.Base.{◌≡◌, refl, ◌≢◌, [], ◌∷◌, ◌++◌, Bytes, lit, All, arith}
use the_redirector.Router.{build_match_key}

abbrev pub NoSlash : Bytes → Type 0
NoSlash = All (λ c. c ≢ b'/')

abbrev pub StartsSlash : Bytes → Type 0
StartsSlash [] = ⊥
StartsSlash (c ∷ s) = c ≡ b'/'

join_injective :
    (h k p q : Bytes)
    → NoSlash h
    → NoSlash k
    → StartsSlash p
    → StartsSlash q
    → h ++ (lit ":" ++ p) ≡ k ++ (lit ":" ++ q)
    → (h ≡ k) × (p ≡ q)
join_injective [] [] p q nh nk sp sq e = ground arith
join_injective [] (c ∷ []) (a ∷ p) q nh nk sp sq e = absurd (ground arith)
join_injective [] (c ∷ d ∷ k) (a ∷ p) q nh nk sp sq e = absurd (ground arith)
join_injective [] (c ∷ k) [] q nh nk sp sq e = absurd sp
join_injective (c ∷ []) [] p (b ∷ q) nh nk sp sq e = absurd (ground arith)
join_injective (c ∷ d ∷ h) [] p (b ∷ q) nh nk sp sq e = absurd (ground arith)
join_injective (c ∷ h) [] p [] nh nk sp sq e = absurd sq
join_injective (c ∷ h) (d ∷ k) p q nh nk sp sq e =
    ground (arith, join_injective h k p q nh.1 nk.1 sp sq)

-- Hosts without a slash, with paths that begin with one, have the same key only if they are the
-- same host and the same path; the empty host stands for any host.
pub build_match_key_injective :
    (h k p q : Bytes)
    → NoSlash h
    → NoSlash k
    → StartsSlash p
    → StartsSlash q
    → build_match_key h p ≡ build_match_key k q
    → (h ≡ k) × (p ≡ q)
unfolding build_match_key
build_match_key_injective [] [] p q nh nk sp sq e = (refl, e)
build_match_key_injective [] (c ∷ k) [] q nh nk sp sq e = absurd sp
build_match_key_injective [] (c ∷ k) (a ∷ p) q nh nk sp sq e = absurd (ground arith)
build_match_key_injective (c ∷ h) [] p [] nh nk sp sq e = absurd sq
build_match_key_injective (c ∷ h) [] p (b ∷ q) nh nk sp sq e = absurd (ground arith)
build_match_key_injective (c ∷ h) (d ∷ k) p q nh nk sp sq e =
    join_injective (c ∷ h) (d ∷ k) p q nh nk sp sq e
