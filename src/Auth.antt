-- ===== src/Auth.antt =====
-- daemon/auth.py: the check of the bearer token.
use milvus_onprem.Base.{
  Text, str, cut, strip, lower, same, same_iff, starts_with, Bool, true, not, ◌&&◌, Option, none,
  some, [], ◌∷◌, ltb, if◌then◌else◌, ◌≡◌, refl, arith, inl, inr, Bool-cases, false, ℕ, ◌∷◌, ◌++◌,
  ap, sym, ◌∙◌, has_char, cut-append,
}

-- How `require_token` ends: it returns, raises `HTTPException` with 401 or 403, or `compare_digest`
-- raises `TypeError`.
pub data Verdict : Type 0 where
  passed unauthorized forbidden type_error : Verdict

-- `s.isascii()`, which `compare_digest` wants of both texts.
unfoldable pub is_ascii : Text → Bool
is_ascii [] = true
is_ascii (c ∷ s) = ltb c 128 && is_ascii s

-- `secrets.compare_digest(presented, expected)`
unfoldable pub compare_tokens : Text → Text → Verdict
unfolding is_ascii same
compare_tokens presented expected =
    if not (is_ascii presented && is_ascii expected)
    then type_error
    else if same presented expected
    then passed
    else forbidden

-- `authorization.split(" ", 1)[1].strip()`
unfoldable pub presented_token : Text → Text
unfolding cut strip
presented_token authorization = elim (cut b' ' authorization) [
  | none ↦ []
  | some (scheme, rest) ↦ strip rest
]

-- `require_token`
unfoldable pub require_token : Option Text → Text → Verdict
unfolding starts_with lower compare_tokens presented_token
require_token none expected = unauthorized
require_token (some authorization) expected =
    if not (starts_with (str "bearer ") (lower authorization))
    then unauthorized
    else compare_tokens (presented_token authorization) expected

compare_tokens-passed :
    (presented expected : Text) → compare_tokens presented expected ≡ passed → presented ≡ expected
unfolding compare_tokens
compare_tokens-passed presented expected h = ground (arith, h, same_iff presented expected)

cons_eq : (a b : ℕ) (s t : Text) → a ≡ b → s ≡ t → ◌≡◌ {A = Text} (a ∷ s) (b ∷ t)
cons_eq a b s t e f = cc

-- The scheme and what follows its space, in a header that begins with a scheme in any case.
scheme_of :
    (p authorization : Text)
    → starts_with (p ++ (b' ' ∷ [])) (lower authorization) ≡ true
    → (scheme : Text) × ((rest : Text) × ((authorization ≡ scheme ++ (b' ' ∷ rest))
          × (lower scheme ≡ p)))
unfolding starts_with lower
scheme_of [] [] h = absurd (ground (arith, h))
scheme_of [] (c ∷ rest) h = ([], (rest, (ap (λ d. d ∷ rest) (ground (arith, h)), refl)))
scheme_of (d ∷ p) [] h = absurd (ground (arith, h))
scheme_of (d ∷ p) (c ∷ authorization) h =
    let (scheme, (rest, (e, f))) = scheme_of p authorization (ground (arith, h)) in
    (c ∷ scheme, (rest, (ap (λ l. c ∷ l) e, cons_eq _ d (lower scheme) p (ground (arith, h)) f)))

lower-space : (s : Text) → has_char b' ' s ≡ has_char b' ' (lower s)
unfolding lower has_char
lower-space [] = refl
lower-space (c ∷ s) = ground (arith, lower-space s)

-- A request passes only with a header that is `bearer`, in any case, a space, and the expected token,
-- but for spaces before and after the token.
pub require_token-passed :
    (header : Option Text) (expected : Text)
    → require_token header expected ≡ passed
    → (scheme : Text) × ((rest : Text) × ((header ≡ some (scheme ++ (b' ' ∷ rest)))
          × ((lower scheme ≡ str "bearer") × (strip rest ≡ expected))))
unfolding require_token
require_token-passed none expected h = absurd (ground (arith, h))
require_token-passed (some authorization) expected h =
    elim (Bool-cases (starts_with (str "bearer ") (lower authorization))) [
      | inr e ↦ absurd (ground (arith, e, h))
      | inl e ↦
          let compared : compare_tokens (presented_token authorization) expected ≡ passed =
            rw e at h in
          let (scheme, (rest, (whole, bearer))) = scheme_of (str "bearer") authorization e in
          let no_space : has_char b' ' scheme ≡ false =
            lower-space scheme ∙ ap (has_char b' ') bearer ∙ (unfold has_char in refl) in
          (
            scheme,
            (
              rest,
              (
                ap some whole,
                (
                  bearer,
                  sym (presented scheme rest no_space)
                      ∙ ap presented_token (sym whole)
                      ∙ compare_tokens-passed (presented_token authorization) expected compared,
                ),
              ),
            ),
          )
    ]
  where
    presented :
        (scheme rest : Text)
        → has_char b' ' scheme ≡ false
        → presented_token (scheme ++ (b' ' ∷ rest)) ≡ strip rest
    presented scheme rest no_space = rw (presented_token, cut-append b' ' scheme rest no_space) refl
