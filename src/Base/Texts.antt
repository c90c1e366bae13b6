-- ===== src/Base/Texts.antt =====
-- Python texts as lists of code points, and the text functions that the daemon uses.
use Prim.Native.Nat.{ℕ, zero, suc, ◌+◌, ◌-◌, ◌*◌, ◌/◌, ◌%◌, ◌<◌}
use Prim.Native.Char.{code}
use Prim.Native.String.{String}
use mathlib.Core.Path.{◌≡◌, refl}
use mathlib.Core.Logic.{inl, inr, ◌↔◌}
use mathlib.Core.Bool.{Bool, true, false, ◌&&◌, ◌||◌}
use mathlib.Core.Option.{Option, none, some}
use mathlib.Core.List.{List, [], ◌∷◌, ◌++◌}
use native.Mathlib.Omega.{arith}
use milvus_onprem.Base.Tests.{ltb, leb, ◌==◌, Bool-cases, if◌then◌else◌}

abbrev pub Text : Type 0
Text = List ℕ

-- A literal.
abbrev pub str : String → Text
str String.[] = []
str (String.◌∷◌ c s) = code c ∷ str s

-- `s == t`
unfoldable pub same : Text → Text → Bool
same [] [] = true
same (x ∷ xs) (y ∷ ys) = x == y && same xs ys
same _ _ = false

same→eq : (s t : Text) → same s t ≡ true → s ≡ t
unfolding same
same→eq [] [] h = refl
same→eq (x ∷ xs) (y ∷ ys) h = ground (arith, same→eq xs ys)
same→eq [] (y ∷ ys) h = ground arith
same→eq (x ∷ xs) [] h = ground arith

pub same_refl : (s : Text) → same s s ≡ true
unfolding same
same_refl [] = refl
same_refl (x ∷ xs) = ground (arith, same_refl xs)

pub same_iff : (s t : Text) → (same s t ≡ true) ↔ (s ≡ t)
same_iff s t = (same→eq s t, λ e. rw e (same_refl t))

-- `t in texts`
unfoldable pub member : Text → List Text → Bool
member t [] = false
member t (x ∷ xs) = same x t || member t xs

-- `s.startswith(p)` with the rest: what `s.removeprefix(p)` leaves.
unfoldable pub strip_prefix : Text → Text → Option Text
strip_prefix [] s = some s
strip_prefix (p ∷ ps) [] = none
strip_prefix (p ∷ ps) (c ∷ s) = let rest = strip_prefix ps s in if p == c then rest else none

unfoldable pub starts_with : Text → Text → Bool
unfolding strip_prefix
starts_with p s = elim (strip_prefix p s) [ none ↦ false | some _ ↦ true ]

unfoldable pub remove_prefix : Text → Text → Text
unfolding strip_prefix
remove_prefix p s = elim (strip_prefix p s) [ none ↦ s | some r ↦ r ]

pub strip_prefix-append : (p s : Text) → strip_prefix p (p ++ s) ≡ some s
unfolding strip_prefix
strip_prefix-append [] s = refl
strip_prefix-append (c ∷ p) s = ground (arith, strip_prefix-append p s)

pub strip_prefix-eq : (p s r : Text) → strip_prefix p s ≡ some r → s ≡ p ++ r
unfolding strip_prefix
strip_prefix-eq [] s r h = ground arith
strip_prefix-eq (c ∷ p) [] r h = ground arith
strip_prefix-eq (c ∷ p) (d ∷ s) r h = ground (arith, strip_prefix-eq p s r)

pub remove_prefix-append : (p s : Text) → remove_prefix p (p ++ s) ≡ s
unfolding remove_prefix
remove_prefix-append p s = rw (strip_prefix-append p s, remove_prefix)

pub starts_with-append : (p s : Text) → starts_with p (p ++ s) ≡ true
unfolding starts_with
starts_with-append p s = rw (strip_prefix-append p s, starts_with)

-- `c in s`
unfoldable pub has_char : ℕ → Text → Bool
has_char c [] = false
has_char c (d ∷ s) = d == c || has_char c s

-- What `$` of a regular expression lets stand behind the match: one final newline.
unfoldable pub dollar : Text → Text
dollar [] = []
dollar (c ∷ []) = if c == 10 then [] else c ∷ []
dollar (c ∷ d ∷ s) = c ∷ dollar (d ∷ s)

unfoldable pub is_digit : ℕ → Bool
is_digit c = leb 48 c && leb c 57

-- The value of a run of digits after those that made `a`.
unfoldable pub digits : ℕ → Text → Option ℕ
unfolding is_digit
digits a [] = some a
digits a (c ∷ s) = let rest = digits (a * 10 + (c - 48)) s in if is_digit c then rest else none

-- `int(s)` of a match of `\d+`.
unfoldable pub int_of : Text → Option ℕ
unfolding digits
int_of [] = none
int_of (c ∷ s) = digits 0 (c ∷ s)

-- `str(n)`
decimal_go : ℕ → ℕ → Text → Text
decimal_go zero n t = t
decimal_go (suc f) n t =
    let more = decimal_go f (n / 10) ((48 + n % 10) ∷ t) in if ltb n 10 then (48 + n) ∷ t else more

unfoldable pub decimal : ℕ → Text
unfolding decimal_go
decimal n = decimal_go (suc n) n []

digits-decimal_go : (f n : ℕ) (t : Text) → n < f → digits 0 (decimal_go f n t) ≡ digits n t
unfolding decimal_go digits
digits-decimal_go zero n t h = elim h [ ]
digits-decimal_go (suc f) n t h = ground (arith, digits-decimal_go f (n / 10) ((48 + n % 10) ∷ t))

pub digits-decimal : (n : ℕ) → digits 0 (decimal n) ≡ some n
unfolding decimal
digits-decimal n = rw (digits-decimal_go (suc n) n [] (omega arith)) (unfold digits in refl)

decimal_go-cons : (f n c : ℕ) (t : Text) → (d : ℕ) × (r : Text) × (decimal_go f n (c ∷ t) ≡ d ∷ r)
unfolding decimal_go
decimal_go-cons zero n c t = (c, t, refl)
decimal_go-cons (suc f) n c t = elim (Bool-cases (ltb n 10)) [
  | inl small ↦ (48 + n, c ∷ t, rw small)
  | inr big ↦ rw big (decimal_go-cons f (n / 10) (48 + n % 10) (c ∷ t))
]

-- A printed number is not empty.
pub decimal-cons : (n : ℕ) → (d : ℕ) × (r : Text) × (decimal n ≡ d ∷ r)
unfolding decimal decimal_go
decimal-cons n = elim (Bool-cases (ltb n 10)) [
  | inl small ↦ (48 + n, [], rw small)
  | inr big ↦ rw big (decimal_go-cons n (n / 10) (48 + n % 10) [])
]

pub int_of-decimal : (n : ℕ) → int_of (decimal n) ≡ some n
unfolding int_of
int_of-decimal n = let (d, r, e) = decimal-cons n in rw e (rw e at (digits-decimal n))

pub starts_with-eq : (p s : Text) → starts_with p s ≡ true → s ≡ p ++ remove_prefix p s
unfolding remove_prefix
starts_with-eq p s h = go (strip_prefix p s) refl
  where
    go : (o : Option Text) → strip_prefix p s ≡ o → s ≡ p ++ remove_prefix p s
    go none e = absurd (unfold starts_with in ground (arith, e, h))
    go (some r) e =
        let f : remove_prefix p s ≡ r = rw (e, remove_prefix) refl in rw f (strip_prefix-eq p s r e)

pub same-append : (p s t : Text) → same (p ++ s) (p ++ t) ≡ same s t
unfolding same
same-append [] s t = refl
same-append (c ∷ p) s t = ground (arith, same-append p s t)
