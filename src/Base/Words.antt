-- ===== src/Base/Words.antt =====
-- Splitting, stripping and joining texts, and the order of texts.
use Prim.Native.Nat.{ℕ, ◌+◌, ◌-◌, ◌*◌, ◌≤◌}
use mathlib.Core.Path.{◌≡◌, refl, ap, sym, ◌∙◌}
use mathlib.Core.Logic.{inl, inr}
use mathlib.Core.Bool.{Bool, true, false, ◌&&◌, ◌||◌}
use mathlib.Core.Option.{Option, none, some}
use mathlib.Core.List.{List, [], ◌∷◌, ◌++◌, append_assoc, append-nil}
use native.Mathlib.Omega.{arith}
use milvus_onprem.Base.Tests.{ltb, leb, ◌==◌, if◌then◌else◌, Bool-cases}
use milvus_onprem.Base.Lists.{length}
use milvus_onprem.Base.Texts.{Text, has_char, digits, dollar, starts_with}

-- `s.split(c)` for one character, with the piece read so far.
split_go : ℕ → Text → Text → List Text
split_go c piece [] = piece ∷ []
split_go c piece (d ∷ s) =
    let cut = piece ∷ split_go c [] s in
    let more = split_go c (piece ++ (d ∷ [])) s in if d == c then cut else more

unfoldable pub split_on : ℕ → Text → List Text
unfolding split_go
split_on c s = split_go c [] s

-- `sep.join(parts)`
unfoldable pub join : Text → List Text → Text
join sep [] = []
join sep (part ∷ []) = part
join sep (part ∷ next ∷ parts) = part ++ (sep ++ join sep (next ∷ parts))

-- `s <= t`, by code points.
unfoldable pub text_leb : Text → Text → Bool
text_leb [] t = true
text_leb (c ∷ s) [] = false
text_leb (c ∷ s) (d ∷ t) = ltb c d || (c == d && text_leb s t)

pub text_leb_total : (s t : Text) → text_leb s t ≡ false → text_leb t s ≡ true
unfolding text_leb
text_leb_total [] t h = ground arith
text_leb_total (c ∷ s) [] h = refl
text_leb_total (c ∷ s) (d ∷ t) h = ground (arith, text_leb_total s t)

pub text_leb_trans :
    (s t u : Text) → text_leb s t ≡ true → text_leb t u ≡ true → text_leb s u ≡ true
unfolding text_leb
text_leb_trans [] t u h k = refl
text_leb_trans (c ∷ s) [] u h k = ground arith
text_leb_trans (c ∷ s) (d ∷ t) [] h k = ground arith
text_leb_trans (c ∷ s) (d ∷ t) (e ∷ u) h k = ground (arith, text_leb_trans s t u)

-- A piece with no separator is read whole.
split_go-append :
    (c : ℕ) (piece p s : Text)
    → has_char c p ≡ false
    → split_go c piece (p ++ (c ∷ s)) ≡ (piece ++ p) ∷ split_go c [] s
unfolding split_go has_char
split_go-append c piece [] s h = ground (arith, append-nil piece)
split_go-append c piece (d ∷ p) s h =
    ground (arith, split_go-append c (piece ++ (d ∷ [])) p s, append_assoc piece (d ∷ []) p)

split_go-end :
    (c : ℕ) (piece p : Text) → has_char c p ≡ false → split_go c piece p ≡ (piece ++ p) ∷ []
unfolding split_go has_char
split_go-end c piece [] h = ground (arith, append-nil piece)
split_go-end c piece (d ∷ p) h =
    ground (arith, split_go-end c (piece ++ (d ∷ [])) p, append_assoc piece (d ∷ []) p)

pub split_on-append :
    (c : ℕ) (p s : Text) → has_char c p ≡ false → split_on c (p ++ (c ∷ s)) ≡ p ∷ split_on c s
unfolding split_on
split_on-append c p s h = split_go-append c [] p s h

pub split_on-end : (c : ℕ) (p : Text) → has_char c p ≡ false → split_on c p ≡ p ∷ []
unfolding split_on
split_on-end c p h = split_go-end c [] p h

-- Digits end in no newline.
pub dollar-digits : (a n : ℕ) (s : Text) → digits a s ≡ some n → dollar s ≡ s
unfolding digits dollar
dollar-digits a n [] h = refl
dollar-digits a n (c ∷ []) h = ground arith
dollar-digits a n (c ∷ d ∷ s) h = ground (arith, dollar-digits (a * 10 + (c - 48)) n (d ∷ s))

-- The characters at which `splitlines` ends a line.
unfoldable pub is_break : ℕ → Bool
is_break c = (leb 10 c && leb c 13) || (leb 28 c && leb c 30) || c == 133 || c == 8232 || c == 8233

-- The characters that `strip` takes off.
unfoldable pub is_space : ℕ → Bool
is_space c =
    (leb 9 c && leb c 13)
    || (leb 28 c && leb c 32)
    || c == 133
    || c == 160
    || c == 5760
    || (leb 8192 c && leb c 8202)
    || c == 8232
    || c == 8233
    || c == 8239
    || c == 8287
    || c == 12288

unfoldable pub lstrip : (ℕ → Bool) → Text → Text
lstrip p [] = []
lstrip p (c ∷ s) = let rest = lstrip p s in if p c then rest else c ∷ s

abbrev keep_end : (ℕ → Bool) → ℕ → Text → Text
keep_end p c [] = if p c then [] else c ∷ []
keep_end p c (d ∷ t) = c ∷ d ∷ t

unfoldable pub rstrip : (ℕ → Bool) → Text → Text
rstrip p [] = []
rstrip p (c ∷ s) = keep_end p c (rstrip p s)

unfoldable pub strip_by : (ℕ → Bool) → Text → Text
unfolding lstrip rstrip
strip_by p s = rstrip p (lstrip p s)

-- `s.strip()`
unfoldable pub strip : Text → Text
unfolding strip_by is_space
strip = strip_by is_space

-- `s.strip('"').strip("'")`
unfoldable pub unquote : Text → Text
unfolding strip_by
unquote s = strip_by (λ c. c == 39) (strip_by (λ c. c == 34) s)

-- `s.partition(c)` where `c in s`.
unfoldable pub cut : ℕ → Text → Option (Text × Text)
cut c [] = none
cut c (d ∷ s) =
    if d == c then some ([], s) else elim (cut c s) [ none ↦ none | some (a, b) ↦ some (d ∷ a, b) ]

lines_go : (ℕ → Bool) → Text → Text → List Text
lines_go p [] [] = []
lines_go p (b ∷ piece) [] = (b ∷ piece) ∷ []
lines_go p piece (c ∷ s) =
    let line = piece ∷ lines_go p [] s in
    let more = lines_go p (piece ++ (c ∷ [])) s in if p c then line else more

-- `s.splitlines()`, after the newline translation of a file that is read as text.
unfoldable pub splitlines : Text → List Text
unfolding lines_go is_break
splitlines = lines_go is_break []

pub cut-append : (c : ℕ) (k v : Text) → has_char c k ≡ false → cut c (k ++ (c ∷ v)) ≡ some (k, v)
unfolding cut has_char
cut-append c [] v h = ground arith
cut-append c (d ∷ k) v h = ground (arith, cut-append c k v)

rstrip_lem : (p : ℕ → Bool) (c : ℕ) (s : Text) → rstrip p (c ∷ s) ≡ keep_end p c (rstrip p s)
unfolding rstrip
rstrip_lem p c s = refl

-- What is left of the end of a text keeps all that stands before it.
pub rstrip-under :
    (p : ℕ → Bool) (s : Text) (v : Text) (d : ℕ) (t : Text)
    → rstrip p v ≡ d ∷ t
    → rstrip p (s ++ v) ≡ s ++ (d ∷ t)
rstrip-under p [] v d t h = h
rstrip-under p (e ∷ []) v d t h = rstrip_lem p e v ∙ ap (keep_end p e) h
rstrip-under p (e ∷ f ∷ s) v d t h =
    rstrip_lem p e (f ∷ (s ++ v)) ∙ ap (keep_end p e) (rstrip-under p (f ∷ s) v d t h)

pub rstrip-append :
    (p : ℕ → Bool) (s : Text) (c : ℕ) (v : Text)
    → rstrip p (c ∷ v) ≡ c ∷ v
    → rstrip p (s ++ (c ∷ v)) ≡ s ++ (c ∷ v)
rstrip-append p s c v h = rstrip-under p s (c ∷ v) c v h

pub rstrip-cons :
    (p : ℕ → Bool) (c : ℕ) (v : Text) → p c ≡ false → rstrip p v ≡ v → rstrip p (c ∷ v) ≡ c ∷ v
rstrip-cons p c [] h e = rstrip_lem p c [] ∙ ap (keep_end p c) e ∙ rw h
rstrip-cons p c (d ∷ v) h e = rstrip_lem p c (d ∷ v) ∙ ap (keep_end p c) e

length-lstrip : (p : ℕ → Bool) (s : Text) → length (lstrip p s) ≤ length s
unfolding lstrip
length-lstrip p [] = omega arith
length-lstrip p (c ∷ s) = ground (arith, length-lstrip p s)

lstrip-head : (p : ℕ → Bool) (c : ℕ) (s : Text) → lstrip p (c ∷ s) ≡ c ∷ s → p c ≡ false
unfolding lstrip
lstrip-head p c s h = ground (arith, length-lstrip p s, ap length h)

pub lstrip-append :
    (p : ℕ → Bool) (c : ℕ) (s t : Text)
    → lstrip p (c ∷ s) ≡ c ∷ s
    → lstrip p (c ∷ (s ++ t)) ≡ c ∷ (s ++ t)
unfolding lstrip
lstrip-append p c s t h = rw (lstrip-head p c s h)

-- No line break inside.
abbrev pub IsLine : Text → Type 0
IsLine [] = Unit
IsLine (c ∷ s) = (is_break c ≡ false) × IsLine s

lines_go-append :
    (piece s t : Text)
    → IsLine s
    → lines_go is_break piece (s ++ (10 ∷ t)) ≡ (piece ++ s) ∷ lines_go is_break [] t
unfolding lines_go
lines_go-append [] [] t h = unfold is_break in refl
lines_go-append (b ∷ piece) [] t h =
    unfold is_break in ap (λ p. (b ∷ p) ∷ lines_go is_break [] t) (sym (append-nil piece))
lines_go-append [] (c ∷ s) t h = rw (h.0) (lines_go-append (c ∷ []) s t h.1)
lines_go-append (b ∷ piece) (c ∷ s) t h = rw h.0 (
    lines_go-append (b ∷ (piece ++ (c ∷ []))) s t h.1
    ∙ ap (λ p. (b ∷ p) ∷ lines_go is_break [] t) (append_assoc piece (c ∷ []) s))

splitlines-append : (s t : Text) → IsLine s → splitlines (s ++ (10 ∷ t)) ≡ s ∷ splitlines t
unfolding splitlines
splitlines-append s t h = lines_go-append [] s t h

abbrev pub AllLines : List Text → Type 0
AllLines [] = Unit
AllLines (l ∷ ls) = IsLine l × AllLines ls

-- Lines that were joined, with a last newline, are split again.
pub splitlines-join :
    (ls : List Text) → AllLines ls → splitlines (join (10 ∷ []) (ls ++ [] ∷ [])) ≡ ls
unfolding join
splitlines-join [] h = unfold splitlines in refl
splitlines-join (l ∷ []) h = splitlines-append l [] h.0 ∙ unfold splitlines in refl
splitlines-join (l ∷ m ∷ ls) h =
    splitlines-append l (join (10 ∷ []) ((m ∷ ls) ++ [] ∷ [])) h.0
    ∙ ap (λ r. l ∷ r) (splitlines-join (m ∷ ls) h.1)

pub rstrip-head :
    (p : ℕ → Bool) (c : ℕ) (s : Text) → p c ≡ false → (t : Text) × (rstrip p (c ∷ s) ≡ c ∷ t)
rstrip-head p c s h = go (rstrip p s) refl
  where
    go : (r : Text) → rstrip p s ≡ r → (t : Text) × (rstrip p (c ∷ s) ≡ c ∷ t)
    go [] e = ([], rstrip_lem p c s ∙ ap (keep_end p c) e ∙ rw h)
    go (d ∷ r) e = (d ∷ r, rstrip_lem p c s ∙ ap (keep_end p c) e)

-- `IsLine` as a test.
unfoldable pub is_line : Text → Bool
unfolding is_break
is_line [] = true
is_line (c ∷ s) = elim (is_break c) [ true ↦ false | false ↦ is_line s ]

pub IsLine-of_is_line : (s : Text) → is_line s ≡ true → IsLine s
unfolding is_line
IsLine-of_is_line [] h = tt
IsLine-of_is_line (c ∷ s) h = elim (Bool-cases (is_break c)) [
  | inl e ↦ absurd (ground arith)
  | inr e ↦ (e, IsLine-of_is_line s (ground arith))
]

-- `t in s`
unfoldable pub has_infix : Text → Text → Bool
unfolding starts_with
has_infix t [] = starts_with t []
has_infix t (c ∷ s) = starts_with t (c ∷ s) || has_infix t s

-- `str.lower` on ASCII letters.
unfoldable pub lower : Text → Text
lower [] = []
lower (c ∷ s) = (if leb 65 c && leb c 90 then c + 32 else c) ∷ lower s
