-- ===== src/Backups/Quoting.antt =====
-- daemon/workers/_shell_helpers.py: what a POSIX shell reads of the command line of `run_in_repo`.
use milvus_onprem.Base.{
  ℕ, Text, Bool, true, false, not, ◌&&◌, List, [], ◌∷◌, ◌++◌, ◌≡◌, ◌==◌, sym, refl, subst, ap,
  has_char, join, inl, inr, Bool-cases, arith,
}
use milvus_onprem.Host.Shell.{is_safe, all_safe, escape_quotes, quote}
use milvus_onprem.Backups.Running.{quoted, command}

-- The characters that mean something to the shell outside quotes, and those that do within double quotes.
abbrev special : Text
special =
    9 ∷ 10 ∷ 32 ∷ 33 ∷ 34 ∷ 35 ∷ 36 ∷ 38 ∷ 39 ∷ 40 ∷ 41 ∷ 42 ∷ 59 ∷ 60 ∷ 62 ∷ 63 ∷ 91 ∷ 92 ∷ 93 ∷ 94
    ∷ 96 ∷ 123 ∷ 124 ∷ 125 ∷ 126 ∷ []

abbrev active : Text
active = 33 ∷ 34 ∷ 36 ∷ 92 ∷ 96 ∷ []

pub data Quoting : Type 0 where
  bare single double : Quoting

-- What a word stands for, read on from within quotes or from outside them.
pub data Reads : Quoting → Text → Text → Type 0 where
  ended : Reads bare [] []
  plain :
      {c : ℕ} {s v : Text}
      → has_char c special ≡ false
      → Reads bare s v
      → Reads bare (c ∷ s) (c ∷ v)
  open_single : {s v : Text} → Reads single s v → Reads bare (39 ∷ s) v
  in_single :
      {c : ℕ} {s v : Text} → (c == 39) ≡ false → Reads single s v → Reads single (c ∷ s) (c ∷ v)
  close_single : {s v : Text} → Reads bare s v → Reads single (39 ∷ s) v
  open_double : {s v : Text} → Reads double s v → Reads bare (34 ∷ s) v
  in_double :
      {c : ℕ} {s v : Text}
      → has_char c active ≡ false
      → Reads double s v
      → Reads double (c ∷ s) (c ∷ v)
  close_double : {s v : Text} → Reads bare s v → Reads double (34 ∷ s) v

-- A word is not empty as it is written.
pub data IsWord : Text → Text → Type 0 where
  word : {c : ℕ} {s v : Text} → Reads bare (c ∷ s) v → IsWord (c ∷ s) v

-- The words of a command line, with what they stand for.
pub data ReadsAs : Text → List Text → Type 0 where
  no_words : ReadsAs [] []
  last_word : {s v : Text} → IsWord s v → ReadsAs s (v ∷ [])
  next_word :
      {s v t : Text} {vs : List Text} → IsWord s v → ReadsAs t vs → ReadsAs (s ++ (32 ∷ t)) (v ∷ vs)

-- Whether no character of a text is bare for `shlex.quote`.
none_safe : Text → Bool
unfolding is_safe
none_safe [] = true
none_safe (x ∷ xs) = not (is_safe x) && none_safe xs

safe-special : (c : ℕ) (xs : Text) → none_safe xs ≡ true → is_safe c ≡ true → has_char c xs ≡ false
unfolding none_safe has_char
safe-special c [] h safe = refl
safe-special c (x ∷ xs) h safe = elim (Bool-cases (x == c)) [
  | inl e ↦ let p : x ≡ c = ground (arith, e) in absurd (ground (arith, h, safe, ap is_safe p))
  | inr e ↦ ground (arith, e, safe-special c xs (ground (arith, h)) safe)
]

all_safe-Reads : (s : Text) → all_safe s ≡ true → Reads bare s s
unfolding all_safe
all_safe-Reads [] h = ended
all_safe-Reads (c ∷ s) h =
    plain (safe-special c special (unfold none_safe is_safe has_char in refl) (ground (arith, h)))
      (all_safe-Reads s (ground (arith, h)))

escape_quotes-Reads : (s : Text) → Reads single (escape_quotes s ++ (39 ∷ [])) s
unfolding escape_quotes
escape_quotes-Reads [] = close_single ended
escape_quotes-Reads (c ∷ s) = elim (Bool-cases (c == 39)) [
  | inl e ↦
      let p : c ≡ 39 = ground (arith, e) in
      subst (λ d. Reads single (escape_quotes (d ∷ s) ++ (39 ∷ [])) (d ∷ s)) (sym p)
        (close_single (
          open_double (
            in_double {c = 39} (unfold has_char in refl)
              (close_double (open_single (escape_quotes-Reads s))))))
  | inr e ↦ rw e (in_single e (escape_quotes-Reads s))
]

pub quote-IsWord : (a : Text) → IsWord (quote a) a
unfolding quote
quote-IsWord [] = word (open_single (close_single ended))
quote-IsWord (c ∷ s) = elim (Bool-cases (all_safe (c ∷ s))) [
  | inl e ↦ rw e (word (all_safe-Reads (c ∷ s) e))
  | inr e ↦ rw e (word (open_single (escape_quotes-Reads (c ∷ s))))
]

-- Every argument of a command that `run_in_repo` runs is read by the shell as the text that it is,
-- whatever characters it has, and there are no other words on the line.
pub command-ReadsAs : (args : List Text) → ReadsAs (command args) args
unfolding command quoted join
command-ReadsAs [] = no_words
command-ReadsAs (a ∷ []) = last_word (quote-IsWord a)
command-ReadsAs (a ∷ b ∷ args) = next_word (quote-IsWord a) (command-ReadsAs (b ∷ args))
