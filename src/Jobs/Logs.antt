-- ===== src/Jobs/Logs.antt =====
-- daemon/jobs.py: the log tail that a job keeps.
use milvus_onprem.Base.{
  ℕ, zero, suc, ◌+◌, ◌-◌, ◌≤◌, Text, false, List, [], ◌∷◌, ◌++◌, map, length, drop, length-append,
  length-drop, ltb, Bool-cases, inl, inr, ◌≡◌, refl, ap, sym, ◌∙◌, arith, str, All, All-append,
  All-drop, take, length-take, rstrip, ◌==◌,
}
use milvus_onprem.Jobs.Job.{cap_line, log_line_cap_chars, log_writer, write_lines, log_tail_lines}

-- `xs[-n:]` on a list.
abbrev pub last : {A : Type 0} → ℕ → List A → List A
last n xs = drop (length xs - n) xs

module _ {A : Type 0} where
  drop-append : (n : ℕ) (xs ys : List A) → n ≤ length xs → drop n (xs ++ ys) ≡ drop n xs ++ ys
  drop-append zero xs ys h = refl
  drop-append (suc n) [] ys h = absurd (omega (arith, h))
  drop-append (suc n) (x ∷ xs) ys h = drop-append n xs ys (omega (arith, h))

  drop-nil : (n : ℕ) → drop {A = A} n [] ≡ []
  drop-nil zero = refl
  drop-nil (suc n) = refl

  append-nil : (xs : List A) → xs ++ [] ≡ xs
  append-nil [] = refl
  append-nil (x ∷ xs) = ap (λ l. x ∷ l) (append-nil xs)

  drop-drop : (m n : ℕ) (xs : List A) → drop m (drop n xs) ≡ drop (n + m) xs
  drop-drop m zero xs = ap (λ k. drop k xs) (omega arith)
  drop-drop m (suc n) [] = drop-nil m ∙ sym (drop-nil (suc n + m))
  drop-drop m (suc n) (x ∷ xs) = drop-drop m n xs ∙ ap (λ k. drop k (x ∷ xs)) reordered
    where
      reordered : suc (n + m) ≡ suc n + m
      reordered = omega arith

  append_assoc : (xs ys zs : List A) → (xs ++ ys) ++ zs ≡ xs ++ (ys ++ zs)
  append_assoc [] ys zs = refl
  append_assoc (x ∷ xs) ys zs = ap (λ l. x ∷ l) (append_assoc xs ys zs)

  -- Cutting to the last `n` before more is appended makes no difference.
  last-last : (n : ℕ) (xs ys : List A) → last n (last n xs ++ ys) ≡ last n (xs ++ ys)
  last-last n xs ys =
      ap (last n) (sym (drop-append (length xs - n) xs ys (omega arith)))
      ∙ drop-drop _ (length xs - n) (xs ++ ys)
      ∙ ap (λ m. drop m (xs ++ ys))
          (omega (arith, length-drop (length xs - n) (xs ++ ys), length-append xs ys))

log_writer-last :
    (line : Text) (logs : List Text)
    → log_writer line logs ≡ last log_tail_lines (logs ++ cap_line line ∷ [])
unfolding log_writer
log_writer-last line logs = elim (Bool-cases (ltb log_tail_lines (length longer))) [
  | inl e ↦ rw e refl
  | inr e ↦ rw e (ap (λ n. drop n longer) (none_dropped e))
]
  where
    longer : List Text
    longer = logs ++ cap_line line ∷ []

    none_dropped : ltb log_tail_lines (length longer) ≡ false → 0 ≡ length longer - log_tail_lines
    none_dropped e = ground (arith, e)

pub write_lines-last :
    (lines logs : List Text)
    → length logs ≤ log_tail_lines
    → write_lines lines logs ≡ last log_tail_lines (logs ++ map cap_line lines)
unfolding write_lines
write_lines-last [] logs h = sym (append-nil logs) ∙ ap (λ n. drop n (logs ++ [])) none_dropped
  where
    none_dropped : 0 ≡ length (logs ++ []) - log_tail_lines
    none_dropped = omega (arith, h, ap length (append-nil logs))
write_lines-last (line ∷ lines) logs h =
    write_lines-last lines (log_writer line logs) short
    ∙ ap (λ l. last log_tail_lines (l ++ map cap_line lines)) (log_writer-last line logs)
    ∙ last-last log_tail_lines (logs ++ cap_line line ∷ []) (map cap_line lines)
    ∙ ap (last log_tail_lines) (append_assoc logs (cap_line line ∷ []) (map cap_line lines))
  where
    short : length (log_writer line logs) ≤ log_tail_lines
    short = rw (log_writer-last line logs) (
        omega (
          arith,
          length-drop (length (logs ++ cap_line line ∷ []) - log_tail_lines)
              (logs ++ cap_line line ∷ []),
        ))

-- A line of the log, with its mark where it was cut off.
abbrev pub longest : ℕ
longest = log_line_cap_chars + 12

-- What is kept of a line: it has no more than `longest` characters, and begins as the line does that was
-- written, without its trailing newlines, for all of the first 4000.
cap_line-bounded : (line : Text) → length (cap_line line) ≤ longest
unfolding cap_line
cap_line-bounded line = elim (Bool-cases (ltb log_line_cap_chars (length text))) [
  | inl e ↦ rw e (
      omega (
        arith,
        length-append (take log_line_cap_chars text) (8_230 ∷ str "[truncated]"),
        length-take log_line_cap_chars text,
      ))
  | inr e ↦ rw e (ground (arith, e))
]
  where
    text : Text
    text = rstrip (λ c. c == 10) line

take-take : (n : ℕ) (xs ys : Text) → n ≤ length xs → take n (take n xs ++ ys) ≡ take n xs
take-take zero xs ys h = refl
take-take (suc n) [] ys h = absurd (omega (arith, h))
take-take (suc n) (x ∷ xs) ys h = ap (λ l. x ∷ l) (take-take n xs ys (omega (arith, h)))

cap_line-begins :
    (line : Text)
    → take log_line_cap_chars (cap_line line) ≡ take log_line_cap_chars (rstrip (λ c. c == 10) line)
unfolding cap_line
cap_line-begins line = elim (Bool-cases (ltb log_line_cap_chars (length text))) [
  | inl e ↦ rw e (take-take log_line_cap_chars text (8_230 ∷ str "[truncated]") (ground (arith, e)))
  | inr e ↦ rw e refl
]
  where
    text : Text
    text = rstrip (λ c. c == 10) line

log_writer-bounded :
    (line : Text) (logs : List Text)
    → All (λ l. length l ≤ longest) logs
    → All (λ l. length l ≤ longest) (log_writer line logs)
log_writer-bounded line logs h = rw (log_writer-last line logs) (
    All-drop (λ l. length l ≤ longest) _ (logs ++ cap_line line ∷ [])
      (All-append (λ l. length l ≤ longest) logs (cap_line line ∷ []) h
        (cap_line-bounded line, tt)))

write_lines-bounded :
    (lines logs : List Text)
    → All (λ l. length l ≤ longest) logs
    → All (λ l. length l ≤ longest) (write_lines lines logs)
unfolding write_lines
write_lines-bounded [] logs h = h
write_lines-bounded (line ∷ lines) logs h =
    write_lines-bounded lines (log_writer line logs) (log_writer-bounded line logs h)

-- The log of a job that starts with an empty log is always the last 200 of all the lines written, as
-- they are kept: of each line the first 4000 characters, without the trailing newlines, and never more
-- than those and a mark of twelve.
pub write_lines-tail :
    (lines : List Text)
    → (write_lines lines [] ≡ last log_tail_lines (map cap_line lines))
      × (All (λ l. length l ≤ 4_012) (write_lines lines [])
          × All
              (λ line. take 4_000 (cap_line line) ≡ take 4_000 (rstrip (λ c. c == 10) line))
              lines)
write_lines-tail lines =
    (write_lines-last lines [] (omega arith), (write_lines-bounded lines [] tt, begins lines))
  where
    begins :
        (ls : List Text)
        → All (λ line. take 4_000 (cap_line line) ≡ take 4_000 (rstrip (λ c. c == 10) line)) ls
    begins [] = tt
    begins (l ∷ ls) = (cap_line-begins l, begins ls)
