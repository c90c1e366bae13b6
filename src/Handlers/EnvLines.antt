-- ===== src/Handlers/EnvLines.antt =====
-- daemon/handlers.py: the lines of cluster.env after `_upsert_kv`.
use milvus_onprem.Base.{
  ℕ, Text, some, List, [], ◌∷◌, ◌++◌, ◌≡◌, refl, ap, ◌∙◌, inl, inr, ◌==◌, if◌then◌else◌, arith,
  Bool-cases, false, has_char, starts_with, is_break, strip_prefix, split_on-append, IsLine,
  AllLines, split_on,
}
use mathlib.Core.List.{append_assoc}
use milvus_onprem.Joining.Env.{setting}
use milvus_onprem.Joining.EnvReading.{IsKey, IsKey-IsLine, IsLine-append}
use milvus_onprem.Joining.Settings.{read_value, read_cluster_env_value}
use milvus_onprem.Handlers.EnvFile.{readlines, writelines, setting_line, upsert_lines, upsert_text}

-- A file that ends every line, the last too, with a newline.
unfoldable pub unlines : List Text → Text
unlines [] = []
unlines (line ∷ lines) = line ++ (10 ∷ unlines lines)

terminated : List Text → List Text
terminated [] = []
terminated (line ∷ lines) = (line ++ (10 ∷ [])) ∷ terminated lines

not_newline : (c : ℕ) → is_break c ≡ false → (c == 10) ≡ false
unfolding is_break
not_newline c h = ground (arith, h)

readlines-line :
    (line rest : Text)
    → IsLine line
    → readlines (line ++ (10 ∷ rest)) ≡ (line ++ (10 ∷ [])) ∷ readlines rest
unfolding readlines
readlines-line [] rest h = refl
readlines-line (c ∷ line) rest h = ground (arith, readlines-line line rest h.1, not_newline c h.0)

readlines-unlines :
    (lines : List Text) → AllLines lines → readlines (unlines lines) ≡ terminated lines
unfolding unlines terminated
readlines-unlines [] h = unfold readlines in refl
readlines-unlines (line ∷ lines) h =
    readlines-line line (unlines lines) h.0
    ∙ ap (λ r. (line ++ (10 ∷ [])) ∷ r) (readlines-unlines lines h.1)

-- The lines of the file after the edit.
unfoldable pub replaced : Text → Text → List Text → List Text
unfolding starts_with
replaced k v [] = setting k v ∷ []
replaced k v (line ∷ lines) =
    let rest = replaced k v lines in
    if starts_with (k ++ (b'=' ∷ [])) line then setting k v ∷ lines else line ∷ rest

starts_with-newline :
    (p line : Text) → IsLine p → starts_with p (line ++ (10 ∷ [])) ≡ starts_with p line
unfolding starts_with strip_prefix
starts_with-newline [] line h = refl
starts_with-newline (c ∷ p) [] h = ground (arith, not_newline c h.0)
starts_with-newline (c ∷ p) (d ∷ line) h = ground (arith, starts_with-newline p line h.1)

upsert_lines-terminated :
    (k v : Text) (lines : List Text)
    → IsLine (k ++ (b'=' ∷ []))
    → upsert_lines k v (terminated lines) ≡ terminated (replaced k v lines)
unfolding upsert_lines terminated replaced setting_line
upsert_lines-terminated k v [] h = refl
upsert_lines-terminated k v (line ∷ lines) h =
    elim (Bool-cases (starts_with (k ++ (b'=' ∷ [])) line)) [
      | inl e ↦ rw (starts_with-newline (k ++ (b'=' ∷ [])) line h) (rw e refl)
      | inr e ↦
          rw (starts_with-newline (k ++ (b'=' ∷ [])) line h)
            (rw e (ap (λ r. (line ++ (10 ∷ [])) ∷ r) (upsert_lines-terminated k v lines h)))
    ]

writelines-terminated : (lines : List Text) → writelines (terminated lines) ≡ unlines lines
unfolding writelines terminated unlines
writelines-terminated [] = refl
writelines-terminated (line ∷ lines) =
    append_assoc line (10 ∷ []) (writelines (terminated lines))
    ∙ ap (λ r. line ++ (10 ∷ r)) (writelines-terminated lines)

key-IsLine : (k : Text) → IsKey k → IsLine (k ++ (b'=' ∷ []))
key-IsLine k h = IsLine-append k (b'=' ∷ []) (IsKey-IsLine h) (unfold is_break in refl, tt)

pub upsert_text-unlines :
    (k v : Text) (lines : List Text)
    → IsKey k
    → AllLines lines
    → upsert_text k v (unlines lines) ≡ unlines (replaced k v lines)
unfolding upsert_text
upsert_text-unlines k v lines hk h =
    ap (λ r. writelines (upsert_lines k v r)) (readlines-unlines lines h)
    ∙ ap writelines (upsert_lines-terminated k v lines (key-IsLine k hk))
    ∙ writelines-terminated (replaced k v lines)

IsLine-has_char : (line : Text) → IsLine line → has_char 10 line ≡ false
unfolding has_char
IsLine-has_char [] h = refl
IsLine-has_char (c ∷ line) h = ground (arith, not_newline c h.0, IsLine-has_char line h.1)

split_on-unlines :
    (lines : List Text) → AllLines lines → split_on 10 (unlines lines) ≡ lines ++ [] ∷ []
unfolding unlines
split_on-unlines [] h = unfold split_on in refl
split_on-unlines (line ∷ lines) h =
    split_on-append 10 line (unlines lines) (IsLine-has_char line h.0)
    ∙ ap (λ r. line ∷ r) (split_on-unlines lines h.1)

pub replaced-AllLines :
    (k v : Text) (lines : List Text)
    → IsLine (setting k v)
    → AllLines lines
    → AllLines (replaced k v lines)
unfolding replaced
replaced-AllLines k v [] hs h = (hs, tt)
replaced-AllLines k v (line ∷ lines) hs h =
    elim (Bool-cases (starts_with (k ++ (b'=' ∷ [])) line)) [
      | inl e ↦ rw e (hs, h.1)
      | inr e ↦ rw e (h.0, replaced-AllLines k v lines hs h.1)
    ]

pub read-unlines :
    (j d : Text) (lines : List Text)
    → AllLines lines
    → read_cluster_env_value (some (unlines lines) ∷ []) j d ≡ read_value j d (lines ++ [] ∷ [])
unfolding read_cluster_env_value
read-unlines j d lines h = ap (read_value j d) (split_on-unlines lines h)
