-- ===== src/Handlers/EnvUpsert.antt =====
-- daemon/handlers.py: what the readers of cluster.env find after `_upsert_kv`.
use milvus_onprem.Base.{
  Text, none, some, List, [], ◌∷◌, ◌++◌, ◌≡◌, ap, sym, ◌∙◌, inl, inr, if◌then◌else◌, arith,
  Bool-cases, Option-cases, true, false, same, same_iff, starts_with, starts_with-eq, remove_prefix,
  All, same_refl, AllLines,
}
use mathlib.Core.List.{append_assoc}
use milvus_onprem.Joining.Env.{parse_line, setting}
use milvus_onprem.Joining.EnvReading.{
  IsValue, IsKey, IsKey-IsLine, setting-IsLine, parse_line-setting, parse_line-begins,
}
use milvus_onprem.Joining.Settings.{read_value, read_cluster_env_value}
use milvus_onprem.Handlers.EnvLines.{
  unlines, replaced, upsert_text-unlines, replaced-AllLines, read-unlines,
}
use milvus_onprem.Handlers.EnvFile.{upsert_text}

line_begins :
    (k line : Text)
    → IsKey k
    → starts_with (k ++ (b'=' ∷ [])) line ≡ true
    → (w : Text) × (parse_line line ≡ some (k, w))
line_begins k line hk e =
    let p : Text = k ++ (b'=' ∷ []) in
    let (w, f) = parse_line-begins k (remove_prefix p line) hk in
    (
      w,
      ap parse_line (starts_with-eq p line e ∙ append_assoc k (b'=' ∷ []) (remove_prefix p line))
          ∙ f,
    )

-- Every line that is read as a setting of the key begins with it and `=`.
abbrev pub Opens : Text → List Text → Type 0
Opens k lines =
    All
      (λ line.
        (w : Text) → parse_line line ≡ some (k, w) → starts_with (k ++ (b'=' ∷ [])) line ≡ true)
      lines

read_value-none :
    (j d line : Text) (lines : List Text)
    → parse_line line ≡ none
    → read_value j d (line ∷ lines) ≡ read_value j d lines
unfolding read_value
read_value-none j d line lines e = ground (arith, e)

read_value-hit :
    (j d line k w : Text) (lines : List Text)
    → parse_line line ≡ some (k, w)
    → same k j ≡ true
    → read_value j d (line ∷ lines) ≡ w
unfolding read_value
read_value-hit j d line k w lines e eq = ground (arith, e, eq)

read_value-miss :
    (j d line k w : Text) (lines : List Text)
    → parse_line line ≡ some (k, w)
    → same k j ≡ false
    → read_value j d (line ∷ lines) ≡ read_value j d lines
unfolding read_value
read_value-miss j d line k w lines e ne = ground (arith, e, ne)

read_value-skip :
    (j d line : Text) (xs ys : List Text)
    → read_value j d xs ≡ read_value j d ys
    → read_value j d (line ∷ xs) ≡ read_value j d (line ∷ ys)
unfolding read_value
read_value-skip j d line xs ys e = ground (arith, e)

read_value-replaced_other :
    (k v j d : Text) (lines : List Text)
    → IsKey k
    → IsValue v
    → same k j ≡ false
    → read_value j d (replaced k v lines ++ [] ∷ []) ≡ read_value j d (lines ++ [] ∷ [])
unfolding replaced
read_value-replaced_other k v j d [] hk hv ne =
    read_value-miss j d (setting k v) k v ([] ∷ []) (parse_line-setting k v hk hv) ne
read_value-replaced_other k v j d (line ∷ lines) hk hv ne =
    elim (Bool-cases (starts_with (k ++ (b'=' ∷ [])) line)) [
      | inr e ↦ rw e (
          read_value-skip j d line (replaced k v lines ++ [] ∷ []) (lines ++ [] ∷ [])
            (read_value-replaced_other k v j d lines hk hv ne))
      | inl e ↦
          let (w, f) = line_begins k line hk e in
          rw e (
            read_value-miss j d (setting k v) k v (lines ++ [] ∷ []) (parse_line-setting k v hk hv)
              ne
            ∙ sym (read_value-miss j d line k w (lines ++ [] ∷ []) f ne))
    ]

-- A line that does not begin with the key is passed over.
passed_over :
    (k d line : Text) (rest : List Text)
    → ((w : Text) → parse_line line ≡ some (k, w) → starts_with (k ++ (b'=' ∷ [])) line ≡ true)
    → starts_with (k ++ (b'=' ∷ [])) line ≡ false
    → read_value k d (line ∷ rest) ≡ read_value k d rest
passed_over k d line rest opens e = elim (Option-cases (parse_line line)) [
  | inl f ↦ read_value-none k d line rest f
  | inr ((j, w), f) ↦ elim (Bool-cases (same j k)) [
    | inr ne ↦ read_value-miss k d line j w rest f ne
    | inl eq ↦
        let h : j ≡ k = (same_iff j k).0 eq in
        let g : parse_line line ≡ some (k, w) = f ∙ ap (λ i. some (i, w)) h in
        absurd (ground (arith, e, opens w g))
  ]
]

read_value-replaced_own :
    (k v d : Text) (lines : List Text)
    → IsKey k
    → IsValue v
    → Opens k lines
    → read_value k d (replaced k v lines ++ [] ∷ []) ≡ v
unfolding replaced
read_value-replaced_own k v d [] hk hv opens =
    read_value-hit k d (setting k v) k v ([] ∷ []) (parse_line-setting k v hk hv) (same_refl k)
read_value-replaced_own k v d (line ∷ lines) hk hv opens =
    elim (Bool-cases (starts_with (k ++ (b'=' ∷ [])) line)) [
      | inl e ↦ rw e (
          read_value-hit k d (setting k v) k v (lines ++ [] ∷ []) (parse_line-setting k v hk hv)
            (same_refl k))
      | inr e ↦ rw e (
          passed_over k d line (replaced k v lines ++ [] ∷ []) opens.0 e
          ∙ read_value-replaced_own k v d lines hk hv opens.1)
    ]

-- What stands in the file that was edited, for a reader.
read-upserted :
    (k v : Text) (lines : List Text) (j d : Text)
    → IsKey k
    → IsValue v
    → AllLines lines
    → read_cluster_env_value (some (upsert_text k v (unlines lines)) ∷ []) j d
      ≡ read_value j d (replaced k v lines ++ [] ∷ [])
read-upserted k v lines j d hk hv h =
    ap (λ t. read_cluster_env_value (some t ∷ []) j d) (upsert_text-unlines k v lines hk h)
    ∙ read-unlines j d (replaced k v lines)
        (replaced-AllLines k v lines (setting-IsLine k v (IsKey-IsLine hk) hv.line) h)

-- In a file that ends every line with a newline, and in which every line that is read as a setting of
-- the key begins with the key and `=`, an upsert of the key with a value lets the key read as the
-- value, and leaves what every other key reads as.
pub upsert_text-read :
    (k v : Text) (lines : List Text) (j d : Text)
    → IsKey k
    → IsValue v
    → AllLines lines
    → Opens k lines
    → read_cluster_env_value (some (upsert_text k v (unlines lines)) ∷ []) j d
      ≡ (if same k j then v else read_cluster_env_value (some (unlines lines) ∷ []) j d)
upsert_text-read k v lines j d hk hv h opens = elim (Bool-cases (same k j)) [
  | inl eq ↦
      let e : k ≡ j = (same_iff k j).0 eq in
      rw eq (
        read-upserted k v lines j d hk hv h
        ∙ ap (λ i. read_value i d (replaced k v lines ++ [] ∷ [])) (sym e)
        ∙ read_value-replaced_own k v d lines hk hv opens)
  | inr ne ↦ rw ne (
      read-upserted k v lines j d hk hv h
      ∙ read_value-replaced_other k v j d lines hk hv ne
      ∙ sym (read-unlines j d lines h))
]
