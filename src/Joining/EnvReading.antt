-- ===== src/Joining/EnvReading.antt =====
-- daemon/joining.py: what a joiner reads back from the cluster.env that the leader wrote for it.
use milvus_onprem.Base.{
  ℕ, Text, Dict, IsDict, lookup, insert, lookup-insert, true, false, Option, none, some, List, [],
  ◌∷◌, ◌++◌, ◌≡◌, refl, ap, ◌∙◌, inl, inr, ◌==◌, if◌then◌else◌, arith, Bool-cases, same, same_iff,
  has_char, strip, unquote, cut, lstrip, rstrip, is_space, is_break, cut-append, rstrip-append,
  rstrip-under, rstrip-head, rstrip-cons, lstrip-append, IsLine, AllLines,
}
use milvus_onprem.Joining.Env.{
  is_per_peer, trimmed, parse_stripped, parse_line, add_entry, read_lines, setting, shared_lines,
}

-- What reading leaves as it is: a value with no line break, no space at either end, and no quotes
-- round it.
pub record IsValue (v : Text) : Type 0 where
  pub line : IsLine v
  pub left : lstrip is_space v ≡ v
  pub right : rstrip is_space v ≡ v
  pub bare : unquote v ≡ v

-- A key: one line, not empty, no space at either end, no `=` inside, and no `#` in front.
pub data IsKey : Text → Type 0 where
  key :
      (c : ℕ) (k : Text)
      → IsLine (c ∷ k)
      → lstrip is_space (c ∷ k) ≡ c ∷ k
      → rstrip is_space (c ∷ k) ≡ c ∷ k
      → has_char b'=' (c ∷ k) ≡ false
      → (c == b'#') ≡ false
      → IsKey (c ∷ k)

pub strip_lem : (s : Text) → strip s ≡ rstrip is_space (lstrip is_space s)
unfolding strip
strip_lem s = refl

strip-setting :
    (c : ℕ) (k v : Text)
    → lstrip is_space (c ∷ k) ≡ c ∷ k
    → rstrip is_space v ≡ v
    → strip (setting (c ∷ k) v) ≡ setting (c ∷ k) v
strip-setting c k v left right =
    strip_lem (setting (c ∷ k) v)
    ∙ ap (rstrip is_space) (lstrip-append is_space c k (b'=' ∷ v) left)
    ∙ rstrip-append is_space (c ∷ k) b'=' v
        (rstrip-cons is_space b'=' v (unfold is_space in refl) right)

strip_clean : (v : Text) → lstrip is_space v ≡ v → rstrip is_space v ≡ v → strip v ≡ v
strip_clean v left right = strip_lem v ∙ ap (rstrip is_space) left ∙ right

pub parse_line_lem : (s : Text) → parse_line s ≡ parse_stripped (strip s)
unfolding parse_line
parse_line_lem s = refl

pub parse_stripped_lem :
    (c : ℕ) (s : Text) → (c == b'#') ≡ false → parse_stripped (c ∷ s) ≡ trimmed (cut b'=' (c ∷ s))
unfolding parse_stripped
parse_stripped_lem c s h = rw h

-- A line that begins with a key and `=` is read as a setting of the key.
pub parse_line-begins :
    (k v : Text) → IsKey k → (w : Text) × (parse_line (k ++ (b'=' ∷ v)) ≡ some (k, w))
parse_line-begins _ v (key c k line left right no_eq no_hash) =
    let (t, e) = rstrip-head is_space b'=' v (unfold is_space in refl) in
    (
      unquote (strip t),
      parse_line_lem (setting (c ∷ k) v)
          ∙ ap parse_stripped (
              strip_lem (setting (c ∷ k) v)
              ∙ ap (rstrip is_space) (lstrip-append is_space c k (b'=' ∷ v) left)
              ∙ rstrip-under is_space (c ∷ k) (b'=' ∷ v) b'=' t e)
          ∙ parse_stripped_lem c (k ++ (b'=' ∷ t)) no_hash
          ∙ ap trimmed (cut-append b'=' (c ∷ k) t no_eq)
          ∙ ap (λ u. some (u, unquote (strip t))) (strip_clean (c ∷ k) left right),
    )

-- A written setting is read back as it was.
pub parse_line-setting : (k v : Text) → IsKey k → IsValue v → parse_line (setting k v) ≡ some (k, v)
parse_line-setting _ v (key c k line left right no_eq no_hash) h =
    parse_line_lem (setting (c ∷ k) v)
    ∙ ap parse_stripped (strip-setting c k v left h.right)
    ∙ parse_stripped_lem c (k ++ (b'=' ∷ v)) no_hash
    ∙ ap trimmed (cut-append b'=' (c ∷ k) v no_eq)
    ∙ ap (λ t. some (t, unquote (strip v))) (strip_clean (c ∷ k) left right)
    ∙ ap (λ t. some (c ∷ k, t)) (ap unquote (strip_clean v h.left h.right) ∙ h.bare)

add_entry-key :
    {k : Text} (v : Text) (out : Dict Text) → IsKey k → add_entry (some (k, v)) out ≡ insert k v out
add_entry-key v out (key c k line left right no_eq no_hash) = refl

-- Reading one more written setting sets its key.
pub read_lines-setting :
    (k v : Text) (out : Dict Text) (lines : List Text)
    → IsKey k
    → IsValue v
    → read_lines out (setting k v ∷ lines) ≡ read_lines (insert k v out) lines
unfolding read_lines
read_lines-setting k v out lines hk hv =
    ap (λ e. read_lines (add_entry e out) lines) (parse_line-setting k v hk hv)
    ∙ ap (λ d. read_lines d lines) (add_entry-key v out hk)

abbrev pub AllSettings : Dict Text → Type 0
AllSettings [] = Unit
AllSettings ((k, v) ∷ env) = IsKey k × IsValue v × AllSettings env

-- What the settings say, or else what was read before them.
abbrev pub or_else : Option Text → Option Text → Option Text
or_else none o = o
or_else (some v) o = some v

lookup_lem :
    (j k v : Text) (env : Dict Text)
    → lookup k ((j, v) ∷ env) ≡ (if same j k then some v else lookup k env)
unfolding lookup
lookup_lem j k v env = refl

shared_lines_own :
    (j v : Text) (env : Dict Text)
    → is_per_peer j ≡ true
    → shared_lines ((j, v) ∷ env) ≡ shared_lines env
unfolding shared_lines
shared_lines_own j v env own = rw own

shared_lines_shared :
    (j v : Text) (env : Dict Text)
    → is_per_peer j ≡ false
    → shared_lines ((j, v) ∷ env) ≡ setting j v ∷ shared_lines env
unfolding shared_lines
shared_lines_shared j v env shared = rw shared

-- The shared settings are read back over what was read before, the per-peer ones are left out.
pub lookup-shared_lines :
    (k : Text) (out env : Dict Text)
    → IsDict env
    → AllSettings env
    → lookup k (read_lines out (shared_lines env))
      ≡ (if is_per_peer k then lookup k out else or_else (lookup k env) (lookup k out))
lookup-shared_lines k out [] h s = unfold shared_lines read_lines lookup in ground arith
lookup-shared_lines k out ((j, v) ∷ env) h s = elim (Bool-cases (is_per_peer j)) [
  | inl own ↦
      ap (λ ls. lookup k (read_lines out ls)) (shared_lines_own j v env own)
      ∙ lookup-shared_lines k out env h.1 s.2
      ∙ (unfold lookup in ground (arith, same_iff j k))
  | inr shared ↦
      ap (λ ls. lookup k (read_lines out ls)) (shared_lines_shared j v env shared)
      ∙ ap (λ d. lookup k d) (read_lines-setting j v out (shared_lines env) s.0 s.1)
      ∙ lookup-shared_lines k (insert j v out) env h.1 s.2
      ∙ ground (arith, same_iff j k, lookup-insert j k v out, lookup_lem j k v env)
]

pub read_lines-comment :
    (line : Text) (out : Dict Text) (lines : List Text)
    → parse_line line ≡ none
    → read_lines out (line ∷ lines) ≡ read_lines out lines
unfolding read_lines
read_lines-comment line out lines h = ap (λ e. read_lines (add_entry e out) lines) h

pub AllLines-append : (xs ys : List Text) → AllLines xs → AllLines ys → AllLines (xs ++ ys)
AllLines-append [] ys hx hy = hy
AllLines-append (x ∷ xs) ys hx hy = (hx.0, AllLines-append xs ys hx.1 hy)

pub IsLine-append : (s t : Text) → IsLine s → IsLine t → IsLine (s ++ t)
IsLine-append [] t hs ht = ht
IsLine-append (c ∷ s) t hs ht = (hs.0, IsLine-append s t hs.1 ht)

pub IsKey-IsLine : {k : Text} → IsKey k → IsLine k
IsKey-IsLine (key c k line left right no_eq no_hash) = line

pub setting-IsLine : (k v : Text) → IsLine k → IsLine v → IsLine (setting k v)
setting-IsLine k v hk hv = IsLine-append k (b'=' ∷ v) hk (unfold is_break in refl, hv)

pub shared_lines-AllLines : (env : Dict Text) → AllSettings env → AllLines (shared_lines env)
shared_lines-AllLines [] s = unfold shared_lines in tt
shared_lines-AllLines ((j, v) ∷ env) s = elim (Bool-cases (is_per_peer j)) [
  | inl own ↦ rw (shared_lines_own j v env own) (shared_lines-AllLines env s.2)
  | inr shared ↦
      rw (shared_lines_shared j v env shared)
        (setting-IsLine j v (IsKey-IsLine s.0) s.1.line, shared_lines-AllLines env s.2)
]
