-- ===== src/Handlers/EnvFile.antt =====
-- daemon/handlers.py: `_upsert_kv`, the edit of one setting of cluster.env. The owner and the mode of the
-- file, which it copies, are left out.
use milvus_onprem.Base.{
  Text, none, some, List, [], ◌∷◌, ◌++◌, ◌==◌, if◌then◌else◌, starts_with, Exec, os_error, or_raise,
  ◌>>=◌, ok, err, ◌≡◌, arith,
}
use milvus_onprem.Host.{Host, call}
use milvus_onprem.Joining.Env.{setting}

-- `f.readlines()`: the lines with their newlines, of which the last may have none.
unfoldable pub readlines : Text → List Text
readlines [] = []
readlines (c ∷ s) =
    let rest = readlines s in
    if c == 10
    then (10 ∷ []) ∷ rest
    else elim rest [ [] ↦ (c ∷ []) ∷ [] | line ∷ lines ↦ (c ∷ line) ∷ lines ]

-- `f.writelines(lines)`
unfoldable pub writelines : List Text → Text
writelines [] = []
writelines (line ∷ lines) = line ++ writelines lines

-- `f"{key}={value}\n"`
unfoldable pub setting_line : Text → Text → Text
setting_line key value = setting key value ++ (10 ∷ [])

-- The first line that starts with `key=` is replaced; where there is none, one is appended.
unfoldable pub upsert_lines : Text → Text → List Text → List Text
unfolding starts_with setting_line
upsert_lines key value [] = setting_line key value ∷ []
upsert_lines key value (line ∷ lines) =
    let rest = upsert_lines key value lines in
    if starts_with (key ++ (b'=' ∷ [])) line then setting_line key value ∷ lines else line ∷ rest

unfoldable pub upsert_text : Text → Text → Text → Text
unfolding readlines writelines upsert_lines
upsert_text key value text = writelines (upsert_lines key value (readlines text))

module _ (host : Host) where
  open host.etcd use {State}

  -- `_upsert_kv`: `os.stat` raises where the file is not there.
  unfoldable pub upsert_kv : Text → Text → Text → Exec State (Unit {0})
  unfolding upsert_text
  upsert_kv path key value = do
    text ← λ s. or_raise (host.file s path) os_error s
    call (λ s. (tt, host.write path (upsert_text key value text) s))

  pub upsert_kv-missing :
      (path key value : Text) (s : State)
      → host.file s path ≡ none
      → upsert_kv path key value s ≡ (err os_error, s)
  unfolding upsert_kv
  upsert_kv-missing path key value s e = ground (arith, e)

  pub upsert_kv-writes :
      (path key value text : Text) (s : State)
      → host.file s path ≡ some text
      → upsert_kv path key value s ≡ (ok tt, host.write path (upsert_text key value text) s)
  unfolding upsert_kv
  upsert_kv-writes path key value text s e = ground (arith, e)
