-- ===== src/Handlers/EnvPeers.antt =====
-- daemon/handlers.py: what cluster.env holds after the handlers have written the peers to it.
use milvus_onprem.Base.{
  Text, str, some, List, [], ◌∷◌, ◌++◌, ◌≡◌, refl, ap, sym, ◌∙◌, inl, inr, arith, Bool-cases, true,
  false, same, same_iff, starts_with, AllLines, join, if◌then◌else◌, lstrip, rstrip, is_space,
  is_break, has_char, bind-returned,
}
use milvus_onprem.Host.{Host, HostLaws}
use milvus_onprem.Host.Shell.{cluster_env_path}
use milvus_onprem.Config.{DaemonConfig}
use milvus_onprem.Joining.Env.{parse_line, setting, comma}
use milvus_onprem.Joining.EnvReading.{
  IsValue, IsKey, key, IsKey-IsLine, setting-IsLine, parse_line-setting,
}
use milvus_onprem.Joining.Peers.{names_of, ips_of}
use milvus_onprem.Joining.Settings.{read_cluster_env_value}
use milvus_onprem.Handlers.EnvFile.{upsert_text, upsert_kv, upsert_kv-writes}
use milvus_onprem.Handlers.EnvLines.{unlines, replaced, upsert_text-unlines, replaced-AllLines}
use milvus_onprem.Handlers.EnvUpsert.{Opens, upsert_text-read}
use milvus_onprem.Handlers.Render.{write_peers}

setting-opens :
    (k v j w line : Text)
    → IsKey k
    → IsValue v
    → same k j ≡ false
    → parse_line (setting k v) ≡ some (j, w)
    → starts_with (j ++ (b'=' ∷ [])) line ≡ true
setting-opens k v j w line hk hv ne e =
    let q : some (k, v) ≡ some (j, w) = sym (parse_line-setting k v hk hv) ∙ e in
    absurd (ground (arith, ne, same_iff k j, q))

replaced-Opens :
    (k v j : Text) (lines : List Text)
    → IsKey k
    → IsValue v
    → same k j ≡ false
    → Opens j lines
    → Opens j (replaced k v lines)
unfolding replaced
replaced-Opens k v j [] hk hv ne h = ((λ w. setting-opens k v j w (setting k v) hk hv ne), tt)
replaced-Opens k v j (line ∷ lines) hk hv ne h =
    elim (Bool-cases (starts_with (k ++ (b'=' ∷ [])) line)) [
      | inl e ↦ rw e ((λ w. setting-opens k v j w (setting k v) hk hv ne), h.1)
      | inr e ↦ rw e (h.0, replaced-Opens k v j lines hk hv ne h.1)
    ]

ips-IsKey : IsKey (str "PEER_IPS")
unfolding is_break lstrip rstrip is_space has_char
ips-IsKey =
    key 80 (str "EER_IPS") (refl, (refl, (refl, (refl, (refl, (refl, (refl, (refl, tt)))))))) refl
      refl refl refl

names-IsKey : IsKey (str "PEER_NAMES")
unfolding is_break lstrip rstrip is_space has_char
names-IsKey =
    key 80 (str "EER_NAMES")
      (refl, (refl, (refl, (refl, (refl, (refl, (refl, (refl, (refl, (refl, tt)))))))))) refl refl
      refl refl

module _ (host : Host) (laws : HostLaws host) (config : DaemonConfig) where
  open host.etcd use {State}

  -- What is read of a key after both edits.
  abbrev pub edited : List (Text × Text) → Text → Text → Text
  edited ordered j before =
      if same (str "PEER_NAMES") j
      then join comma (names_of ordered)
      else if same (str "PEER_IPS") j
      then join comma (ips_of ordered)
      else before

  -- The two edits of cluster.env, in a file that ends every line with a newline and in which the lines
  -- that are read as `PEER_IPS` or `PEER_NAMES` begin so, and with lists that, joined by commas, have no
  -- line break and no spaces or quotes round them, leave a file that reads as the addresses under
  -- `PEER_IPS`, as the names in the same order under `PEER_NAMES`, and as before under every other key.
  pub write_peers-read :
      (ordered : List (Text × Text)) (lines : List Text) (s : State)
      → IsValue (join comma (ips_of ordered))
      → IsValue (join comma (names_of ordered))
      → AllLines lines
      → Opens (str "PEER_IPS") lines
      → Opens (str "PEER_NAMES") lines
      → host.file s cluster_env_path ≡ some (unlines lines)
      → (text : Text) × ((host.file (write_peers host config ordered s).1 cluster_env_path
            ≡ some text)
          × ((j d : Text)
              → read_cluster_env_value (some text ∷ []) j d
                ≡ edited ordered j (read_cluster_env_value (some (unlines lines) ∷ []) j d)))
  unfolding write_peers
  write_peers-read ordered lines s hi hn hl oi on hf =
      (upsert_text names_k names first_text, (filed, reads))
    where
      ips_k : Text
      ips_k = str "PEER_IPS"

      names_k : Text
      names_k = str "PEER_NAMES"

      ips : Text
      ips = join comma (ips_of ordered)

      names : Text
      names = join comma (names_of ordered)

      first_text : Text
      first_text = upsert_text ips_k ips (unlines lines)

      t : State
      t = host.write cluster_env_path first_text s

      filed :
          host.file (write_peers host config ordered s).1 cluster_env_path
          ≡ some (upsert_text names_k names first_text)
      filed =
          ap (λ p. host.file p.1 cluster_env_path)
            (bind-returned (upsert_kv host cluster_env_path ips_k ips)
                (λ _. upsert_kv host cluster_env_path names_k names) s t tt
                (upsert_kv-writes host cluster_env_path ips_k ips (unlines lines) s hf)
              ∙ upsert_kv-writes host cluster_env_path names_k names first_text t
                  (laws.write_same cluster_env_path first_text s))
          ∙ laws.write_same cluster_env_path (upsert_text names_k names first_text) t

      first_lines : List Text
      first_lines = replaced ips_k ips lines

      again : first_text ≡ unlines first_lines
      again = upsert_text-unlines ips_k ips lines ips-IsKey hl

      reads :
          (j d : Text)
          → read_cluster_env_value (some (upsert_text names_k names first_text) ∷ []) j d
            ≡ edited ordered j (read_cluster_env_value (some (unlines lines) ∷ []) j d)
      reads j d =
          ap (λ u. read_cluster_env_value (some (upsert_text names_k names u) ∷ []) j d) again
          ∙ upsert_text-read names_k names first_lines j d names-IsKey hn
              (replaced-AllLines ips_k ips lines
                (setting-IsLine ips_k ips (IsKey-IsLine ips-IsKey) hi.line) hl)
              (replaced-Opens ips_k ips names_k lines ips-IsKey hi (unfold same in refl) on)
          ∙ ap (λ u. if same names_k j then names else read_cluster_env_value (some u ∷ []) j d)
              (sym again)
          ∙ ap (λ r. if same names_k j then names else r)
              (upsert_text-read ips_k ips lines j d ips-IsKey hi hl oi)
