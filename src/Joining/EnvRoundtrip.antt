-- ===== src/Joining/EnvRoundtrip.antt =====
-- daemon/joining.py: the cluster.env that `_build_joiner_cluster_env` writes, read back by
-- `_read_cluster_env` on the joiner.
use milvus_onprem.Base.{
  ℕ, Text, str, Dict, IsDict, lookup, insert, true, false, none, some, Option, List, [], ◌∷◌, ◌++◌,
  ◌≡◌, refl, ap, subst, ◌∙◌, ◌==◌, if◌then◌else◌, arith, splitlines, join, lstrip, rstrip, has_char,
  unquote, is_space, is_line, IsLine-of_is_line, same, splitlines-join, IsLine, AllLines,
  rstrip-head, ok,
}
use milvus_onprem.Joining.Env.{
  is_per_peer, rule, parse_stripped, parse_line, read_lines, read_cluster_env, setting,
  shared_lines, comma, newline, joiner_lines, build_joiner_cluster_env,
}
use milvus_onprem.Joining.EnvReading.{
  IsValue, IsKey, key, AllSettings, IsKey-IsLine, strip_lem, parse_line_lem, read_lines-setting,
  read_lines-comment, lookup-shared_lines, IsLine-append, setting-IsLine, shared_lines-AllLines,
}

lstrip-comment : (s : Text) → lstrip is_space (b'#' ∷ s) ≡ b'#' ∷ s
unfolding lstrip is_space
lstrip-comment s = refl

parse_stripped-comment : (s : Text) → parse_stripped (b'#' ∷ s) ≡ none
unfolding parse_stripped
parse_stripped-comment s = refl

parse_line-comment : (s : Text) → parse_line (b'#' ∷ s) ≡ none
parse_line-comment s =
    let hash_stays : is_space b'#' ≡ false = unfold is_space in refl in
    let (t, e) = rstrip-head is_space b'#' s hash_stays in
    parse_line_lem (b'#' ∷ s)
    ∙ ap parse_stripped (strip_lem (b'#' ∷ s) ∙ ap (rstrip is_space) (lstrip-comment s) ∙ e)
    ∙ parse_stripped-comment t

parse_line-nil : parse_line [] ≡ none
unfolding parse_line
parse_line-nil = refl

-- The keys that the leader writes are keys, and the last of the values is a value.
IsKey-of_tests :
    (c : ℕ) (k : Text)
    → is_line (c ∷ k) ≡ true
    → lstrip is_space (c ∷ k) ≡ c ∷ k
    → rstrip is_space (c ∷ k) ≡ c ∷ k
    → has_char b'=' (c ∷ k) ≡ false
    → (c == b'#') ≡ false
    → IsKey (c ∷ k)
IsKey-of_tests c k line = key c k (IsLine-of_is_line (c ∷ k) line)

abbrev issued_by : Text
issued_by = str "# Issued by leader at "

header_lines :
    IsLine rule × IsLine (str "# milvus-onprem cluster.env (joiner copy)") × IsLine issued_by
unfolding is_line
header_lines = (
  IsLine-of_is_line rule refl,
  IsLine-of_is_line (str "# milvus-onprem cluster.env (joiner copy)") refl,
  IsLine-of_is_line issued_by refl,
)

own_keys :
    IsKey (str "NODE_NAME")
    × IsKey (str "LOCAL_IP")
    × IsKey (str "PEER_IPS")
    × IsKey (str "PEER_NAMES")
    × IsKey (str "ETCD_INITIAL_CLUSTER_STATE")
unfolding is_line lstrip rstrip is_space has_char
own_keys = (
  IsKey-of_tests _ _ refl refl refl refl refl,
  IsKey-of_tests _ _ refl refl refl refl refl,
  IsKey-of_tests _ _ refl refl refl refl refl,
  IsKey-of_tests _ _ refl refl refl refl refl,
  IsKey-of_tests _ _ refl refl refl refl refl,
)

existing-IsValue : IsValue (str "existing")
unfolding lstrip rstrip is_space unquote
existing-IsValue = record {
  line = IsLine-of_is_line (str "existing") (unfold is_line in refl);
  left = refl;
  right = refl;
  bare = refl;
}

module _ (node_name local_ip : Text) (ips names : List Text) where
  -- The joiner's own settings.
  abbrev pub own_settings : Dict Text
  own_settings =
      (str "NODE_NAME", node_name)
      ∷ (str "LOCAL_IP", local_ip)
      ∷ (str "PEER_IPS", join comma ips)
      ∷ (str "PEER_NAMES", join comma names)
      ∷ (str "ETCD_INITIAL_CLUSTER_STATE", str "existing")
      ∷ []

  -- What stands for `k` in the joiner's cluster.env: a per-peer key has the joiner's value, or none;
  -- any other key has the leader's.
  abbrev pub expected : Dict Text → Text → Option Text
  expected leader_env k = if is_per_peer k then lookup k own_settings else lookup k leader_env

  own-none : (k : Text) → is_per_peer k ≡ false → lookup k own_settings ≡ none
  unfolding is_per_peer lookup
  own-none k h = ground arith

  -- The lines of the file but the last, empty one.
  abbrev file_lines : Text → Dict Text → List Text
  file_lines issued_at leader_env =
      rule
      ∷ str "# milvus-onprem cluster.env (joiner copy)"
      ∷ (str "# Issued by leader at " ++ issued_at)
      ∷ rule
      ∷ []
      ∷ setting (str "NODE_NAME") node_name
      ∷ setting (str "LOCAL_IP") local_ip
      ∷ setting (str "PEER_IPS") (join comma ips)
      ∷ setting (str "PEER_NAMES") (join comma names)
      ∷ setting (str "ETCD_INITIAL_CLUSTER_STATE") (str "existing")
      ∷ []
      ∷ shared_lines leader_env

  joiner_lines_lem :
      (issued_at : Text) (leader_env : Dict Text)
      → joiner_lines issued_at leader_env node_name local_ip ips names
        ≡ file_lines issued_at leader_env ++ [] ∷ []
  unfolding joiner_lines
  joiner_lines_lem issued_at leader_env = refl

  pub record IsJoiner (issued_at : Text) (leader_env : Dict Text) : Type 0 where
    pub issued_line : IsLine issued_at
    pub name_value : IsValue node_name
    pub ip_value : IsValue local_ip
    pub ips-IsValue : IsValue (join comma ips)
    pub names-IsValue : IsValue (join comma names)
    pub leader_dict : IsDict leader_env
    pub leader_settings : AllSettings leader_env

  module _ (issued_at : Text) (leader_env : Dict Text) (good : IsJoiner issued_at leader_env) where
    own_lines-AllLines :
        IsLine (setting (str "NODE_NAME") node_name)
        × IsLine (setting (str "LOCAL_IP") local_ip)
        × IsLine (setting (str "PEER_IPS") (join comma ips))
        × IsLine (setting (str "PEER_NAMES") (join comma names))
        × IsLine (setting (str "ETCD_INITIAL_CLUSTER_STATE") (str "existing"))
    own_lines-AllLines =
        let (k1, k2, k3, k4, k5) = own_keys in
        (
          setting-IsLine (str "NODE_NAME") node_name (IsKey-IsLine k1) good.name_value.line,
          setting-IsLine (str "LOCAL_IP") local_ip (IsKey-IsLine k2) good.ip_value.line,
          setting-IsLine (str "PEER_IPS") (join comma ips) (IsKey-IsLine k3) good.ips-IsValue.line,
          setting-IsLine (str "PEER_NAMES") (join comma names) (IsKey-IsLine k4)
              good.names-IsValue.line,
          setting-IsLine (str "ETCD_INITIAL_CLUSTER_STATE") (str "existing") (IsKey-IsLine k5)
              existing-IsValue.line,
        )

    file_lines-AllLines : AllLines (file_lines issued_at leader_env)
    file_lines-AllLines =
        let (l1, l2, l3, l4, l5) = own_lines-AllLines in
        let settings = shared_lines-AllLines leader_env good.leader_settings in
        let (h1, h2, h3) = header_lines in
        (
          h1,
          (
            h2,
            (
              IsLine-append issued_by issued_at h3 good.issued_line,
              (h1, (tt, (l1, (l2, (l3, (l4, (l5, (tt, settings)))))))),
            ),
          ),
        )

    -- The header sets nothing, and the joiner's own settings come first.
    read_own :
        read_lines [] (file_lines issued_at leader_env)
        ≡ read_lines own_settings (shared_lines leader_env)
    read_own =
        let (k1, k2, k3, k4, k5) = own_keys in
        read_lines-comment _ [] _ (parse_line-comment _)
        ∙ read_lines-comment _ [] _ (parse_line-comment _)
        ∙ read_lines-comment _ [] _ (parse_line-comment _)
        ∙ read_lines-comment _ [] _ (parse_line-comment _)
        ∙ read_lines-comment [] [] _ parse_line-nil
        ∙ read_lines-setting _ node_name [] _ k1 good.name_value
        ∙ read_lines-setting _ local_ip _ _ k2 good.ip_value
        ∙ read_lines-setting _ (join comma ips) _ _ k3 good.ips-IsValue
        ∙ read_lines-setting _ (join comma names) _ _ k4 good.names-IsValue
        ∙ read_lines-setting _ (str "existing") _ _ k5 existing-IsValue
        ∙ read_lines-comment [] _ _ parse_line-nil
        ∙ ap (λ d. read_lines d (shared_lines leader_env)) inserted
      where
        inserted :
            insert (str "ETCD_INITIAL_CLUSTER_STATE") (str "existing") (
              insert (str "PEER_NAMES") (join comma names) (
                insert
                  (str "PEER_IPS")
                  (join comma ips)
                  (insert (str "LOCAL_IP") local_ip (insert (str "NODE_NAME") node_name []))))
            ≡ own_settings
        inserted = unfold insert same in refl

    read_joiner_lines :
        read_cluster_env
          (some (join newline (joiner_lines issued_at leader_env node_name local_ip ips names)))
        ≡ ok (read_lines own_settings (shared_lines leader_env))
    unfolding read_cluster_env
    read_joiner_lines =
        ap (λ ls. ok (read_lines [] (splitlines (join newline ls))))
          (joiner_lines_lem issued_at leader_env)
        ∙ ap (λ ls. ok (read_lines [] ls))
            (splitlines-join (file_lines issued_at leader_env) file_lines-AllLines)
        ∙ ap ok read_own

    lookup-read :
        (k : Text)
        → lookup k (read_lines own_settings (shared_lines leader_env)) ≡ expected leader_env k
    lookup-read k =
        lookup-shared_lines k own_settings leader_env good.leader_dict good.leader_settings
        ∙ ground (arith, own-none k)

-- The leader's and the joiner's values have no line break, no space and no quotes round them, and the
-- leader's keys are keys. Then the cluster.env that the leader writes reads back on the joiner with
-- the joiner's own name, address, peer lists and etcd state under the per-peer keys, and nothing
-- under HOST_REPO_ROOT, and with exactly the leader's setting, or none, under every other key.
pub joiner_env-roundtrip :
    (issued_at : Text) (leader_env : Dict Text) (node_name local_ip : Text) (ips names : List Text)
    {text : Text}
    → IsJoiner node_name local_ip ips names issued_at leader_env
    → build_joiner_cluster_env issued_at leader_env node_name local_ip ips names ≡ ok text
    → (env : Dict Text) × (read_cluster_env (some text) ≡ ok env)
      × ((k : Text) → lookup k env ≡ expected node_name local_ip ips names leader_env k)
unfolding build_joiner_cluster_env
joiner_env-roundtrip issued_at leader_env node_name local_ip ips names {text} good h =
    let made : join newline (joiner_lines issued_at leader_env node_name local_ip ips names)
        ≡ text =
      ground arith in
    (
      read_lines (own_settings node_name local_ip ips names) (shared_lines leader_env),
      subst
          (λ t.
            read_cluster_env (some t)
            ≡ ok (read_lines (own_settings node_name local_ip ips names) (shared_lines leader_env)))
          made (read_joiner_lines node_name local_ip ips names issued_at leader_env good),
      lookup-read node_name local_ip ips names issued_at leader_env good,
    )
