-- ===== src/Joining/Env.antt =====
-- daemon/joining.py: reading cluster.env and writing a joiner's copy of it.
use milvus_onprem.Base.{
  Text, str, Dict, insert, Bool, not, Option, none, some, List, [], ◌∷◌, ◌++◌, length, ◌==◌,
  if◌then◌else◌, member, strip, unquote, cut, splitlines, join, Result, ok, err, join_error,
}

-- `_PER_PEER_KEYS`
abbrev pub per_peer_keys : List Text
per_peer_keys =
    str "PEER_IPS"
    ∷ str "PEER_NAMES"
    ∷ str "NODE_NAME"
    ∷ str "LOCAL_IP"
    ∷ str "ETCD_INITIAL_CLUSTER_STATE"
    ∷ str "HOST_REPO_ROOT"
    ∷ []

abbrev pub trimmed : Option (Text × Text) → Option (Text × Text)
trimmed none = none
trimmed (some (k, v)) = some (strip k, unquote (strip v))

-- `k in _PER_PEER_KEYS`
unfoldable pub is_per_peer : Text → Bool
unfolding member
is_per_peer k = member k per_peer_keys

-- One stripped line: `none` for an empty one, a comment, or one with no `=`.
unfoldable pub parse_stripped : Text → Option (Text × Text)
unfolding strip unquote cut
parse_stripped [] = none
parse_stripped (c ∷ s) = if c == b'#' then none else trimmed (cut b'=' (c ∷ s))

unfoldable pub parse_line : Text → Option (Text × Text)
unfolding parse_stripped
parse_line line = parse_stripped (strip line)

-- `if k: out[k] = v`
abbrev pub add_entry : Option (Text × Text) → Dict Text → Dict Text
add_entry none out = out
add_entry (some ([], v)) out = out
add_entry (some (c ∷ k, v)) out = insert (c ∷ k) v out

unfoldable pub read_lines : Dict Text → List Text → Dict Text
read_lines out [] = out
read_lines out (line ∷ lines) = read_lines (add_entry (parse_line line) out) lines

-- `_read_cluster_env`, of the file's text, or of `none` where the file is not there.
unfoldable pub read_cluster_env : Option Text → Result (Dict Text)
unfolding read_lines splitlines
read_cluster_env none = err join_error
read_cluster_env (some text) = ok (read_lines [] (splitlines text))

-- `f"{k}={v}"`
abbrev pub setting : Text → Text → Text
setting k v = k ++ (b'=' ∷ v)

-- The loop over the leader's settings.
unfoldable pub shared_lines : Dict Text → List Text
unfolding is_per_peer
shared_lines [] = []
shared_lines ((k, v) ∷ env) =
    let rest = shared_lines env in if is_per_peer k then rest else setting k v ∷ rest

abbrev pub rule : Text
rule = str "# ============================================================================="

abbrev pub comma : Text
comma = b',' ∷ []

abbrev pub newline : Text
newline = 10 ∷ []

-- The lines of the file; `issued_at` is what `time.strftime` printed.
unfoldable pub joiner_lines : Text → Dict Text → Text → Text → List Text → List Text → List Text
unfolding join shared_lines
joiner_lines issued_at leader_env node_name local_ip all_peer_ips all_peer_names =
    rule
    ∷ str "# milvus-onprem cluster.env (joiner copy)"
    ∷ (str "# Issued by leader at " ++ issued_at)
    ∷ rule
    ∷ []
    ∷ setting (str "NODE_NAME") node_name
    ∷ setting (str "LOCAL_IP") local_ip
    ∷ setting (str "PEER_IPS") (join comma all_peer_ips)
    ∷ setting (str "PEER_NAMES") (join comma all_peer_names)
    ∷ str "ETCD_INITIAL_CLUSTER_STATE=existing"
    ∷ []
    ∷ (shared_lines leader_env ++ [] ∷ [])

-- `_build_joiner_cluster_env`, its three guards first.
unfoldable pub build_joiner_cluster_env :
    Text → Dict Text → Text → Text → List Text → List Text → Result Text
unfolding member joiner_lines
build_joiner_cluster_env issued_at leader_env node_name local_ip all_peer_ips all_peer_names =
    if not (length all_peer_names == length all_peer_ips)
    then err join_error
    else if not (member local_ip all_peer_ips)
    then err join_error
    else if not (member node_name all_peer_names)
    then err join_error
    else ok (
        join newline
          (joiner_lines issued_at leader_env node_name local_ip all_peer_ips all_peer_names))
