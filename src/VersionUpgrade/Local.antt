-- ===== src/VersionUpgrade/Local.antt =====
-- daemon/workers/version_upgrade.py: `upgrade_self`, the upgrade of one peer by its own daemon.
use milvus_onprem.Base.{
  is_digit, Bool, ◌&&◌, Option, none, some, ℕ, zero, suc, Text, str, true, false, not, List, [],
  ◌∷◌, ◌++◌, ◌==◌, if◌then◌else◌, same, starts_with, int_of, strip, decimal, Exec, runtime_error,
  value_error, pure, raise, raise_if, or_raise, ok, ◌>>=◌, ◌>>◌,
}
use mathlib.Core.Option
use milvus_onprem.Host.{Host, call}
use milvus_onprem.Host.Shell.{cluster_env_path, in_repo, joined, node_dir}
use milvus_onprem.Joining.Settings.{read_cluster_env_value}

-- `HEALTH_TIMEOUT_S` in rounds of 3 seconds.
abbrev pub health_rounds : ℕ
health_rounds = 60

-- `_milvus_services`, of the tag and the mode.
unfoldable pub milvus_services_of : Text → Text → List Text
unfolding starts_with same
milvus_services_of tag mode =
    if starts_with (str "v2.5") tag
    then str "mixcoord" ∷ str "proxy" ∷ str "querynode" ∷ str "datanode" ∷ str "indexnode" ∷ []
    else if same mode (str "distributed")
    then str "mixcoord" ∷ str "proxy" ∷ str "querynode" ∷ str "datanode" ∷ str "streamingnode" ∷ []
    else str "milvus" ∷ []

-- The digits of a text that has single underscores between digits, at most; `after` is whether the
-- character before is a digit.
unfoldable pub digits_only : Bool → Text → Option Text
unfolding is_digit
digits_only after [] = if after then some [] else none
digits_only after (c ∷ s) =
    let rest = digits_only (is_digit c) s in
    if is_digit c then Option.map (λ r. c ∷ r) rest else if c == b'_' && after then rest else none

unfoldable pub unsigned : Text → Option ℕ
unfolding digits_only int_of
unsigned s = elim (digits_only false s) [ none ↦ none | some digits ↦ int_of digits ]

abbrev pub negative : ℕ → Text
negative zero = str "0"
negative (suc n) = b'-' ∷ decimal (suc n)

-- What an f-string prints of `int(text)`, where that does not raise, for a text in ASCII without spaces
-- round it.
unfoldable pub printed_int : Text → Option Text
unfolding unsigned decimal
printed_int [] = none
printed_int (c ∷ s) =
    if c == b'-'
    then Option.map negative (unsigned s)
    else if c == b'+'
    then Option.map decimal (unsigned s)
    else Option.map decimal (unsigned (c ∷ s))

-- `value or default`
abbrev pub or_default : Text → Text → Text
or_default [] default = default
or_default (c ∷ value) default = c ∷ value

-- The `sed` of the tag.
unfoldable pub retag_cmd : Text → Text
unfolding in_repo
retag_cmd target = in_repo (
    str
      "./milvus-onprem render --version >/dev/null 2>&1; sed -i 's|^MILVUS_IMAGE_TAG=.*|MILVUS_IMAGE_TAG="
    ++ (target ++ str "|' /repo/cluster.env"))

-- `docker compose` on the rendered file of a node.
unfoldable pub compose_of : Text → Text → Text
unfolding in_repo node_dir
compose_of node_name args = in_repo (
    str "docker compose --project-name "
    ++ (node_name ++ (str " -f " ++ (node_dir node_name ++ (str "/docker-compose.yml " ++ args)))))

module _ (host : Host) where
  open host.etcd use {State}

  -- `_read_kv`
  unfoldable pub read_kv : Text → State → Text
  unfolding read_cluster_env_value
  read_kv key s = read_cluster_env_value (host.file s cluster_env_path ∷ []) key []

  abbrev pub reads : Text → Exec State Text
  reads key s = (ok (read_kv key s), s)

  -- A command of which a failure is an error.
  unfoldable pub must_run : Text → Exec State (Unit {0})
  must_run cmd = do done ← call (host.run cmd); raise_if (not (done.rc == 0)) runtime_error

  -- The loop at the end of `upgrade_self`.
  unfoldable pub wait_reachable : Text → ℕ → Exec State (Unit {0})
  unfolding in_repo
  wait_reachable port zero = raise runtime_error
  wait_reachable port (suc rounds) = do
    done ←
        call
          (host.run (in_repo (str "timeout 2 bash -c '</dev/tcp/127.0.0.1/" ++ (port ++ str "'"))))
    elim (done.rc == 0) [
      | true ↦ pure tt
      | false ↦ do call (λ s. (tt, host.sleep 3000 s)); wait_reachable port rounds
    ]

  unfoldable pub wait_milvus : Exec State (Unit {0})
  unfolding wait_reachable strip printed_int
  wait_milvus = do
    text ← reads (str "MILVUS_PORT")
    port ← or_raise (printed_int (strip (or_default text (str "19530")))) value_error
    wait_reachable port health_rounds

  -- Steps 3 and 4, of the name of the node and the services.
  unfoldable pub pull_and_recreate : Text → List Text → Exec State (Unit {0})
  unfolding compose_of joined must_run
  pull_and_recreate node_name services = do
    call (host.run (compose_of node_name (str "pull " ++ joined services)))
    must_run (compose_of node_name (str "up -d --force-recreate --no-deps " ++ joined services))

  unfoldable pub recreate_milvus : Exec State (Unit {0})
  unfolding milvus_services_of pull_and_recreate
  recreate_milvus = do
    node_name ← reads (str "NODE_NAME")
    tag ← reads (str "MILVUS_IMAGE_TAG")
    mode ← reads (str "MODE")
    pull_and_recreate node_name (milvus_services_of tag (or_default mode (str "standalone")))

  -- `upgrade_self`
  unfoldable pub upgrade_self : Text → Exec State (Unit {0})
  unfolding retag_cmd in_repo must_run recreate_milvus wait_milvus
  upgrade_self target = do
    must_run (retag_cmd target)
    must_run (in_repo (str "./milvus-onprem render"))
    recreate_milvus
    wait_milvus
