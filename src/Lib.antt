-- ===== src/Lib.antt =====
-- The control-plane daemon of milvus-onprem (daemon/): one daemon on each host of a Milvus cluster. The
-- daemons keep the cluster's state in etcd, elect a leader among them, let hosts join and leave, run
-- long operations as jobs, and watch the containers of their host and the other hosts.
--
-- The parts, and the files that model them:
--
-- - Base and Base/: what Python has and the parts share: texts as lists of code points, the string
--   methods the code uses, dicts as association lists in insertion order, the stable `sorted`, and
--   actions that may raise on a state that comes back after a raise too.
-- - Config: `DaemonConfig` of daemon/config.py.
-- - Etcd: the calls of `EtcdClient` (daemon/etcd_client.py) that the other parts use, as a record of
--   operations on a state, with laws: etcd is a service outside the repository. Any call may raise at
--   any time. EtcdClient/Prefix and EtcdClient/Post are the code of the client itself that computes:
--   `_prefix_end`, and `_post` with its retries; EtcdClient/Retry is about them.
-- - Topology: the entries under the topology prefix and their decoding (daemon/topology.py); Watcher is
--   `TopologyWatcher`; Decoding and Following are about them.
-- - Joining: daemon/joining.py. Names allocates `node-N`, Peers orders the peers after a join, Env reads
--   the leader's cluster.env and writes the joiner's, Join is `handle_join`. Allocation, PeerOrder,
--   EnvReading, EnvRoundtrip, JoinSafety, Admission and JoinEffects are about them. Settings reads one setting, as
--   daemon/workers/remove_node.py does.
-- - Watchdog: daemon/watchdog.py. Local is `LocalComponentWatchdog`, with LocalGuard, LocalRuns and
--   LocalFaults about it; Peers is `PeerReachabilityWatchdog`, with PeerAlerts and PeerMigration about it.
-- - Jobs: daemon/jobs.py. Job is the record with its log and progress, Manager is `JobsManager`,
--   Registry the types; Logs, Listing, Sweeps and Lifecycle are about them.
-- - Leader: daemon/leader.py. Elector is `LeaderElector`, Terms is about it.
-- - Host: what the handlers and workers reach outside the daemon, as a record of operations on a state
--   with laws: etcd, bash commands, requests to other daemons, the clock and files. Shell are the texts
--   of commands (`shlex.quote`, `str.split`), Waiting the loops that wait for a deadline, Preserving the
--   rules for what every call of an action preserves.
-- - Handlers: daemon/handlers.py. EnvFile is `_upsert_kv`, Peers the lists of peers, Render
--   `_sync_cluster_env_and_render`, Minio `recreate_minio_local`, Pulsar `apply_pulsar_host_change`,
--   Dispatch `_dispatch` with the sweep. EnvLines, EnvUpsert, EnvPeers, PeerLists and Effects are about
--   them.
-- - RemoveNode: daemon/workers/remove_node.py. Guards are the checks before a removal, Decommission the
--   state of a MinIO pool, Polling the start of the decommission and its poll, Settling the waits for
--   the other peers, Removal is `run_remove_node`; Refusals, Draining, Keeping, Removed and Waits are
--   about them.
-- - MigratePulsar: daemon/workers/migrate_pulsar.py. Rounds are the requests to the peers, Migration is
--   `run_migrate_pulsar`; Outcomes and Refused are about it.
-- - VersionUpgrade: daemon/workers/version_upgrade.py. Versions reads tags, Local is `upgrade_self`,
--   Rollout `run_version_upgrade`; Order and Anchor are about it.
-- - RotateToken: daemon/workers/rotate_token.py. Rotation is `run_rotate_token` and `rotate_self`;
--   Guarded is about it.
-- - Backups: daemon/workers/backup_etcd.py, create_backup.py, export_backup.py, restore_backup.py and
--   _shell_helpers.py. Running is `run_in_repo`, Commands the arguments of each job; Quoting and Outcomes
--   are about them. Quoting has the rules by which a POSIX shell reads a word.
-- - Api: daemon/api.py. Replies are the answers and the redirect to the leader, Cluster the routes of
--   the cluster and of jobs, Status those that show what a daemon knows, Internal those that the daemons
--   call of each other; Reading and Routing are about them.
-- - Main: daemon/main.py. Startup is what a daemon registers, and a round of each sweep; Registered is
--   about it.
-- - Auth: `require_token` of daemon/auth.py.
-- - Tests: concrete inputs, an etcd in memory and a host on it that have the laws.
--
-- How they interact: Join and the checks of RemoveNode read the topology through Etcd and decode it as
-- Topology does; the peer watchdog reads the mirror, cluster.env (Joining/Settings) and the order of the
-- names (Joining/Names); Jobs store and sweep through Etcd. The routes of Api call the joins, the jobs,
-- the handlers and what the workers do on one peer; the workers call the routes of other daemons as
-- requests of the Host.
--
-- Each operation is a function with the source's name, on the state it changes: etcd's state for joins
-- and jobs, a record of the attributes for the watchdogs, the mirror and the elector. What comes from
-- outside (clocks, probes, exit codes, replies, the JSON library, the text of files) is an argument.
--
-- Bounds and fuel: `allocate_next_name` searches one round more than there are names, which is enough,
-- as a free number is among them. `wait_cluster_healthy` makes the rounds that fit before its deadline,
-- which are a number of the context. The waits of Host/Waiting have one round more than pauses fit
-- before the deadline, and the poll of a removal has 361, as it gives up once 1800 seconds have passed in
-- steps of 5; that both are enough is proved. An upgrade waits 60 rounds of 3 seconds, as its loop
-- counts them. Everything else is structural. Numbers are unbounded, as in Python; times are whole
-- seconds, in Host milliseconds, and the progress of a job counts thousandths.
--
-- Not modelled: the texts of messages and logs; asyncio scheduling within one call, but for the events
-- of a job's execution, which come in any order, and requests that run in parallel, which are made one
-- after the other; the start and stop of tasks; FastAPI; the owner and mode of files; the progress
-- that workers report; the lines that a command of a backup streams to the log; the shell CLI. Numbers
-- in texts are read with ASCII digits alone. An entry of the topology is a JSON object, as the daemons
-- write it, or no JSON: where other JSON would raise AttributeError, the model takes it for no JSON;
-- stored jobs and the leader's entry have all the cases, but for the states of jobs, which are the
-- five that the daemons write. The watch of the mirror delivers some of the writes, as it starts after
-- the seed and from the present after each reconnect.
pub mod Base
pub mod Etcd
pub mod Host
pub mod Handlers
pub mod Topology
pub mod EtcdClient
pub mod Config
pub mod Joining
pub mod Watchdog
pub mod Jobs
pub mod Leader
pub mod RemoveNode
pub mod MigratePulsar
pub mod VersionUpgrade
pub mod RotateToken
pub mod Backups
pub mod Api
pub mod Main
pub mod Auth
mod Tests
