-- ===== src/Api/Cluster.antt =====
-- daemon/api.py: the routes of the cluster and of the jobs.
use milvus_onprem.Base.{
  ℕ, Text, str, Dict, Bool, true, false, Option, none, some, List, [], ◌∷◌, ◌++◌, length, decimal,
  sort_by, text_leb, if◌then◌else◌, Error, join_error, value_error, permission_error, Exec, pure,
  ◌>>=◌,
}
use milvus_onprem.Host.{Host}
use milvus_onprem.Config.{DaemonConfig}
use milvus_onprem.Topology.{Info, ip_of, has_ip}
use milvus_onprem.Joining.Join.{JoinContext, JoinResult, handle_join}
use milvus_onprem.Jobs.Job.{Job, JobState, JobJson}
use milvus_onprem.Jobs.Manager
use milvus_onprem.Jobs.Manager.{list_jobs, prune_old, prune_stuck_running, create, cancels}
use milvus_onprem.Handlers.Dispatch.{daemon_url}
use milvus_onprem.Api.Replies.{
  LeaderJson, no_json, Reply, answered, refused, leader_key, catching, to_leader,
}

-- `health`
pub record Health : Type 0 where
  pub node : Text
  pub ip : Text
  pub is_leader : Bool
  pub peer_count : ℕ

unfoldable pub health : DaemonConfig → Bool → Dict Info → Health
health config is_leader peers = record {
  node = config.node_name;
  ip = config.local_ip;
  is_leader = is_leader;
  peer_count = length peers;
}

-- The `leader` field of `get_leader`: `None`, the JSON value of the entry, or the raw text with a warning.
pub data LeaderView : Type 0 where
  no_leader : LeaderView
  leader_entry : Text → LeaderView
  unparsable : Text → LeaderView

unfoldable pub leader_view : (Text → LeaderJson) → Option Text → LeaderView
leader_view loads none = no_leader
leader_view loads (some raw) = elim (loads raw) [ no_json ↦ unparsable raw | _ ↦ leader_entry raw ]

-- The URLs of one peer, of the ports of Milvus, of the load balancer and of MinIO.
pub record PeerUrls : Type 0 where
  pub node : Text
  pub milvus : Text
  pub lb : Text
  pub minio_api : Text
  pub control_plane : Text

abbrev with_port : Text → ℕ → Text
with_port ip port = ip ++ (b':' ∷ decimal port)

abbrev pub name_order : Text × Info → Text × Info → Bool
name_order a b = text_leb a.0 b.0

module _ (config : DaemonConfig) (milvus_port lb_port minio_port : ℕ) where
  unfoldable pub urls_of : List (Text × Info) → List PeerUrls
  unfolding decimal daemon_url
  urls_of [] = []
  urls_of ((name, info) ∷ peers) =
      let rest = urls_of peers in
      let ip = ip_of info in
      if has_ip info
      then record {
        node = name;
        milvus = with_port ip milvus_port;
        lb = with_port ip lb_port;
        minio_api = str "http://" ++ with_port ip minio_port;
        control_plane = daemon_url config ip [];
      }
        ∷ rest
      else rest

  -- `get_urls`; `sorted` orders the names as texts.
  unfoldable pub get_urls : Dict Info → List PeerUrls
  unfolding sort_by text_leb urls_of
  get_urls peers = urls_of (sort_by name_order peers)

-- What the routes read: the job manager's JSON, the types with a handler, and the ids and times that
-- come from outside.
pub record ApiContext : Type 0 where
  pub config : DaemonConfig
  pub is_leader : Bool
  pub loads_leader : Text → LeaderJson
  pub join : JoinContext
  pub json : JobJson
  pub handlers : List Text
  pub jid : Text
  pub now : ℕ

-- The status codes of `post_join` and `post_job`.
unfoldable pub join_status : Error → Option ℕ
join_status join_error = some 409
join_status _ = none

unfoldable pub job_status : Error → Option ℕ
job_status value_error = some 400
job_status permission_error = some 409
job_status _ = none

module _ (host : Host) (ctx : ApiContext) where
  open host.etcd use {State}

  -- `get_leader`
  unfoldable pub get_leader : Exec State (Reply LeaderView)
  unfolding leader_view
  get_leader = do raw ← host.etcd.get leader_key; pure (answered (leader_view ctx.loads_leader raw))

  -- `post_join`
  unfoldable pub post_join : Text → Option Text → Exec State (Reply JoinResult)
  unfolding to_leader catching join_status handle_join
  post_join ip hostname = elim ctx.is_leader [
    | false ↦ to_leader host ctx.config ctx.loads_leader (str "/join")
    | true ↦ catching join_status (handle_join host.etcd ctx.join ip hostname)
  ]

  -- `list_jobs`
  unfoldable pub get_jobs : Option JobState → Exec State (Reply (List Job))
  unfolding list_jobs
  get_jobs state = do items ← list_jobs ctx.json host.etcd state; pure (answered items)

  abbrev pub or_404 : Option Job → Reply Job
  or_404 none = refused 404
  or_404 (some job) = answered job

  -- `get_job`
  unfoldable pub get_job : Text → Exec State (Reply Job)
  unfolding Manager.get
  get_job job_id = do job ← Manager.get ctx.json host.etcd job_id; pure (or_404 job)

  -- `post_job`
  unfoldable pub post_job : Text → Text → Exec State (Reply Job)
  unfolding to_leader catching job_status create
  post_job job_type params = elim ctx.is_leader [
    | false ↦ to_leader host ctx.config ctx.loads_leader (str "/jobs")
    | true ↦ catching job_status (
        create ctx.json host.etcd ctx.handlers ctx.is_leader ctx.config.node_name ctx.jid job_type
          params ctx.now)
  ]

  -- `cancel_job`, of the task of the job, if this daemon has one
  unfoldable pub cancel_job : Option Bool → Reply Bool
  unfolding cancels
  cancel_job task = answered (cancels task)

  -- Both sweeps of `post_admin_sweep`, with their counts.
  unfoldable pub sweep_now : Exec State (ℕ × ℕ)
  unfolding prune_old prune_stuck_running
  sweep_now = do
    pruned_terminated ← prune_old ctx.json host.etcd ctx.now ctx.config.jobs_retention_s
    pruned_stuck ←
        prune_stuck_running ctx.json host.etcd ctx.now ctx.config.jobs_heartbeat_timeout_s
    pure (pruned_terminated, pruned_stuck)

  -- `post_admin_sweep`
  unfoldable pub post_admin_sweep : Exec State (Reply (ℕ × ℕ))
  unfolding to_leader sweep_now catching
  post_admin_sweep = elim ctx.is_leader [
    | false ↦ to_leader host ctx.config ctx.loads_leader (str "/admin/sweep")
    | true ↦ catching (λ e. none) sweep_now
  ]
