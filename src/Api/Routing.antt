-- ===== src/Api/Routing.antt =====
-- daemon/api.py: what the routes that write do on a follower.
use milvus_onprem.Base.{ℕ, Text, str, false, Option, ◌≡◌, ap, ◌∙◌, arith, Exec, bind-ind}
use milvus_onprem.Host.{Host}
use milvus_onprem.Etcd.{EtcdLaws}
use milvus_onprem.Joining.Join.{JoinResult}
use milvus_onprem.Jobs.Job.{Job}
use milvus_onprem.Api.Replies.{Reply, leader_key, leader_ip, to_leader, redirect_or_503}
use milvus_onprem.Api.Cluster.{ApiContext, post_join, post_job, post_admin_sweep}

module _ (host : Host) (laws : EtcdLaws host.etcd) (ctx : ApiContext) where
  open host.etcd use {State, find}

  -- A follower's answer changes no key.
  abbrev pub KeepsKeys : (A : Type 0) → Exec State (Reply A) → State → Type 0
  KeepsKeys A route s = (j : Text) → find (route s).1 j ≡ find s j

  to_leader-KeepsKeys :
      (A : Type 0) (path : Text) (route : Exec State (Reply A)) (s : State)
      → route s ≡ to_leader host ctx.config ctx.loads_leader path s
      → KeepsKeys A route s
  unfolding to_leader
  to_leader-KeepsKeys A path route s e j = ap (λ p. find p.1 j) e ∙ kept
    where
      kept : find (to_leader host ctx.config ctx.loads_leader {A = A} path s).1 j ≡ find s j
      kept =
          bind-ind (λ t. find t j ≡ find s j) (host.etcd.get leader_key)
            (λ raw t. (
              redirect_or_503 host ctx.config ctx.loads_leader {A = A} path
                  (leader_ip ctx.loads_leader raw),
              t,
            ))
            s (λ raw f. laws.get_keeps leader_key j s) (laws.get_keeps leader_key j s)

  join-follower :
      (ip : Text) (hostname : Option Text) (s : State)
      → ctx.is_leader ≡ false
      → post_join host ctx ip hostname s
        ≡ to_leader host ctx.config ctx.loads_leader (str "/join") s
  unfolding post_join
  join-follower ip hostname s h = ground (arith, h)

  job-follower :
      (job_type params : Text) (s : State)
      → ctx.is_leader ≡ false
      → post_job host ctx job_type params s
        ≡ to_leader host ctx.config ctx.loads_leader (str "/jobs") s
  unfolding post_job
  job-follower job_type params s h = ground (arith, h)

  sweep-follower :
      (s : State)
      → ctx.is_leader ≡ false
      → post_admin_sweep host ctx s
        ≡ to_leader host ctx.config ctx.loads_leader (str "/admin/sweep") s
  unfolding post_admin_sweep
  sweep-follower s h = ground (arith, h)

  -- On a follower, a join, a job and a sweep change no key of etcd.
  follower-KeepsKeys :
      (ip job_type params : Text) (hostname : Option Text) (s : State)
      → ctx.is_leader ≡ false
      → KeepsKeys JoinResult (post_join host ctx ip hostname) s
        × (KeepsKeys Job (post_job host ctx job_type params) s
            × KeepsKeys (ℕ × ℕ) (post_admin_sweep host ctx) s)
  follower-KeepsKeys ip job_type params hostname s h = (
    to_leader-KeepsKeys JoinResult (str "/join") (post_join host ctx ip hostname) s
        (join-follower ip hostname s h),
    (
      to_leader-KeepsKeys Job (str "/jobs") (post_job host ctx job_type params) s
          (job-follower job_type params s h),
      to_leader-KeepsKeys (ℕ × ℕ) (str "/admin/sweep") (post_admin_sweep host ctx) s
          (sweep-follower s h),
    ),
  )
