-- ===== src/RemoveNode/Draining.antt =====
-- daemon/workers/remove_node.py: how the poll of the decommission ends.
use milvus_onprem.Base.{
  ℕ, zero, suc, ◌+◌, ◌*◌, ◌≤◌, ap, Text, Option, some, List, ◌≡◌, ◌⊎◌, inl, inr, refl, sym, ◌∙◌,
  true, false, leb, arith, Bool-cases, ok, err, Exec, runtime_error,
}
use milvus_onprem.Host.{Host}
use milvus_onprem.RemoveNode.Decommission.{
  PoolState, not_started, active, complete, failed, canceled, missing, Parsed,
}
use milvus_onprem.RemoveNode.Removal.{poll_rounds}
use milvus_onprem.RemoveNode.Polling.{
  Verdict, settled, failing, pending, judge, read_state, wait_decommissioned,
}

pub Verdict-cases : (v : Verdict) → (v ≡ settled) ⊎ ((v ≡ failing) ⊎ (v ≡ pending))
Verdict-cases settled = inl refl
Verdict-cases failing = inr (inl refl)
Verdict-cases pending = inr (inr refl)

module _ (host : Host) (env_files : List (Option Text)) (loads : Text → Parsed) (ip : Text) where
  open host.etcd use {State}

  abbrev pub poll : ℕ → ℕ → Exec State (Option PoolState)
  poll = wait_decommissioned host env_files loads ip

  abbrev pub seen : State → PoolState
  seen s = (read_state host env_files loads ip s).0

  abbrev pub next : State → State
  next s = (read_state host env_files loads ip s).1

  pub poll-settled :
      (fuel e : ℕ) (s : State)
      → judge (seen s) ≡ settled
      → poll (suc fuel) e s ≡ (ok (some (seen s)), next s)
  unfolding wait_decommissioned
  poll-settled fuel e s h = ground (arith, h)

  pub poll-failing :
      (fuel e : ℕ) (s : State)
      → judge (seen s) ≡ failing
      → poll (suc fuel) e s ≡ (err runtime_error, next s)
  unfolding wait_decommissioned
  poll-failing fuel e s h = ground (arith, h)

  pub poll-late :
      (fuel e : ℕ) (s : State)
      → judge (seen s) ≡ pending
      → leb 1800 e ≡ true
      → poll (suc fuel) e s ≡ (err runtime_error, next s)
  unfolding wait_decommissioned
  poll-late fuel e s h l = ground (arith, h, l)

  pub poll-again :
      (fuel e : ℕ) (s : State)
      → judge (seen s) ≡ pending
      → leb 1800 e ≡ false
      → poll (suc fuel) e s ≡ poll fuel (e + 5) (host.sleep 5000 (next s))
  unfolding wait_decommissioned
  poll-again fuel e s h l = ground (arith, h, l)

  -- How a poll may end.
  abbrev pub Ended : ℕ → ℕ → State → Type 0
  Ended fuel e s =
      ((poll fuel e s).0 ≡ err runtime_error)
      ⊎ (((poll fuel e s).0 ≡ ok (some complete)) ⊎ ((poll fuel e s).0 ≡ ok (some missing)))

  judge-settled : (p : PoolState) → judge p ≡ settled → (p ≡ complete) ⊎ (p ≡ missing)
  unfolding judge
  judge-settled complete h = inl refl
  judge-settled missing h = inr refl
  judge-settled not_started h = absurd (ground (arith, h))
  judge-settled active h = absurd (ground (arith, h))
  judge-settled failed h = absurd (ground (arith, h))
  judge-settled canceled h = absurd (ground (arith, h))

  Ended-settled : (fuel e : ℕ) (s : State) → judge (seen s) ≡ settled → Ended (suc fuel) e s
  Ended-settled fuel e s v = rw (poll-settled fuel e s v) (elim (judge-settled (seen s) v) [
    | inl q ↦ inr (inl (ap (λ p. ok (some p)) q))
    | inr q ↦ inr (inr (ap (λ p. ok (some p)) q))
  ])

  poll-ends : (fuel e : ℕ) (s : State) → 1800 ≤ e + 5 * fuel → Ended (suc fuel) e s
  poll-ends zero e s h = elim (Verdict-cases (judge (seen s))) [
    | inl v ↦ Ended-settled 0 e s v
    | inr (inl v) ↦ inl (rw (poll-failing 0 e s v) refl)
    | inr (inr v) ↦ inl (rw (poll-late 0 e s v (ground (arith, h))) refl)
  ]
  poll-ends (suc fuel) e s h = elim (Verdict-cases (judge (seen s))) [
    | inl v ↦ Ended-settled (suc fuel) e s v
    | inr (inl v) ↦ inl (rw (poll-failing (suc fuel) e s v) refl)
    | inr (inr v) ↦ elim (Bool-cases (leb 1800 e)) [
      | inl l ↦ inl (rw (poll-late (suc fuel) e s v l) refl)
      | inr l ↦
          rw (poll-again (suc fuel) e s v l)
            (poll-ends fuel (e + 5) (host.sleep 5000 (next s)) (omega (arith, h)))
    ]
  ]

  -- At every fuel that is enough the poll does the same.
  poll-fuel :
      (fuel more e : ℕ) (s : State)
      → 1800 ≤ e + 5 * fuel
      → fuel ≤ more
      → poll (suc more) e s ≡ poll (suc fuel) e s
  poll-fuel zero more e s h m = elim (Verdict-cases (judge (seen s))) [
    | inl v ↦ poll-settled more e s v ∙ sym (poll-settled 0 e s v)
    | inr (inl v) ↦ poll-failing more e s v ∙ sym (poll-failing 0 e s v)
    | inr (inr v) ↦
        poll-late more e s v (ground (arith, h)) ∙ sym (poll-late 0 e s v (ground (arith, h)))
  ]
  poll-fuel (suc fuel) zero e s h m = absurd (omega (arith, m))
  poll-fuel (suc fuel) (suc more) e s h m = elim (Verdict-cases (judge (seen s))) [
    | inl v ↦ poll-settled (suc more) e s v ∙ sym (poll-settled (suc fuel) e s v)
    | inr (inl v) ↦ poll-failing (suc more) e s v ∙ sym (poll-failing (suc fuel) e s v)
    | inr (inr v) ↦ elim (Bool-cases (leb 1800 e)) [
      | inl l ↦ poll-late (suc more) e s v l ∙ sym (poll-late (suc fuel) e s v l)
      | inr l ↦
          poll-again (suc more) e s v l
          ∙ poll-fuel fuel more (e + 5) (host.sleep 5000 (next s)) (omega (arith, h))
              (omega (arith, m))
          ∙ sym (poll-again (suc fuel) e s v l)
    ]
  ]

  -- The poll of a decommission ends within its 361 rounds, whatever it reads: it raises RuntimeError, or
  -- it returns that the pool is complete or missing; with more rounds it would do the same.
  pub poll_rounds-enough :
      (s : State)
      → Ended poll_rounds 0 s × ((n : ℕ) → poll (suc (poll_rounds + n)) 0 s ≡ poll poll_rounds 0 s)
  poll_rounds-enough s = (
    poll-ends 360 0 s (omega arith),
    λ n. poll-fuel 360 (361 + n) 0 s (omega arith) (omega arith),
  )
