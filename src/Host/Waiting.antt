-- ===== src/Host/Waiting.antt =====
-- The waiting loops of daemon/handlers.py and daemon/workers/: `while time() < deadline`, with a sleep
-- at the end of the body. Such a loop ends, as time goes on.
use milvus_onprem.Base.{
  ℕ, zero, suc, ◌+◌, ◌*◌, ◌≤◌, ◌≡◌, ◌≢◌, true, false, Option, none, some, ltb, arith, Bool-cases,
  Option-cases, inl, inr,
}
use milvus_onprem.Host.{Host, HostLaws}

-- How a wait on `X` ends: with a `return` in the body, at the deadline with what is left, or, in the
-- model only, without fuel.
pub data Waited (X : Type 0) : Type 0 where
  finished : Waited X
  timed_out : X → Waited X
  out_of_fuel : Waited X

module _ (host : Host) (X : Type 0) (deadline pause : ℕ) where
  open host.etcd use {State}

  -- The body, before its sleep: what is left to wait for, or `none` to return.
  abbrev pub BodyStep : Type 0
  BodyStep = X → State → Option X × State

  unfoldable pub wait_until : ℕ → BodyStep → X → State → Waited X × State
  wait_until zero step x s = (out_of_fuel, s)
  wait_until (suc fuel) step x s =
      let (left, t) = step x s in
      elim (ltb (host.time s) deadline) [
        | false ↦ (timed_out x, s)
        | true ↦ elim left [
          | none ↦ (finished, t)
          | some y ↦ wait_until fuel step y (host.sleep pause t)
        ]
      ]

  pub wait_late :
      (fuel : ℕ) (step : BodyStep) (x : X) (s : State)
      → ltb (host.time s) deadline ≡ false
      → wait_until (suc fuel) step x s ≡ (timed_out x, s)
  unfolding wait_until
  wait_late fuel step x s late = ground (arith, late)

  pub wait_finished :
      (fuel : ℕ) (step : BodyStep) (x : X) (s : State)
      → ltb (host.time s) deadline ≡ true
      → (step x s).0 ≡ none
      → wait_until (suc fuel) step x s ≡ (finished, (step x s).1)
  unfolding wait_until
  wait_finished fuel step x s early e = ground (arith, early, e)

  pub wait_again :
      (fuel : ℕ) (step : BodyStep) (x y : X) (s : State)
      → ltb (host.time s) deadline ≡ true
      → (step x s).0 ≡ some y
      → wait_until (suc fuel) step x s ≡ wait_until fuel step y (host.sleep pause (step x s).1)
  unfolding wait_until
  wait_again fuel step x y s early e = ground (arith, early, e)

  -- What a wait of this pause needs to end by itself.
  abbrev pub Later : BodyStep → Type 0
  Later step = (x : X) (s : State) → host.time s ≤ host.time (step x s).1

  pub wait_until-ends :
      (laws : HostLaws host) (fuel : ℕ) (step : BodyStep) (x : X) (s : State)
      → Later step
      → deadline ≤ host.time s + fuel * pause
      → (wait_until (suc fuel) step x s).0 ≢ out_of_fuel
  wait_until-ends laws zero step x s later h =
      rw (wait_late zero step x s (ground (arith, h))) (ground arith)
  wait_until-ends laws (suc fuel) step x s later h =
      elim (Bool-cases (ltb (host.time s) deadline)) [
        | inr late ↦ rw (wait_late (suc fuel) step x s late) (ground arith)
        | inl early ↦ elim (Option-cases (step x s).0) [
          | inl e ↦ rw (wait_finished (suc fuel) step x s early e) (ground arith)
          | inr (y, e) ↦ rw (wait_again (suc fuel) step x y s early e) (
              wait_until-ends laws fuel step y (host.sleep pause (step x s).1) later
                (omega (arith, later x s, laws.sleep_later pause (step x s).1)))
        ]
      ]
