-- ===== src/Leader/Terms.antt =====
-- daemon/leader.py: the terms of one elector.
use milvus_onprem.Base.{
  ℕ, ◌+◌, ◌≤◌, ◌<◌, true, false, some, List, [], ◌∷◌, All, Bool-cases, Result-cases, ltb, Result,
  ok, err, ◌≡◌, refl, arith, inl, inr, Bool, ◌==◌, ◌++◌, sym, ◌∙◌, if◌then◌else◌,
}
use milvus_onprem.Leader.Elector.{
  Elector, Call, watch, grant, race, keepalive, hold_leadership, Round, lead, follow, run_race,
  cycle, next_backoff, Ran, run_round, run_elector, step_down,
}

-- The round is past the cooldown, is granted the lease and Wins the race.
abbrev pub Wins : Round → Elector → ℕ → Type 0
Wins r e lease =
    (ltb r.now e.skip_race_until ≡ false) × ((r.granted ≡ ok lease) × (r.won ≡ ok true))

cycle-Wins :
    (r : Round) (e : Elector) (lease : ℕ)
    → Wins r e lease
    → ((cycle r e).term
        ≡ some (record e { is_leader = true; lease_id = some lease; term_started_at = some r.now }))
      × ((cycle r e).calls ≡ grant ∷ race lease ∷ hold_leadership lease r.keepalives)
unfolding cycle run_race lead
cycle-Wins r e lease (past, (granted, won)) = rw (past, granted, won) (refl, refl)

-- Every keepalive of a term is of its lease.
hold_leadership-lease :
    (lease : ℕ) (replies : List (Result ℕ))
    → All (λ c. c ≡ keepalive lease) (hold_leadership lease replies)
unfolding hold_leadership
hold_leadership-lease lease [] = tt
hold_leadership-lease lease (err x ∷ replies) = (refl, tt)
hold_leadership-lease lease (ok ttl ∷ replies) =
    (refl, further (ttl == 0) (hold_leadership-lease lease replies))
  where
    further :
        (b : Bool)
        → All (λ c. c ≡ keepalive lease) (hold_leadership lease replies)
        → All (λ c. c ≡ keepalive lease) (if b then [] else hold_leadership lease replies)
    further true h = tt
    further false h = h

lead-won :
    (r : Round) (e : Elector) {held : Elector} (lease : ℕ)
    → (run_race r lease e).term ≡ some held
    → r.won ≡ ok true
unfolding run_race lead follow
lead-won r e lease h = ground (arith, h)

term-won :
    (r : Round) (e held : Elector) → (cycle r e).term ≡ some held → (lease : ℕ) × Wins r e lease
unfolding cycle
term-won r e held h = elim (Bool-cases (ltb r.now e.skip_race_until)) [
  | inl early ↦ absurd (ground (arith, early, h))
  | inr past ↦ elim (Result-cases r.granted) [
    | inr (x, failed) ↦ absurd (ground (arith, past, failed, h))
    | inl (lease, granted) ↦
        let raced : (run_race r lease (record e { lease_id = some lease })).term ≡ some held =
          rw (past, granted) at h in
        (lease, (past, (granted, lead-won r (record e { lease_id = some lease }) lease raced)))
  ]
]

-- However a round of an elector that is no leader ends, it is no leader afterwards.
cycle-is_leader :
    (r : Round) (e : Elector) → e.is_leader ≡ false → (cycle r e).elector.is_leader ≡ false
unfolding cycle run_race lead follow
cycle-is_leader r e h = ground (arith, h)

-- Where a round has a term, it was past the cooldown, was granted a lease, and won the race in which it
-- bound the leader's key to that lease; it leads with that very lease since then, and all that it calls
-- after the race are keepalives of it.
pub cycle-term :
    (r : Round) (e held : Elector)
    → (cycle r e).term ≡ some held
    → (lease : ℕ) × (Wins r e lease
        × ((held
              ≡ record e { is_leader = true; lease_id = some lease; term_started_at = some r.now })
            × ((kept : List Call) × (((cycle r e).calls ≡ grant ∷ race lease ∷ kept)
                  × All (λ c. c ≡ keepalive lease) kept))))
cycle-term r e held h =
    let (lease, won) = term-won r e held h in
    let (led, called) = cycle-Wins r e lease won in
    (
      lease,
      (
        won,
        (
          same_term _ _ (sym h ∙ led),
          (hold_leadership lease r.keepalives, (called, hold_leadership-lease lease r.keepalives)),
        ),
      ),
    )
  where
    same_term : (a b : Elector) → some a ≡ some b → a ≡ b
    same_term a b q = cc q

abbrev pub InBounds : ℕ → Type 0
InBounds n = (1 ≤ n) × (n ≤ 30)

run_round-backoff :
    (r : Round) (s : Ran)
    → InBounds s.backoff
    → All InBounds s.sleeps
    → InBounds (run_round r s).backoff × All InBounds (run_round r s).sleeps
unfolding run_round next_backoff
run_round-backoff r s b a = elim (Result-cases (cycle r s.elector).result) [
  | inl (x, e) ↦ rw (run_round, e) ((omega arith, omega arith), a)
  | inr (x, e) ↦ rw (run_round, e) ((ground (arith, b.0, b.1), ground (arith, b.0, b.1)), (b, a))
]

-- Between rounds that raise, the elector sleeps one second at least and thirty at most, over any rounds.
run_elector-backoff :
    (rs : List Round) (s : Ran)
    → InBounds s.backoff
    → All InBounds s.sleeps
    → InBounds (run_elector rs s).backoff × All InBounds (run_elector rs s).sleeps
unfolding run_elector
run_elector-backoff [] s b a = (b, a)
run_elector-backoff (r ∷ rs) s b a =
    let (c, d) = run_round-backoff r s b a in run_elector-backoff rs (run_round r s) c d

-- The calls of etcd in all of some rounds.
abbrev pub run_calls : List Round → Ran → List Call
run_calls [] s = []
run_calls (r ∷ rs) s = (cycle r s.elector).calls ++ run_calls rs (run_round r s)

-- A round in the cooldown only watches, and leaves it as it is.
cooling :
    (r : Round) (s : Ran)
    → r.now < s.elector.skip_race_until
    → ((cycle r s.elector).calls ≡ watch ∷ [])
      × ((run_round r s).elector.skip_race_until ≡ s.elector.skip_race_until)
unfolding cycle run_round
cooling r s early = (ground (arith, early), ground (arith, early))

run_calls-cooling :
    (rs : List Round) (s : Ran) (until : ℕ)
    → s.elector.skip_race_until ≡ until
    → All (λ r. r.now < until) rs
    → All (λ c. c ≡ watch) (run_calls rs s)
run_calls-cooling [] s until e h = tt
run_calls-cooling (r ∷ rs) s until e h =
    let (called, kept) = cooling r s (omega (arith, e, h.0)) in
    rw called (refl, run_calls-cooling rs (run_round r s) until (kept ∙ e) h.1)

-- After a `step_down` that returned True, all rounds that begin before the cooldown is over, however
-- many, only watch: none of them asks for a lease or races. And the elector was the leader.
pub step_down-abstains :
    (now cooldown_s backoff : ℕ) (sleeps : List ℕ) (revoked : Result (Unit {0})) (e : Elector)
    (rs : List Round)
    → (step_down now cooldown_s revoked e).0 ≡ true
    → All (λ r. r.now < now + cooldown_s) rs
    → All
        (λ c. c ≡ watch)
        (run_calls rs (record {
          elector = (step_down now cooldown_s revoked e).1;
          backoff = backoff;
          sleeps = sleeps;
        }))
      × ((e.is_leader ≡ true) × (revoked ≡ ok tt))
step_down-abstains now cooldown_s backoff sleeps revoked e rs h early =
    (run_calls-cooling rs _ (now + cooldown_s) stepped.0 early, stepped.1)
  where
    stepped :
        ((step_down now cooldown_s revoked e).1.skip_race_until ≡ now + cooldown_s)
        × ((e.is_leader ≡ true) × (revoked ≡ ok tt))
    stepped = unfold step_down in (ground (arith, h), (ground (arith, h), ground (arith, h)))
