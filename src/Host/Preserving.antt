-- ===== src/Host/Preserving.antt =====
-- What the actions of handlers and workers preserve, put together from what their parts do. A property
-- that commands preserve and requests need not tells which of them an action makes.
use milvus_onprem.Base.{
  ℕ, zero, suc, Bool, true, false, Option, none, some, ltb, Bool-cases, Option-cases, inl, inr,
  Error, Exec, raise_if, or_raise, ◌>>=◌, try_else, bind-ind, try_else-ind,
}
use milvus_onprem.Host.{Host}
use milvus_onprem.Host.Waiting.{wait_until, wait_late, wait_finished, wait_again}

module _ {State : Type 0} (P : State → Type 0) where
  module _ {A : Type 0} where
    abbrev pub Preserves : Exec State A → Type 0
    Preserves m = (s : State) → P s → P (m s).1

    abbrev pub PreservesCall : (State → A × State) → Type 0
    PreservesCall m = (s : State) → P s → P (m s).1

  module _ {A B : Type 0} where
    pub bind-Preserves :
        (m : Exec State A) (k : A → Exec State B)
        → Preserves m
        → ((a : A) → Preserves (k a))
        → Preserves (m >>= k)
    bind-Preserves m k hm hk s h = bind-ind P m k s (λ a e. hk a (m s).1 (hm s h)) (hm s h)

    pub try_else-Preserves :
        (m : Exec State A) (k : A → Exec State B) (f : Error → Exec State B)
        → Preserves m
        → ((a : A) → Preserves (k a))
        → ((e : Error) → Preserves (f e))
        → Preserves (try_else m k f)
    try_else-Preserves m k f hm hk hf s h =
        try_else-ind P m k f s (λ a. hk a (m s).1 (hm s h)) (λ e. hf e (m s).1 (hm s h))

  pub cond-Preserves :
      {A : Type 0} (b : Bool) (m n : Exec State A)
      → Preserves m
      → Preserves n
      → Preserves (elim b [ true ↦ m | false ↦ n ])
  cond-Preserves true m n hm hn = hm
  cond-Preserves false m n hm hn = hn

module _ {State : Type 0} (P : State → Type 0) {B : Type 0} where
  pub raise_if-Preserves :
      (c : Bool) (e : Error) (k : Unit {0} → Exec State B)
      → Preserves P (k tt)
      → Preserves P (raise_if c e >>= k)
  raise_if-Preserves true e k h s hp = hp
  raise_if-Preserves false e k h s hp = h s hp

module _ {State : Type 0} (P : State → Type 0) {A B : Type 0} where
  pub or_raise-Preserves :
      (o : Option A) (e : Error) (k : A → Exec State B)
      → ((a : A) → Preserves P (k a))
      → Preserves P (or_raise o e >>= k)
  or_raise-Preserves none e k h s hp = hp
  or_raise-Preserves (some a) e k h s hp = h a s hp

module _ (host : Host) (X : Type 0) (deadline pause : ℕ) where
  pub wait_until-keeps :
      (P : host.etcd.State → Type 0) (fuel : ℕ)
      (step : X → host.etcd.State → Option X × host.etcd.State)
      → ((x : X) (s : host.etcd.State) → P s → P (step x s).1)
      → ((s : host.etcd.State) → P s → P (host.sleep pause s))
      → (x : X) (s : host.etcd.State) → P s
      → P (wait_until host X deadline pause fuel step x s).1
  wait_until-keeps P zero step hs hp x s h = unfold wait_until in h
  wait_until-keeps P (suc fuel) step hs hp x s h = elim (Bool-cases (ltb (host.time s) deadline)) [
    | inr late ↦ rw (wait_late host X deadline pause fuel step x s late) h
    | inl early ↦ elim (Option-cases (step x s).0) [
      | inl e ↦ rw (wait_finished host X deadline pause fuel step x s early e) (hs x s h)
      | inr (y, e) ↦ rw (wait_again host X deadline pause fuel step x y s early e) (
          wait_until-keeps P fuel step hs hp y (host.sleep pause (step x s).1)
            (hp (step x s).1 (hs x s h)))
    ]
  ]
