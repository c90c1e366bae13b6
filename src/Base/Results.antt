-- ===== src/Base/Results.antt =====
-- Python code that may raise: a result, and actions on a state that comes back after a raise too,
-- since what was written stays written. The texts of the messages are left out.
use mathlib.Core.Bool.{Bool}
use mathlib.Core.Logic.{◌⊎◌, inl, inr}
use mathlib.Core.Path.{◌≡◌, refl, sym, ap}
use mathlib.Core.Option.{Option, none, some}
use native.Mathlib.Omega.{arith}
use milvus_onprem.Base.Tests.{if◌then◌else◌}

-- The exception classes that the daemon raises. `unavailable` stands for what the etcd client and
-- the HTTP client raise when a call does not go through.
pub data Error : Type 0 where
  join_error value_error permission_error runtime_error os_error wrong_type attribute_error
        unavailable :
      Error

pub data Result {ℓ} (A : Type ℓ) : Type ℓ where
  ok : A → Result A
  err : Error → Result A

pub Result-cases {ℓ} :
    {A : Type ℓ} (x : Result A) → ((a : A) × (x ≡ ok a)) ⊎ ((e : Error) × (x ≡ err e))
Result-cases (ok a) = inl (a, refl)
Result-cases (err e) = inr (e, refl)

abbrev pub Exec {ℓ κ} : Type ℓ → Type κ → Type (ℓ ⊔ κ)
Exec S A = S → Result A × S

module _ {ℓ κ} {S : Type ℓ} {A : Type κ} where
  abbrev pub pure : A → Exec S A
  pure a s = (ok a, s)

  abbrev pub raise : Error → Exec S A
  raise e s = (err e, s)

  abbrev pub lift : Result A → Exec S A
  lift r s = (r, s)

  abbrev pub or_raise : Option A → Error → Exec S A
  or_raise none e = raise e
  or_raise (some a) e = pure a

module _ {ℓ κ μ} {S : Type ℓ} {A : Type κ} {B : Type μ} where
  infixl 5 ◌>>=◌ ◌>>◌
  abbrev pub ◌>>=◌ : Exec S A → (A → Exec S B) → Exec S B
  ◌>>=◌ m f s = let (r, t) = m s in elim r [ ok a ↦ f a t | err e ↦ (err e, t) ]

  abbrev pub ◌>>◌ : Exec S A → Exec S B → Exec S B
  m >> k = m >>= λ _. k

  -- `try: m; k(a) except Exception: h`, where only `m` is inside the `try`.
  abbrev pub try_else : Exec S A → (A → Exec S B) → (Error → Exec S B) → Exec S B
  try_else m k h s = let (r, t) = m s in elim r [ ok a ↦ k a t | err e ↦ h e t ]

module _ {ℓ} {S : Type ℓ} where
  abbrev pub raise_if : Bool → Error → Exec S (Unit {0})
  raise_if c e s = (if c then err e else ok tt, s)

module _ {ℓ κ μ ν} {S : Type ℓ} {A : Type κ} {B : Type μ} (P : S → Type ν) where
  cases-ind :
      (k : A → Exec S B) (h : Error → Exec S B) (p : Result A × S) (s : S)
      → ((a : A) → P (k a p.1).1)
      → ((e : Error) → P (h e p.1).1)
      → P (try_else (λ _. p) k h s).1
  cases-ind k h (ok a, t) s hk he = hk a
  cases-ind k h (err e, t) s hk he = he e

  -- The state after a `try`, by its two ways on.
  pub try_else-ind :
      (m : Exec S A) (k : A → Exec S B) (h : Error → Exec S B) (s : S)
      → ((a : A) → P (k a (m s).1).1)
      → ((e : Error) → P (h e (m s).1).1)
      → P (try_else m k h s).1
  try_else-ind m k h s hk he = cases-ind k h (m s) s hk he

  bind_cases-ind :
      (k : A → Exec S B) (p : Result A × S) (s : S)
      → ((a : A) → p.0 ≡ ok a → P (k a p.1).1)
      → P p.1
      → P (((λ _. p) >>= k) s).1
  bind_cases-ind k (ok a, t) s hk h = hk a refl
  bind_cases-ind k (err e, t) s hk h = h

  -- The state after an action and what follows it.
  pub bind-ind :
      (m : Exec S A) (k : A → Exec S B) (s : S)
      → ((a : A) → (m s).0 ≡ ok a → P (k a (m s).1).1)
      → P (m s).1
      → P ((m >>= k) s).1
  bind-ind m k s hk h = bind_cases-ind k (m s) s hk h

module _ {ℓ κ μ} {S : Type ℓ} {A : Type κ} {B : Type μ} where
  cases-ok :
      (f : A → B) (p : Result A × S) (s : S) {b : B}
      → (((λ _. p) >>= λ a. pure (f a)) s).0 ≡ ok b
      → (a : A) × ((p.0 ≡ ok a) × (b ≡ f a))
  cases-ok f (ok a, t) s h = (a, (refl, sym (ok-injective h)))
    where
      ok-injective : {x y : B} → ok x ≡ ok y → x ≡ y
      ok-injective e = cc e
  cases-ok f (err e, t) s h = absurd (ground (arith, h))

  -- What was returned before a pure last step.
  pub pure-ok :
      (m : Exec S A) (f : A → B) (s : S) {b : B}
      → ((m >>= λ a. pure (f a)) s).0 ≡ ok b
      → (a : A) × (((m s).0 ≡ ok a) × (b ≡ f a))
  pure-ok m f s h = cases-ok f (m s) s h

module _ {ℓ κ μ} {S : Type ℓ} {A : Type κ} {B : Type μ} where
  -- An action whose first step returns goes on with its value, and one whose first step raises ends.
  pub bind-returned :
      (m : Exec S A) (k : A → Exec S B) (s t : S) (a : A) → m s ≡ (ok a, t) → (m >>= k) s ≡ k a t
  bind-returned m k s t a e = ap (λ p. ((λ _. p) >>= k) s) e

  pub bind-raised :
      (m : Exec S A) (k : A → Exec S B) (s t : S) (x : Error)
      → m s ≡ (err x, t)
      → (m >>= k) s ≡ (err x, t)
  bind-raised m k s t x e = ap (λ p. ((λ _. p) >>= k) s) e

  bind_cases-ok :
      (k : A → Exec S B) (p : Result A × S) (s : S) {b : B}
      → (((λ _. p) >>= k) s).0 ≡ ok b
      → (a : A) × ((p.0 ≡ ok a) × ((k a p.1).0 ≡ ok b))
  bind_cases-ok k (ok a, t) s h = (a, (refl, h))
  bind_cases-ok k (err e, t) s h = absurd (ground (arith, h))

  -- What returns has a first step that returns, and a rest that does.
  pub bind-ok :
      (m : Exec S A) (k : A → Exec S B) (s : S) {b : B}
      → ((m >>= k) s).0 ≡ ok b
      → (a : A) × (((m s).0 ≡ ok a) × ((k a (m s).1).0 ≡ ok b))
  bind-ok m k s h = bind_cases-ok k (m s) s h

  bind_cases-of :
      (k : A → Exec S B) (p : Result A × S) (s : S) (a : A)
      → p.0 ≡ ok a
      → ((λ _. p) >>= k) s ≡ k a p.1
  bind_cases-of k (ok b, t) s a e = ap (λ c. k c t) (injective e)
    where
      injective : {x y : A} → ok x ≡ ok y → x ≡ y
      injective q = cc q
  bind_cases-of k (err x, t) s a e = absurd (ground (arith, e))

  -- An action whose first step returns goes on with what it returned.
  pub bind-of :
      (m : Exec S A) (k : A → Exec S B) (s : S) (a : A) → (m s).0 ≡ ok a → (m >>= k) s ≡ k a (m s).1
  bind-of m k s a e = bind_cases-of k (m s) s a e
