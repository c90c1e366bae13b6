-- ===== src/Base/Dicts.antt =====
-- Python dicts keyed by texts, as association lists in insertion order.
use mathlib.Core.Path.{◌≡◌, refl, ap}
use mathlib.Core.Logic.{inl, inr}
use mathlib.Core.Bool.{Bool, true, false}
use mathlib.Core.Option.{Option, none, some}
use mathlib.Core.List.{List, [], ◌∷◌}
use native.Mathlib.Omega.{arith}
use milvus_onprem.Base.Tests.{if◌then◌else◌, Bool-cases}
use milvus_onprem.Base.Lists.{Elem}
use milvus_onprem.Base.Texts.{Text, same, same_iff}

abbrev pub Dict {ℓ} : Type ℓ → Type ℓ
Dict V = List (Text × V)

abbrev pub keys {ℓ} : {V : Type ℓ} → Dict V → List Text
keys [] = []
keys ((k, _) ∷ d) = k ∷ keys d

module _ {ℓ} {V : Type ℓ} where
  -- `d.get(k)`
  unfoldable pub lookup : Text → Dict V → Option V
  lookup k [] = none
  lookup k ((j, v) ∷ d) = if same j k then some v else lookup k d

  -- `d[k] = v`: a key that is there keeps its place.
  unfoldable pub insert : Text → V → Dict V → Dict V
  insert k v [] = (k, v) ∷ []
  insert k v ((j, w) ∷ d) = if same j k then (k, v) ∷ d else (j, w) ∷ insert k v d

  -- `d.pop(k, None)`
  unfoldable pub erase : Text → Dict V → Dict V
  erase k [] = []
  erase k ((j, w) ∷ d) = let rest = erase k d in if same j k then rest else (j, w) ∷ rest

  pub lookup-insert :
      (k j : Text) (v : V) (d : Dict V)
      → lookup j (insert k v d) ≡ (if same k j then some v else lookup j d)
  unfolding lookup insert
  lookup-insert k j v [] = refl
  lookup-insert k j v ((i, w) ∷ d) =
      ground (arith, same_iff k j, same_iff i k, same_iff i j, lookup-insert k j v d)

  pub lookup-erase :
      (k j : Text) (d : Dict V) → lookup j (erase k d) ≡ (if same k j then none else lookup j d)
  unfolding lookup erase
  lookup-erase k j [] = ground arith
  lookup-erase k j ((i, w) ∷ d) =
      ground (arith, same_iff k j, same_iff i k, same_iff i j, lookup-erase k j d)

-- `k in d`
abbrev pub has_key {ℓ} : {V : Type ℓ} → Text → Dict V → Bool
has_key k d = elim (lookup k d) [ none ↦ false | some _ ↦ true ]

-- No key twice, as in every Python dict.
abbrev pub IsDict {ℓ} : {V : Type ℓ} → Dict V → Type 0
IsDict [] = Unit
IsDict ((k, v) ∷ d) = (has_key k d ≡ false) × IsDict d

module _ {ℓ} {V : Type ℓ} where
  pub insert-IsDict : (k : Text) (v : V) (d : Dict V) → IsDict d → IsDict (insert k v d)
  unfolding insert
  insert-IsDict k v [] h = (unfold lookup in refl, tt)
  insert-IsDict k v ((j, w) ∷ d) h =
      ground (arith, same_iff j k, same_iff k j, insert-IsDict k v d h.1, lookup-insert k j v d)

module _ {V : Type 0} where
  -- The items of a dict are what its lookups find.
  pub lookup-Elem : (k : Text) (v : V) (d : Dict V) → lookup k d ≡ some v → Elem (k, v) d
  unfolding lookup
  lookup-Elem k v [] h = absurd (ground arith)
  lookup-Elem k v ((j, w) ∷ d) h = elim (Bool-cases (same j k)) [
    | inl e ↦ inl (ground (arith, same_iff j k))
    | inr e ↦ inr (lookup-Elem k v d (ground arith))
  ]

  key-Elem : (k : Text) (v : V) (d : Dict V) → Elem (k, v) d → has_key k d ≡ true
  unfolding lookup
  key-Elem k v [] h = absurd h
  key-Elem k v ((j, w) ∷ d) (inl e) = ground (arith, same_iff j k, ap (λ p. p.0) e)
  key-Elem k v ((j, w) ∷ d) (inr m) = ground (arith, key-Elem k v d m)

  pub Elem-lookup : (k : Text) (v : V) (d : Dict V) → IsDict d → Elem (k, v) d → lookup k d ≡ some v
  unfolding lookup
  Elem-lookup k v [] h m = absurd m
  Elem-lookup k v ((j, w) ∷ d) h (inl e) =
      ground (arith, same_iff j k, ap (λ p. p.0) e, ap (λ p. p.1) e)
  Elem-lookup k v ((j, w) ∷ d) h (inr m) =
      ground (arith, same_iff j k, key-Elem k v d m, Elem-lookup k v d h.1 m)
