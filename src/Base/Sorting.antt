-- ===== src/Base/Sorting.antt =====
-- Python's `sorted`, which is stable, as an insertion sort over a Boolean order on the elements.
use mathlib.Core.Path.{◌≡◌}
use mathlib.Core.Logic.{inl, inr}
use mathlib.Core.Bool.{Bool, true, false}
use mathlib.Core.List.{List, [], ◌∷◌, Perm}
use mathlib.Core.List.Perm
use milvus_onprem.Base.Tests.{if◌then◌else◌, Bool-cases}
use milvus_onprem.Base.Lists.{All, Elem}

module _ {ℓ} {A : Type ℓ} where
  unfoldable pub insert_by : (A → A → Bool) → A → List A → List A
  insert_by le x [] = x ∷ []
  insert_by le x (y ∷ ys) = if le x y then x ∷ y ∷ ys else y ∷ insert_by le x ys

  unfoldable pub sort_by : (A → A → Bool) → List A → List A
  unfolding insert_by
  sort_by le [] = []
  sort_by le (x ∷ xs) = insert_by le x (sort_by le xs)

  -- Every element comes before those that follow it.
  abbrev pub IsOrdered : (A → A → Bool) → List A → Type 0
  IsOrdered le [] = Unit
  IsOrdered le (x ∷ xs) = All (λ y. le x y ≡ true) xs × IsOrdered le xs

  insert_by-perm : (le : A → A → Bool) (x : A) (xs : List A) → Perm (insert_by le x xs) (x ∷ xs)
  unfolding insert_by
  insert_by-perm le x [] = Perm.refl _
  insert_by-perm le x (y ∷ ys) = elim (Bool-cases (le x y)) [
    | inl e ↦ rw e (Perm.refl _)
    | inr e ↦ rw e (Perm.trans (Perm.cons y (insert_by-perm le x ys)) (Perm.swap x y ys))
  ]

  pub sort_by-perm : (le : A → A → Bool) (xs : List A) → Perm (sort_by le xs) xs
  unfolding sort_by
  sort_by-perm le [] = Perm.refl _
  sort_by-perm le (x ∷ xs) =
      Perm.trans (insert_by-perm le x (sort_by le xs)) (Perm.cons x (sort_by-perm le xs))

-- The tests of a total, transitive order.
pub record IsOrder {ℓ} {A : Type ℓ} (le : A → A → Bool) : Type ℓ where
  pub total : (a b : A) → le a b ≡ false → le b a ≡ true
  pub transitive : (a b c : A) → le a b ≡ true → le b c ≡ true → le a c ≡ true

module _ {ℓ} {A : Type ℓ} (le : A → A → Bool) (o : IsOrder le) where
  All-insert_by :
      (z x : A) (xs : List A)
      → le z x ≡ true
      → All (λ y. le z y ≡ true) xs
      → All (λ y. le z y ≡ true) (insert_by le x xs)
  unfolding insert_by
  All-insert_by z x [] h hs = (h, hs)
  All-insert_by z x (y ∷ ys) h hs = elim (Bool-cases (le x y)) [
    | inl e ↦ rw e (h, hs)
    | inr e ↦ rw e (hs.0, All-insert_by z x ys h hs.1)
  ]

  All-weaken :
      (z x : A) (xs : List A)
      → le z x ≡ true
      → All (λ y. le x y ≡ true) xs
      → All (λ y. le z y ≡ true) xs
  All-weaken z x [] h hs = hs
  All-weaken z x (y ∷ ys) h hs = (o.transitive z x y h hs.0, All-weaken z x ys h hs.1)

  insert_by-IsOrdered : (x : A) (xs : List A) → IsOrdered le xs → IsOrdered le (insert_by le x xs)
  unfolding insert_by
  insert_by-IsOrdered x [] h = (tt, tt)
  insert_by-IsOrdered x (y ∷ ys) h = elim (Bool-cases (le x y)) [
    | inl e ↦ rw e ((e, All-weaken x y ys e h.0), h)
    | inr e ↦ rw e (All-insert_by y x ys (o.total x y e) h.0, insert_by-IsOrdered x ys h.1)
  ]

  pub sort_by-IsOrdered : (xs : List A) → IsOrdered le (sort_by le xs)
  unfolding sort_by
  sort_by-IsOrdered [] = tt
  sort_by-IsOrdered (x ∷ xs) = insert_by-IsOrdered x (sort_by le xs) (sort_by-IsOrdered xs)

module _ {A : Type 0} (le : A → A → Bool) where
  Elem-insert_by : (a x : A) (xs : List A) → Elem a (x ∷ xs) → Elem a (insert_by le x xs)
  unfolding insert_by
  Elem-insert_by a x [] h = h
  Elem-insert_by a x (y ∷ ys) h = elim (Bool-cases (le x y)) [
    | inl e ↦ rw e h
    | inr e ↦ rw e (elim h [
      | inl here ↦ inr (Elem-insert_by a x ys (inl here))
      | inr (inl next) ↦ inl next
      | inr (inr later) ↦ inr (Elem-insert_by a x ys (inr later))
    ])
  ]

  Elem-of_insert_by : (a x : A) (xs : List A) → Elem a (insert_by le x xs) → Elem a (x ∷ xs)
  unfolding insert_by
  Elem-of_insert_by a x [] h = h
  Elem-of_insert_by a x (y ∷ ys) h = elim (Bool-cases (le x y)) [
    | inl e ↦ rw e at h
    | inr e ↦
        let k : Elem a (y ∷ insert_by le x ys) = rw e at h in
        elim k [
          | inl first ↦ inr (inl first)
          | inr rest ↦ elim (Elem-of_insert_by a x ys rest) [
            | inl here ↦ inl here
            | inr later ↦ inr (inr later)
          ]
        ]
  ]

  -- Sorting neither drops nor adds an element.
  pub Elem-sort_by : (a : A) (xs : List A) → Elem a xs → Elem a (sort_by le xs)
  unfolding sort_by
  Elem-sort_by a [] h = h
  Elem-sort_by a (x ∷ xs) (inl e) = Elem-insert_by a x (sort_by le xs) (inl e)
  Elem-sort_by a (x ∷ xs) (inr h) = Elem-insert_by a x (sort_by le xs) (inr (Elem-sort_by a xs h))

  pub Elem-of_sort_by : (a : A) (xs : List A) → Elem a (sort_by le xs) → Elem a xs
  unfolding sort_by
  Elem-of_sort_by a [] h = h
  Elem-of_sort_by a (x ∷ xs) h = elim (Elem-of_insert_by a x (sort_by le xs) h) [
    | inl e ↦ inl e
    | inr later ↦ inr (Elem-of_sort_by a xs later)
  ]
