-- ===== src/Joining/Allocation.antt =====
-- daemon/joining.py: what `_allocate_next_name` allocates, and that names sort by their numbers.
use milvus_onprem.Base.{
  ℕ, zero, suc, ◌+◌, ◌≤◌, ◌<◌, ◌≡◌, refl, ap, inl, inr, Text, str, true, false, some, List, [], ◌∷◌,
  ◌++◌, length, Elem, leb, arith, if◌then◌else◌, Bool-cases, Option-cases, int_of, decimal,
  digits-decimal, dollar-digits, int_of-decimal, ◌∙◌, ◌==◌, text_leb_total, text_leb_trans, IsOrder,
  dollar,
}
use milvus_onprem.Joining.Names.{
  node_suffix, node_name, used_numbers, contains, next_free, allocate_next_name, node_sort_key,
  key_leb, name_leb,
}

-- How many numbers of the list are at least `n`.
above : ℕ → List ℕ → ℕ
above n [] = 0
above n (m ∷ used) = let rest = above n used in if leb n m then suc rest else rest

above-le : (n : ℕ) (used : List ℕ) → above (n + 1) used ≤ above n used
unfolding above
above-le n [] = omega arith
above-le n (m ∷ used) = ground (arith, above-le n used)

above-lt : (n : ℕ) (used : List ℕ) → contains n used ≡ true → above (n + 1) used < above n used
unfolding above contains
above-lt n [] h = ground arith
above-lt n (m ∷ used) h = ground (arith, above-le n used, above-lt n used)

above-le-length : (n : ℕ) (used : List ℕ) → above n used ≤ length used
unfolding above
above-le-length n [] = omega arith
above-le-length n (m ∷ used) = ground (arith, above-le-length n used)

-- With more fuel than numbers ahead, the search stops at a number that is not used.
next_free-free :
    (fuel n : ℕ) (used : List ℕ)
    → above n used < fuel
    → contains (next_free fuel n used) used ≡ false
unfolding next_free
next_free-free zero n used h = elim h [ ]
next_free-free (suc fuel) n used h = elim (Bool-cases (contains n used)) [
  | inl taken ↦ rw taken (next_free-free fuel (n + 1) used (omega (arith, above-lt n used taken)))
  | inr free ↦ rw free free
]

next_free-ge : (fuel n : ℕ) (used : List ℕ) → n ≤ next_free fuel n used
unfolding next_free
next_free-ge zero n used = omega arith
next_free-ge (suc fuel) n used = ground (arith, next_free-ge fuel (n + 1) used)

congruent : (k n : ℕ) (used : List ℕ) → k ≡ n → contains n used ≡ true → contains k used ≡ true
congruent k n used e h = rw e h

next_free-least :
    (fuel n : ℕ) (used : List ℕ) (k : ℕ)
    → n ≤ k
    → k < next_free fuel n used
    → contains k used ≡ true
unfolding next_free
next_free-least zero n used k h l = absurd (omega arith)
next_free-least (suc fuel) n used k h l =
    ground (arith, next_free-least fuel (n + 1) used k, congruent k n used)

node_suffix-prefixed : (rest : Text) → node_suffix (str "node-" ++ rest) ≡ int_of (dollar rest)
unfolding node_suffix
node_suffix-prefixed rest = refl

-- A printed name has its number back.
node_suffix-node_name : (n : ℕ) → node_suffix (node_name n) ≡ some n
unfolding node_name
node_suffix-node_name n =
    node_suffix-prefixed (decimal n)
    ∙ ap int_of (dollar-digits 0 n (decimal n) (digits-decimal n))
    ∙ int_of-decimal n

-- A name that stands in the list has its number in the set.
contains-used_numbers :
    (name : Text) (n : ℕ) (names : List Text)
    → node_suffix name ≡ some n
    → Elem name names
    → contains n (used_numbers names) ≡ true
unfolding contains used_numbers
contains-used_numbers name n [] h m = absurd m
contains-used_numbers name n (x ∷ names) h (inl e) =
    let f : node_suffix x ≡ some n = rw e h in rw f (ground arith)
contains-used_numbers name n (x ∷ names) h (inr m) =
    ground (arith, contains-used_numbers name n names h m)

-- A number in the set comes from a name in the list.
used_numbers-Elem :
    (n : ℕ) (names : List Text)
    → contains n (used_numbers names) ≡ true
    → (name : Text) × Elem name names × (node_suffix name ≡ some n)
unfolding contains used_numbers
used_numbers-Elem n [] h = absurd (ground arith)
used_numbers-Elem n (x ∷ names) h = elim (Option-cases (node_suffix x)) [
  | inl other ↦ let (name, m, e) = used_numbers-Elem n names (ground arith) in (name, inr m, e)
  | inr (k, e) ↦ elim (Bool-cases (k == n)) [
    | inl hit ↦ (x, inl refl, ground arith)
    | inr miss ↦ let (name, m, f) = used_numbers-Elem n names (ground arith) in (name, inr m, f)
  ]
]

-- The allocated name is `node-m` for an m from 1 on; it is no name of the list, nor is any other
-- spelling of the number m; and every smaller number from 1 on is the number of a name in the list.
pub allocate_next_name-least :
    (names : List Text)
    → (m : ℕ) × (allocate_next_name names ≡ node_name m)
      × (1 ≤ m)
      × ((name : Text) → node_suffix name ≡ some m → ¬ Elem name names)
      × ((k : ℕ) → 1 ≤ k → k < m → (name : Text) × Elem name names × (node_suffix name ≡ some k))
unfolding allocate_next_name
allocate_next_name-least names =
    let used = used_numbers names in
    let fuel : ℕ = suc (length used) in
    (
      next_free fuel 1 used,
      refl,
      next_free-ge fuel 1 used,
      (λ name e m. cc (
        contains-used_numbers name (next_free fuel 1 used) names e m,
        next_free-free fuel 1 used (omega (arith, above-le-length 1 used)),
      )),
      (λ k l h. used_numbers-Elem k names (next_free-least fuel 1 used k l h)),
    )

-- So the name itself is new.
allocate_next_name-fresh : (names : List Text) → ¬ Elem (allocate_next_name names) names
allocate_next_name-fresh names =
    let (m, e, _, free, _) = allocate_next_name-least names in
    rw e (free (node_name m) (node_suffix-node_name m))

key_leb-IsOrder : IsOrder key_leb
unfolding key_leb
key_leb-IsOrder = record {
  total = λ (m, s) (n, t) h. ground (arith, text_leb_total s t);
  transitive = λ (m, s) (n, t) (o, u) h k. ground (arith, text_leb_trans s t u);
}

-- Names are ordered by their numbers, and then as texts.
pub name_leb-IsOrder : IsOrder name_leb
unfolding name_leb
name_leb-IsOrder = record {
  total = λ a b. key_leb-IsOrder.total (node_sort_key a) (node_sort_key b);
  transitive =
      λ a b c. key_leb-IsOrder.transitive (node_sort_key a) (node_sort_key b) (node_sort_key c);
}
