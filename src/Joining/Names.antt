-- ===== src/Joining/Names.antt =====
-- daemon/joining.py: peer names `node-N`, their order and their allocation; the check of an address.
use milvus_onprem.Base.{
  ℕ, zero, suc, ◌+◌, Text, str, Bool, true, false, ◌&&◌, ◌||◌, Option, none, some, List, [], ◌∷◌,
  ◌++◌, length, ltb, leb, ◌==◌, if◌then◌else◌, strip_prefix, dollar, int_of, decimal, split_on,
  text_leb,
}

-- The number of a name that `^node-(\d+)$` matches, for names in ASCII: `\d` has Unicode's other digits too.
unfoldable pub node_suffix : Text → Option ℕ
unfolding strip_prefix dollar int_of
node_suffix name = elim (strip_prefix (str "node-") name) [
  | none ↦ none
  | some rest ↦ int_of (dollar rest)
]

-- `f"node-{n}"`
unfoldable pub node_name : ℕ → Text
node_name n = str "node-" ++ decimal n

-- The set `used`; how often a number stands in it does not matter.
unfoldable pub used_numbers : List Text → List ℕ
unfolding node_suffix
used_numbers [] = []
used_numbers (name ∷ names) =
    let rest = used_numbers names in elim (node_suffix name) [ none ↦ rest | some n ↦ n ∷ rest ]

-- `n in used`
unfoldable pub contains : ℕ → List ℕ → Bool
contains n [] = false
contains n (m ∷ used) = m == n || contains n used

-- `while n in used: n += 1`, on fuel.
unfoldable pub next_free : ℕ → ℕ → List ℕ → ℕ
next_free zero n used = n
next_free (suc fuel) n used =
    let further = next_free fuel (n + 1) used in if contains n used then further else n

-- `_allocate_next_name`. One round more than there are names is enough fuel.
unfoldable pub allocate_next_name : List Text → Text
unfolding used_numbers next_free node_name
allocate_next_name names =
    let used = used_numbers names in node_name (next_free (suc (length used)) 1 used)

-- `_node_sort_key`: a name that is no `node-N` sorts by 10^9.
unfoldable pub node_sort_key : Text → ℕ × Text
unfolding node_suffix
node_sort_key name = elim (node_suffix name) [ none ↦ (1_000_000_000, name) | some n ↦ (n, name) ]

-- The order of Python tuples.
unfoldable pub key_leb : ℕ × Text → ℕ × Text → Bool
key_leb (m, s) (n, t) = ltb m n || (m == n && text_leb s t)

unfoldable pub name_leb : Text → Text → Bool
unfolding node_sort_key key_leb
name_leb s t = key_leb (node_sort_key s) (node_sort_key t)

-- One `\d{1,3}` with `0 <= int(part) <= 255`.
unfoldable pub is_octet : Text → Bool
unfolding int_of
is_octet part = leb (length part) 3 && elim (int_of part) [ none ↦ false | some n ↦ leb n 255 ]

unfoldable pub all_octets : List Text → Bool
unfolding is_octet
all_octets [] = true
all_octets (part ∷ parts) = is_octet part && all_octets parts

-- `_is_valid_ipv4`. `$` lets one final newline pass, and `int` does not mind it.
unfoldable pub is_valid_ipv4 : Text → Bool
unfolding dollar all_octets split_on
is_valid_ipv4 ip = let parts = split_on b'.' (dollar ip) in length parts == 4 && all_octets parts
