-- ===== src/VersionUpgrade/Versions.antt =====
-- daemon/workers/version_upgrade.py: the format of a version, and what two versions must share. A `\d` is
-- an ASCII digit.
use milvus_onprem.Base.{
  Text, str, Bool, true, false, not, ◌&&◌, Option, none, some, List, [], ◌∷◌, ◌++◌, ◌==◌,
  if◌then◌else◌, is_digit, int_of, dollar, split_on, strip_prefix, same,
}

-- A part that `\d+` matches.
abbrev pub is_number : Text → Bool
is_number part = elim (int_of part) [ none ↦ false | some n ↦ true ]

abbrev pub three_numbers : List Text → Bool
three_numbers (a ∷ b ∷ c ∷ []) = is_number a && (is_number b && is_number c)
three_numbers _ = false

-- `re.match(r"^v\d+\.\d+\.\d+$", target)`
unfoldable pub is_version : Text → Bool
unfolding strip_prefix split_on dollar int_of
is_version target = elim (strip_prefix (str "v") target) [
  | none ↦ false
  | some rest ↦ three_numbers (split_on b'.' (dollar rest))
]

-- The longest run of digits at the front, and what follows it.
unfoldable pub span_digits : Text → Text × Text
unfolding is_digit
span_digits [] = ([], [])
span_digits (c ∷ s) =
    let (digits, rest) = span_digits s in if is_digit c then (c ∷ digits, rest) else ([], c ∷ s)

-- The rest of the match once `\d+` has matched.
unfoldable pub minor_of : Text → Text → Option Text
unfolding span_digits
minor_of major [] = none
minor_of major (c ∷ s) =
    let minor = (span_digits s).0 in
    if c == b'.' then elim minor [ [] ↦ none | d ∷ m ↦ some (major ++ (b'.' ∷ d ∷ m)) ] else none

unfoldable pub major_minor_of : Text → Option Text
unfolding minor_of
major_minor_of tag =
    let (major, rest) = span_digits tag in elim major [ [] ↦ none | d ∷ m ↦ minor_of (d ∷ m) rest ]

-- `_major_minor`
unfoldable pub major_minor : Text → Option Text
unfolding strip_prefix major_minor_of
major_minor tag = elim (strip_prefix (str "v") tag) [
  | none ↦ major_minor_of tag
  | some rest ↦ major_minor_of rest
]

abbrev pub both_differ : Option Text → Option Text → Bool
both_differ (some a) (some b) = not (same a b)
both_differ _ _ = false

-- Whether an upgrade from what the tag says is refused; `(unknown)` stands for no tag.
unfoldable pub crosses : Text → Text → Bool
unfolding same major_minor
crosses [] target = false
crosses (c ∷ current) target =
    not (same (c ∷ current) target) && both_differ (major_minor (c ∷ current)) (major_minor target)
