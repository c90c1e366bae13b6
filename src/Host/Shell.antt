-- ===== src/Host/Shell.antt =====
-- daemon/handlers.py and daemon/workers/: the texts of shell commands, and reading what they print.
use milvus_onprem.Base.{
  Text, str, Bool, true, ◌&&◌, ◌||◌, List, [], ◌∷◌, ◌++◌, ◌==◌, leb, if◌then◌else◌, member, join,
  is_space, sort_by, text_leb, has_char, ℕ,
}

-- `REPO_PATH`
abbrev pub repo_path : Text
repo_path = str "/repo"

abbrev pub cluster_env_path : Text
cluster_env_path = str "/repo/cluster.env"

-- The characters that `shlex.quote` leaves bare.
unfoldable pub is_safe : ℕ → Bool
unfolding has_char
is_safe c =
    leb 48 c && leb c 57
    || (leb 65 c && leb c 90 || (leb 97 c && leb c 122 || has_char c (str "_@%+=:,./-")))

unfoldable pub all_safe : Text → Bool
unfolding is_safe
all_safe [] = true
all_safe (c ∷ s) = is_safe c && all_safe s

unfoldable pub escape_quotes : Text → Text
escape_quotes [] = []
escape_quotes (c ∷ s) =
    if c == 39 then 39 ∷ 34 ∷ 39 ∷ 34 ∷ 39 ∷ escape_quotes s else c ∷ escape_quotes s

-- `shlex.quote`
unfoldable pub quote : Text → Text
unfolding all_safe escape_quotes
quote [] = 39 ∷ 39 ∷ []
quote (c ∷ s) = if all_safe (c ∷ s) then c ∷ s else 39 ∷ (escape_quotes (c ∷ s) ++ (39 ∷ []))

-- `s.split()`, with the word read so far.
abbrev flush : Text → List Text → List Text
flush [] words = words
flush (c ∷ word) words = (c ∷ word) ∷ words

words_go : Text → Text → List Text
unfolding is_space
words_go word [] = flush word []
words_go word (c ∷ s) =
    let next = flush word (words_go [] s) in
    let more = words_go (word ++ (c ∷ [])) s in if is_space c then next else more

unfoldable pub split_words : Text → List Text
unfolding words_go
split_words s = words_go [] s

unfoldable pub members_among : List Text → List Text → List Text
unfolding member
members_among present [] = []
members_among present (service ∷ services) =
    let rest = members_among present services in
    if member service present then service ∷ rest else rest

-- `sorted(present & wanted)`
unfoldable pub to_recreate : Text → List Text → List Text
unfolding sort_by text_leb members_among split_words
to_recreate out wanted = sort_by text_leb (members_among (split_words out) wanted)

-- `" ".join(words)`
unfoldable pub joined : List Text → Text
unfolding join
joined words = join (str " ") words

-- `f"{REPO_PATH}/rendered/{node_name}"`
unfoldable pub node_dir : Text → Text
node_dir node_name = str "/repo/rendered/" ++ node_name

-- `cd /repo && …`
unfoldable pub in_repo : Text → Text
in_repo cmd = str "cd /repo && " ++ cmd
