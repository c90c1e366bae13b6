-- ===== src/Joining/Settings.antt =====
-- daemon/workers/remove_node.py: reading one setting of cluster.env, as the watchdog and the workers do.
use milvus_onprem.Base.{Text, Option, none, some, List, [], ◌∷◌, if◌then◌else◌, same, split_on}
use milvus_onprem.Joining.Env.{parse_line}

unfoldable pub read_value : Text → Text → List Text → Text
unfolding parse_line
read_value key default [] = default
read_value key default (line ∷ lines) =
    let rest = read_value key default lines in
    elim (parse_line line) [ none ↦ rest | some (k, v) ↦ if same k key then v else rest ]

-- `_read_cluster_env_value`, of the texts of the two files, `none` for one that is not there. What
-- comes of a final newline is an empty line, which is passed over.
unfoldable pub read_cluster_env_value : List (Option Text) → Text → Text → Text
unfolding read_value split_on
read_cluster_env_value [] key default = default
read_cluster_env_value (none ∷ files) key default = read_cluster_env_value files key default
read_cluster_env_value (some text ∷ files) key default = read_value key default (split_on 10 text)
