-- ===== src/Backups/Commands.antt =====
-- daemon/workers/backup_etcd.py, create_backup.py, export_backup.py and restore_backup.py: the arguments
-- of the commands. A parameter of a job is its text, which is empty where it is missing or false.
use milvus_onprem.Base.{
  Text, str, Dict, lookup, Bool, ◌&&◌, none, some, Option, List, [], ◌∷◌, ◌++◌, same, Exec,
  value_error, raise_if, ◌>>◌,
}
use milvus_onprem.Host.{Host}
use milvus_onprem.Backups.Running.{run_or_raise}

-- `params.get(key)`
unfoldable pub param : Text → Dict Text → Text
unfolding lookup
param key params = elim (lookup key params) [ none ↦ [] | some value ↦ value ]

-- `if (v := params.get(key)): args.append(f"{option}{v}")`
abbrev pub with_value : Text → Text → List Text
with_value option [] = []
with_value option (c ∷ value) = (option ++ (c ∷ value)) ∷ []

-- `if params.get(key): args.append(option)`
abbrev pub with_flag : Text → Text → List Text
with_flag option [] = []
with_flag option (c ∷ value) = option ∷ []

-- The flag for a backup that is in MinIO already: a name, and no path it comes from.
abbrev pub skip_upload : Text → Text → List Text
skip_upload name [] = with_flag (str "--skip-upload") name
skip_upload name (c ∷ path) = []

abbrev pub program : Text
program = str "./milvus-onprem"

abbrev pub backup_etcd_args : List Text
backup_etcd_args = program ∷ str "backup-etcd" ∷ []

unfoldable pub create_args : Dict Text → List Text
unfolding param
create_args params =
    program
    ∷ str "create-backup"
    ∷ (str "--name=" ++ param (str "name") params)
    ∷ (with_value (str "--strategy=") (param (str "strategy") params)
        ++ (with_value (str "--collections=") (param (str "collections") params)
            ++ with_value (str "--milvus-backup-version=")
                (param (str "milvus_backup_version") params)))

unfoldable pub export_args : Dict Text → List Text
unfolding param
export_args params =
    program
    ∷ str "export-backup"
    ∷ (str "--name=" ++ param (str "name") params)
    ∷ (str "--to=" ++ param (str "to") params)
    ∷ []

unfoldable pub restore_args : Dict Text → List Text
unfolding param
restore_args params =
    program
    ∷ str "restore-backup"
    ∷ (with_value (str "--from=") (param (str "from") params)
        ++ (with_value (str "--name=") (param (str "name") params)
            ++ (skip_upload (param (str "name") params) (param (str "from") params)
                ++ (with_value (str "--rename=") (param (str "rename") params)
                    ++ (with_value (str "--collections=") (param (str "collections") params)
                        ++ (with_flag (str "--no-restore-index")
                              (param (str "no_restore_index") params)
                            ++ (with_flag (str "--drop-existing")
                                  (param (str "drop_existing") params)
                                ++ with_flag (str "--load") (param (str "load") params))))))))

module _ (host : Host) (exists : Text → host.etcd.State → Bool)
    (owner : host.etcd.State → Option Text) where
  open host.etcd use {State}

  unfoldable pub run_backup_etcd : Exec State (Unit {0})
  unfolding run_or_raise
  run_backup_etcd = run_or_raise host exists owner backup_etcd_args

  unfoldable pub run_create_backup : Dict Text → Exec State (Unit {0})
  unfolding param same create_args run_or_raise
  run_create_backup params = do
    raise_if (same (param (str "name") params) []) value_error
    run_or_raise host exists owner (create_args params)

  unfoldable pub run_export_backup : Dict Text → Exec State (Unit {0})
  unfolding param same export_args run_or_raise
  run_export_backup params = do
    raise_if (same (param (str "name") params) []) value_error
    raise_if (same (param (str "to") params) []) value_error
    run_or_raise host exists owner (export_args params)

  unfoldable pub run_restore_backup : Dict Text → Exec State (Unit {0})
  unfolding param same restore_args run_or_raise
  run_restore_backup params = do
    raise_if (same (param (str "from") params) [] && same (param (str "name") params) [])
        value_error
    run_or_raise host exists owner (restore_args params)
