-- ===== src/Tests/Backups.antt =====
-- Concrete commands of the workers for backups.
use milvus_onprem.Base.{Text, str, Dict, lookup, same, some, [], ◌∷◌, ◌≡◌, ok, true}
use milvus_onprem.Backups.Running.{command}
use milvus_onprem.Backups.Commands.{param, create_args, run_restore_backup}
use milvus_onprem.Backups.Quoting.{ReadsAs, command-ReadsAs}
use milvus_onprem.Backups.Outcomes.{run_restore_backup-outcome}
use milvus_onprem.Tests.Machine.{machine, quiet, silent}
use milvus_onprem.Tests.Memory.{Content}

-- A name with a quote, spaces and a semicolon in it.
abbrev named : Dict Text
named = (str "name", str "it's; rm -rf /") ∷ []

abbrev empty : Content
empty = record { keys = []; members = []; clock = 0; files = [] }

command-ReadsAs_example : ReadsAs (command (create_args named)) (create_args named)
command-ReadsAs_example = command-ReadsAs (create_args named)

run_restore_backup_example :
    (run_restore_backup
      (machine quiet silent)
      (λ p s. true)
      (λ s. some (str "1000:1000"))
      named
      empty).0
    ≡ ok tt
unfolding param lookup same
run_restore_backup_example =
    run_restore_backup-outcome (machine quiet silent) (λ p s. true) (λ s. some (str "1000:1000"))
      named empty
