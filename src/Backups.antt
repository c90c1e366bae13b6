-- ===== src/Backups.antt =====
-- daemon/workers/backup_etcd.py, create_backup.py, export_backup.py, restore_backup.py and
-- _shell_helpers.py: the jobs that run one command of the CLI each.
pub mod Running
pub mod Commands
pub mod Quoting
pub mod Outcomes
