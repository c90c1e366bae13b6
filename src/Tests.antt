-- ===== src/Tests.antt =====
-- Concrete inputs at which the theorems apply.
mod Memory
mod Machine
mod Handlers
mod Workers
mod Backups
mod Joins
mod Jobs
mod Watchdogs
mod Cluster
