-- ===== src/Tests.antt =====
-- Runs of the models, and the theorems at concrete data.
mod Planning
mod Pruning
mod Engine
mod Bucket
mod Compacting
mod Merging
mod Caching
mod Logs
mod Changesets
