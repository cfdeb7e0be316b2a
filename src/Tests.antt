-- ===== src/Tests.antt =====
-- Tests: a small cluster, and the theorems at concrete inputs.
mod Cluster
mod Releases
mod Statuses
mod Charts
mod ValueMaps
mod Operators
mod Helms
mod Orders
mod HelmActions
mod Updates
mod Syncs
mod Programs
mod Mirrored
mod Deliveries
mod Steadies
mod Workers
mod Returns
mod Upgrades
mod Replacings
