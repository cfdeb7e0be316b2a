-- ===== src/Frame.antt =====
-- What a sync does to the world, as a whole: the laws of its calls, and what each component keeps.
pub mod Laws
pub mod Statuses
pub mod Charts
pub mod ValueSources
pub mod Operations
pub mod Branches
pub mod Decisions
pub mod Releases
pub mod Copies
pub mod Exports
