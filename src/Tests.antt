-- ===== src/Tests.antt =====
-- Concrete runs of the operations, and the theorems at concrete inputs.
pub mod Install
pub mod Catalog
pub mod Versions
pub mod Ignore
pub mod Machine
pub mod Trail
pub mod Refresh
pub mod Consent
pub mod Curation
pub mod Markers
pub mod Agents
pub mod Habits
pub mod Cached
pub mod Packages
pub mod Audit
