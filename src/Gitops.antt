-- ===== src/Gitops.antt =====
-- The portal's pull requests: internal/portalapi/gitops. Children: Node, the YAML trees; Registry
-- and Harness, the edits of the two files of the hub; Client, the calls to the forge; Compose, the
-- composers.
pub mod Node
pub mod Registry
pub mod Harness
pub mod Client
pub mod Curate
pub mod Import
pub mod Pushes
pub mod Forward
pub mod Listed
pub mod Transition
pub mod Found
pub mod Statuses
