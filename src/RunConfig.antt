-- ===== src/RunConfig.antt =====
-- internal/runconfig/runconfig.go: the graph of a run's tasks. `GetParents` and the like, the check for
-- circular and common dependencies, and the levels of the tasks.
pub mod Graph
pub mod Check
pub mod Ancestors
pub mod AllAncestors
pub mod Levels
pub mod Generate
