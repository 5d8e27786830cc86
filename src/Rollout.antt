-- ===== src/Rollout.antt =====
-- internal/cluster/rollout.go: the parts of a staged publication. A map from nodes to desired states
-- is an association list.
pub mod Canary
pub mod Forwards
pub mod Merge
pub mod States
pub mod Transitions
