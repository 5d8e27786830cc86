-- ===== src/Tests.antt =====
-- Runs of the model on small inputs.
mod Meter
mod Health
mod Spec
mod Iam
mod Rollout
mod Cluster
mod TargetDns
mod Agent
mod Validate
mod Rollback
