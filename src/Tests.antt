-- ===== src/Tests.antt =====
-- Runs of the definitions on small inputs, and the theorems applied to such inputs.
mod Scheduling
mod Policies
mod Planning
mod Resizing
mod Sessions
mod Limits
mod Leases
mod Lifecycles
mod Environments
mod Projections
mod Authentication
