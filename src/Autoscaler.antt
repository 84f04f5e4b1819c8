-- ===== src/Autoscaler.antt =====
-- operator/internal/controller/resource_autoscaler.go: sampling of Agent CPU, the allocation plan
-- of a Node, the resizes that carry it out, and the reservation for a waiting session.
pub mod Capacity
pub mod Plan
pub mod Controller
pub mod Resize
pub mod Observe
pub mod Reserve
