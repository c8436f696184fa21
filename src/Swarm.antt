-- ===== src/Swarm.antt =====
-- The swarm transfer library: src/lib/swarm.
pub mod Scheduler
pub mod Coordinator
