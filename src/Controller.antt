-- ===== src/Controller.antt =====
-- src/controller: what the controller concludes about its workers, how it stops them and what they hold.
pub mod Supervision
pub mod Stopping
pub mod Memory
pub mod Plan
