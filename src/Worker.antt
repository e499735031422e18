-- ===== src/Worker.antt =====
-- src/worker: what the controller and a worker say to one another, the channel of its records, and the
-- wave of a duty.
pub mod Control
pub mod Frames
pub mod Duty
pub mod Channel
pub mod Heartbeat
pub mod Scheduler
