-- ===== src/Examples.antt =====
-- The theorems at concrete inputs.
mod Journals
mod Workers
mod Verdicts
mod Timelines
mod Schedules
mod Channels
mod Corruption
mod Values
mod Heartbeats
mod Files
mod Mixes
mod Budgets
