-- ===== src/Witness.antt =====
-- The theorems at concrete inputs, and runs of the code.
mod Texts
mod Events
mod Setup
mod Runs
mod Outages
mod Schedules
mod Cluster
