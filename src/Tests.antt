-- ===== src/Tests.antt =====
-- The theorems at concrete machines. Nothing uses these.
mod Machine
mod Processor
mod Storage
mod Devices
mod Floating
mod Steps
mod Windows
