-- ===== src/Tests.antt =====
-- Runs of the kernel's code, and the theorems at concrete states.
mod Processes
mod Devices
mod Pipes
mod Text
mod Screen
mod Links
mod Calls
mod Blocks
mod Buddies
mod Families
mod Copies
