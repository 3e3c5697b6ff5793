-- ===== src/Tests.antt =====
-- The theorems at concrete inputs, and runs of the definitions.
mod Queues
mod Memory
mod Text
mod Paging
mod Tasks
mod Devices
mod Files
mod Disk
mod Programs
mod Commands
