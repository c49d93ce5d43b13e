-- ===== src/Tests.antt =====
-- Runs of the program on small worlds, and the theorems at concrete inputs.
mod World
mod Cells
mod Fibers
mod RootWaits
mod Runs
mod Waits
mod Kernel
mod Descriptors
mod Selects
mod Sessions
mod Accounts
mod Threads
mod Blocked
mod Handles
mod Turns
mod Unread
mod Buffers
mod Calls
