-- ===== src/Programs.antt =====
-- The user programs in syscalls/, over the memory of their process. What the system calls give them is
-- an argument.
pub mod Calls
pub mod Files
pub mod Paint
pub mod Support
