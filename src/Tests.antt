-- ===== src/Tests.antt =====
-- Concrete inputs at which the theorems of the library apply.
mod Data
mod Memory
mod Files
mod Programs
mod Screen
mod Strings
mod Systems
mod Users
mod Output
mod Kernel
mod Kernels
