-- ===== src/Examples.antt =====
-- Concrete states, and the theorems at them.
pub mod Data
pub mod Lists
pub mod Pages
pub mod Transactions
pub mod Threads
pub mod Commits
pub mod Trees
pub mod Allocator
pub mod Hashtables
