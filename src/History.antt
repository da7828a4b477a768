-- ===== src/History.antt =====
-- tavern-mnemosyne/src/history: the ledger of branches, turns, candidates and memory records.
pub mod Tables
pub mod Resolver
pub mod Lineage
pub mod Visibility
pub mod BranchRows
pub mod Branches
pub mod Records
pub mod Sorting
pub mod StateAt
pub mod Candidates
