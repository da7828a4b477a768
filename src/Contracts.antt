-- ===== src/Contracts.antt =====
-- tavern-mnemosyne/src/contracts: values, canonical JSON and the identity checks.
pub mod Json
pub mod Identity
