-- ===== src/Storage.antt =====
-- tavern-mnemosyne/src/storage: the staged file transaction.
pub mod Disk
pub mod StagedFiles
