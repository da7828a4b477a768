-- ===== src/Runs.antt =====
-- tavern-mnemosyne/src/harness: the journals of runs.
pub mod RunJournal
