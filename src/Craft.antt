-- ===== src/Craft.antt =====
-- Ledgers that are derived from the memory rows for the next scene: craft/promise-due-ledger.js and
-- craft/beat-rhythm-ledger.js.
pub mod PromiseDue
pub mod BeatRhythm
