-- ===== src/Memory.antt =====
-- tavern-mnemosyne/src/memory: references to a memory, the cursors that continue a reading, and the
-- reading within a budget of tokens.
pub mod Uri
pub mod Reference
pub mod Cursor
pub mod Selector
pub mod Pages
pub mod Slices
pub mod BoundedRead
