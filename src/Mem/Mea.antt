-- ===== src/Mem/Mea.antt =====
-- db/mem/mem_db.py: the data of a MEA, its keys, its dict and its attributes.
-- Create, Update, Delete and Mark have the operations.
pub mod Moves
pub mod Rules
pub mod Within
pub mod Every
pub mod Any
pub mod Atomic
pub mod Lock
pub mod Going
pub mod Gone
pub mod Create
pub mod Update
pub mod Delete
pub mod Mark
pub mod Reference
