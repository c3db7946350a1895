-- ===== src/Mem.antt =====
-- db/mem/mem_db.py: the database side of the MEC plugin. Mead has the catalogue of descriptors, Mea
-- the life of an instance; the modules below them and beside them hold what is proved.
pub mod Mead
pub mod MeadRow
pub mod MeaRow
pub mod Change
pub mod Writes
pub mod Mea
pub mod Collections
pub mod History
