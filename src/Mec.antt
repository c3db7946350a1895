-- ===== src/Mec.antt =====
-- mem/plugin.py: the MEC plugin, over the database layer of Mem.
pub mod World
pub mod VimClient
pub mod Update
pub mod Delete
pub mod Create
pub mod Policies
pub mod Scaling
pub mod Alarms
pub mod Actions
pub mod Triggers
pub mod Rounds
pub mod Moves
pub mod Within
pub mod Database
pub mod Calls
pub mod Names
pub mod Fits
pub mod Declared
pub mod Asked
pub mod Unhosted
pub mod Twice
