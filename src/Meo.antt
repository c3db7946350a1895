-- ===== src/Meo.antt =====
-- db/meo: the VIMs, and the network services.
pub mod VimRow
pub mod Vim
pub mod NsRow
pub mod Nsd
pub mod Ns
pub mod Params
pub mod Register
pub mod Workflow
