-- ===== src/Api.antt =====
-- The parts of the API: the pages of its lists, its policies, its controllers.
pub mod Paging
pub mod Policy
pub mod Body
pub mod Controller
pub mod Served
