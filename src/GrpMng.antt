-- ===== src/GrpMng.antt =====
-- grp_mng.h and grp_mng.c: the groups by name, and the addresses that are free.
--
-- The groups stand in a heap, and the map holds a pointer for each name. The queue holds pointers to
-- addresses. The manager that a function is given may be NULL (`none`).
pub mod Decimal
pub mod Numbers
pub mod Groups
pub mod Directory
pub mod NewGroup
pub mod Creation
pub mod Members
pub mod LeaveAll
pub mod Names
pub mod Addresses
pub mod Deletion
pub mod Reachable
