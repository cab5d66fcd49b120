-- ===== src/GroupList.antt =====
-- src/modules/group-lists: saved lists of groups, which campaigns may take their targets from.
pub mod Table
pub mod Membership
pub mod Revision
pub mod Service
pub mod Failing
mod Examples
