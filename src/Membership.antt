-- ===== src/Membership.antt =====
-- GroupMembership/: the membership list, the gossip of its changes, the failure detector, the
-- introducer and the planning of repairs. The modules below it model one file each.
pub mod Types
pub mod Table
pub mod Conflicts
pub mod Service
pub mod Gossip
pub mod Detector
pub mod Listen
pub mod Join
pub mod System
pub mod Repair
