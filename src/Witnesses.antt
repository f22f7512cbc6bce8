-- ===== src/Witnesses.antt =====
-- Runs of the theorems on concrete rings, logs, caches and leaders.
mod Ring
mod Membership
mod Detector
mod System
mod Repair
mod Replication
mod Hydfs
mod AppendLog
mod Stream
mod Sender
mod Recovery
mod Transfer
mod Counting
