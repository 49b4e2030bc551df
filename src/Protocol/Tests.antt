-- ===== src/Protocol/Tests.antt =====
-- Runs of the protocol's codecs and state machines on concrete bytes.
mod Wire
mod Fields
mod Login
mod Status
mod Packets
mod Session
mod Start
