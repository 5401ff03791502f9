-- ===== src/Protocol.antt =====
-- src/unex/Unex721Protocol.cpp.
pub mod Frame
pub mod Link
pub mod Reply
pub mod Slot
pub mod Upload
pub mod NodeId
pub mod Eeprom
pub mod Event
