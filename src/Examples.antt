-- ===== src/Examples.antt =====
-- Runs of the definitions at concrete inputs.
mod Wire
mod Slots
mod Nodes
mod Options
mod Site
mod Jobs
mod Texts
mod Disk
mod Terminal
mod Reporting
mod Server
mod Devices
