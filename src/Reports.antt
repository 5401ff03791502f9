-- ===== src/Reports.antt =====
-- src/reports/ReportManager.cpp: the attendance reports, their delivery to Telegram and the schedule.
pub mod Words
pub mod Calendar
pub mod Build
pub mod Telegram
pub mod Extended
pub mod Deliver
pub mod Schedule
