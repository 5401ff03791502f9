-- ===== src/Storage.antt =====
-- src/storage/FileStore.cpp: the events and tables of the attendance, in CSV files or in a database.
pub mod Files
pub mod Formats
pub mod FileStore
pub mod Daily
