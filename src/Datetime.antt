-- ===== src/Datetime.antt =====
-- The datetime package.
pub mod Year
pub mod Dates
pub mod YearDay
pub mod Calendar
pub mod Ranges
pub mod TimeOfDay
