-- ===== src/Calendar.antt =====
-- The machine calendar: backend/app/engines/calendar/calendar.py.
pub mod Segments
pub mod Windows
pub mod Shifts
pub mod Machine
pub mod Work
