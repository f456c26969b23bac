-- ===== src/Training.antt =====
-- app/services/training.py: courses, enrolments, exams, certificates, and who is due.
pub mod Calendar
pub mod Queries
pub mod Compliance
pub mod Matrix
pub mod Queue
pub mod Catalogue
pub mod Csv
pub mod Enrol
pub mod Bulk
pub mod Links
pub mod Exam
pub mod Reminders
pub mod Samples
mod Tests
