-- ===== src/Submissions.antt =====
-- apps/api/src/submissions: the decisions on a submission to ETA.
pub mod ResultMap
pub mod Integrity
mod Tests
