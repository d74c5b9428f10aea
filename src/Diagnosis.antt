-- ===== src/Diagnosis.antt =====
-- The ids of files, src/diagnosis/src/file_id.rs.
pub mod FileId
mod Tests
