-- ===== src/Jobs.antt =====
-- src/lib/jobs: the job that moves past years' rows from a region's hot database to its archive.
pub mod Lock
pub mod Archival
