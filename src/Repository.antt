-- ===== src/Repository.antt =====
-- backend/repository: the queries of the tables, each a call of GORM. An SQL condition is a test on
-- a row.
pub mod Users
pub mod Games
pub mod Logs
pub mod Retention
pub mod Rankings
pub mod Connections
pub mod Pages
pub mod Search
