-- ===== src/Db.antt =====
-- The persistence layer: the rows of app/db/models.py and app/db/phase3_models.py that the modelled
-- code reads and writes, and the session through which it does.
pub mod Models
pub mod Evidence
pub mod Query
pub mod Session
