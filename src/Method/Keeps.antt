-- ===== src/Method/Keeps.antt =====
-- handlers/method/: what the handlers keep of the database, if their statements do.
pub mod Readers
pub mod Accounts
pub mod Writers
