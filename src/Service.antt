-- ===== src/Service.antt =====
-- The service, service/: the synthesizer of records, the lines of the files and the records' way out.
pub mod Todo
pub mod Dao
pub mod Synth
pub mod Loop
pub mod Line
pub mod Files
pub mod Records
pub mod Expiry
pub mod Channel
pub mod Account
pub mod Race
pub mod Pipeline
