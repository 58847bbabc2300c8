-- ===== src/Tests.antt =====
-- The theorems at concrete inputs, and runs of the definitions.
mod Data
mod Sip
mod Model
mod Records
mod Service
mod Lines
mod Memory
mod Redis
mod Files
mod Expiry
mod Sql
mod Kafka
mod Account
mod Pool
