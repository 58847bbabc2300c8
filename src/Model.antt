-- ===== src/Model.antt =====
-- The data model, model/: phone numbers and their positions, packets, cached items and records.
pub mod Position
pub mod Number
pub mod Row
pub mod Atoi
pub mod Packet
pub mod Item
pub mod Cdr
