-- ===== src/Sip.antt =====
-- The SIP message parser, model/prot/sip.
pub mod Slices
pub mod Fsm
pub mod RequestLine
pub mod From
pub mod To
pub mod Contact
pub mod Via
pub mod Cseq
pub mod Sdp
pub mod Progress
pub mod Address
pub mod StartLine
pub mod Transaction
pub mod Message
