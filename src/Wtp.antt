-- ===== src/Wtp.antt =====
-- client/wtp/wtp: the WISP transmission protocol.
pub mod Packet
pub mod Tx
pub mod Rx
pub mod Endpoint
pub mod Link
