-- ===== src/Gateway.antt =====
-- The programs that join an ISDN line to something else.
pub mod Examples
pub mod Ppp
pub mod X75
pub mod Decoder
pub mod Tty
