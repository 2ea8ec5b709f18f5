-- ===== src/X75.antt =====
-- The X.75 (LAPB) link layer of src/x75.
pub mod Life
pub mod Listening
pub mod Delivery
pub mod Params
pub mod Deliver
pub mod Examples
pub mod Types
pub mod Timer
pub mod Frame
pub mod Octets
pub mod Codec
pub mod Supervisory
pub mod Control
pub mod Ring
pub mod Nr
pub mod Send
pub mod Ack
pub mod Sending
pub mod Window
pub mod Core
pub mod Wf
pub mod Carry
pub mod Read
pub mod T2
pub mod Retry
pub mod Handshake
pub mod Input
pub mod Reconnect
pub mod Requeue
pub mod Queues
pub mod Kick
pub mod In
pub mod Transfer
pub mod Expiry
pub mod Iface
