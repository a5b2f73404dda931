-- ===== src/MarioKartWii.antt =====
-- common/mario_kart_wii.go: the checks of a ghost file that a client uploads, and of the Yaz1
-- stream in it. A byte is a number below 256; a slice is its bytes.
pub mod Yaz1
pub mod Total
pub mod Decoder
pub mod Verified
pub mod Accepted
pub mod Bits
pub mod Ghost
pub mod Checked
pub mod Contents
mod Examples
