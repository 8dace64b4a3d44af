-- ===== src/Ncp.antt =====
-- internal/ncp: the serial protocol of the nRF52840 network co-processor.
pub mod Crc
pub mod Frame
pub mod RawReader
pub mod Hdlc
pub mod Link
pub mod Zcl
pub mod Indication
pub mod Transport
pub mod Commands
mod Examples
