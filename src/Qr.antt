-- ===== src/Qr.antt =====
-- src/lib/qr.ts: the QR code of a join URL: byte mode, error correction level M, versions 1 to 10.
pub mod Encode
pub mod Bits
pub mod RoundTrip
pub mod Fits
pub mod Field
pub mod Blocks
pub mod Deal
pub mod Codewords
mod Tests
