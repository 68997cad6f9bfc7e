-- ===== src/Msgpack.antt =====
-- go/internal/msgpack: the encoder and the decoder (msgpack.go), and the patching of an encoded map
-- (scan.go).
pub mod Value
pub mod Encode
pub mod Decode
pub mod Header
pub mod Number
pub mod Wire
mod Whole
pub mod RoundTrip
pub mod Inject
pub mod Ends
pub mod Total
