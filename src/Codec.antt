-- ===== src/Codec.antt =====
-- src/codec.rs, the binary encoding of span records. `Encode` and `Decode` model the code; the other
-- modules prove that decoding is the inverse of encoding, on one record and on a stream of them.
pub mod Words
pub mod Encode
pub mod Decode
pub mod Fields
pub mod RoundTrip
pub mod Prefixes
pub mod Stream
pub mod Samples
mod Tests
