-- ===== src/B255.antt =====
-- b255/src: the Base255 codec. A byte slice is a list of numbers below 256. The Cargo features
-- `encode` and `decode` only select which of the two functions is compiled.
mod Radix
pub mod Util
pub mod Encode
pub mod Decode
pub mod Codec
pub mod Texts
pub mod Errors
mod Tests
