-- ===== src/Idns.antt =====
-- idns/src: DNS records and the Sender Policy Framework. `Address` and `Records` are what the
-- parsers of the record types share.
pub mod Address
pub mod Records
pub mod Spf
mod Tests
