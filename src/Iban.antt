-- ===== src/Iban.antt =====
-- pkg/iban: Irish IBANs and the ISO 7064 check digits.
pub mod Text
pub mod Code
pub mod Digits
pub mod Generated
pub mod Round
pub mod Detects
pub mod Formatted
pub mod Tests
