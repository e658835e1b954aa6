-- ===== src/Numbers.antt =====
-- The integer printers and parsers of string/numbers.cc: `Print` and `Parse` are the code.
pub mod Tables
pub mod Print
pub mod Parse
pub mod Decimal
mod Written
pub mod Word
pub mod Long
pub mod Itoa
pub mod Digits
pub mod LongLoop
pub mod ShortLoop
pub mod Value
pub mod Strip
pub mod Surround
pub mod RoundTrip
mod Tests
