-- ===== src/Decimal.antt =====
-- The language's decimal conversions of `long long`: `std::to_string` and `std::to_chars`,
-- `std::from_chars`, and the `to_integer` that src/resp.cpp and src/commands.cpp build on it.
mod Digits
mod Signed
pub mod Numerals
pub use Digits.{IsLine, leads_digit-digit_text}
unfoldable pub use Digits.{digit_text, leads_digit, is_digit, scan}
pub use Signed.{
  from_chars-to_string, from_chars-digits, signed_sound, signed-length, to_integer-to_string,
  to_integer-IsLongLong, to_string-IsLine, Firm, signed-Firm,
}
unfoldable pub use Signed.{to_string, from_chars, signed, to_integer}
