-- ===== src/Utf8.antt =====
-- Core/Source/SolidSyslogUtf8.h: the classes of bytes in UTF-8. A `char` read as `unsigned char` is
-- a number below 256.
pub mod Classes
pub mod Scalar
pub mod Cut
pub mod Boundary
use solid_syslog.Base.{ℕ, Bool, bit_and, ◌==◌}

unfoldable pub is_ascii_byte : ℕ → Bool
is_ascii_byte byte = bit_and byte 0x80 == 0

unfoldable pub is_continuation_byte : ℕ → Bool
is_continuation_byte byte = bit_and byte 0xC0 == 0x80

unfoldable pub is_two_byte_lead : ℕ → Bool
is_two_byte_lead byte = bit_and byte 0xE0 == 0xC0

unfoldable pub is_three_byte_lead : ℕ → Bool
is_three_byte_lead byte = bit_and byte 0xF0 == 0xE0

unfoldable pub is_four_byte_lead : ℕ → Bool
is_four_byte_lead byte = bit_and byte 0xF8 == 0xF0
