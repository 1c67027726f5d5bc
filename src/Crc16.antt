-- ===== src/Crc16.antt =====
-- Core/Source/SolidSyslogCrc16.c and SolidSyslogCrc16Policy.c: the checksum of a stored record, and
-- the policy that seals a record with it. `uint16_t` wraps at 2 ^ 16.
pub mod Seal
mod Tests
use solid_syslog.Base.{
  ℕ, zero, suc, ◌+◌, ◌*◌, ◌/◌, ◌%◌, ◌^◌, bit_and, bit_or, bit_xor, Bool, not, List, [], ◌∷◌, ◌==◌,
  if◌then◌else◌, Bytes, byte_at,
}

abbrev pub crc16_ccitt_init : ℕ
crc16_ccitt_init = 0xFFFF

abbrev pub crc16_ccitt_poly : ℕ
crc16_ccitt_poly = 0x1021

abbrev pub msb_mask : ℕ
msb_mask = 0x8000

-- the inner loop, with so many bits to go
unfoldable pub bit_loop : ℕ → ℕ → ℕ
bit_loop zero crc = crc
bit_loop (suc bits) crc = bit_loop bits (
    if not (bit_and crc msb_mask == 0)
    then bit_xor (crc * 2) crc16_ccitt_poly % 2 ^ 16
    else crc * 2 % 2 ^ 16)

unfoldable pub byte_loop : Bytes → ℕ → ℕ
byte_loop [] crc = crc
byte_loop (b ∷ content) crc = byte_loop content (bit_loop 8 (bit_xor crc (b * 2 ^ 8 % 2 ^ 16)))

-- The length is that of the list.
unfoldable pub compute : Bytes → ℕ
compute content = byte_loop content crc16_ccitt_init

-- the two bytes of the trailer
unfoldable pub crc16_seal_record : Bytes → Bytes
crc16_seal_record content =
    let crc = compute content in (crc / 2 ^ 8 % 2 ^ 8) ∷ bit_and crc 0xFF ∷ []

unfoldable pub crc16_open_record : Bytes → Bytes → Bool
crc16_open_record content trailer =
    compute content == bit_or (byte_at trailer 0 * 2 ^ 8 % 2 ^ 16) (byte_at trailer 1)
