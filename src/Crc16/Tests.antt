-- ===== src/Crc16/Tests.antt =====
-- The check value of the catalogue, and the theorem at its text.
use solid_syslog.Base.{◌⊎◌, ◌≢◌, false, true, [], ◌∷◌, ◌≡◌, refl, arith, Bytes}
use solid_syslog.Crc16.{bit_loop, byte_loop, compute, crc16_seal_record, crc16_open_record}
use solid_syslog.Crc16.Seal.{crc16_open_record-exactly}

abbrev digits : Bytes
digits = b'1' ∷ b'2' ∷ b'3' ∷ b'4' ∷ b'5' ∷ b'6' ∷ b'7' ∷ b'8' ∷ b'9' ∷ []

check_value : compute digits ≡ 0x29B1
unfolding compute byte_loop bit_loop
check_value = refl

check_value_opens : crc16_open_record digits (0x29 ∷ 0xB1 ∷ []) ≡ true
unfolding crc16_open_record compute byte_loop bit_loop
check_value_opens = refl

crc16_open_record-exactly_example :
    (crc16_open_record digits (crc16_seal_record digits) ≡ true)
    × (((crc16_open_record digits (0x29 ∷ 0xB1 ∷ []) ≡ true)
          × (0x29 ∷ 0xB1 ∷ [] ≡ crc16_seal_record digits))
        ⊎ ((crc16_open_record digits (0x29 ∷ 0xB1 ∷ []) ≡ false)
            × (0x29 ∷ 0xB1 ∷ [] ≢ crc16_seal_record digits)))
crc16_open_record-exactly_example =
    crc16_open_record-exactly digits 0x29 0xB1 (omega arith) (omega arith)
