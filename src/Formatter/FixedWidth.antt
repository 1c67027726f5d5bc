-- ===== src/Formatter/FixedWidth.antt =====
-- `TwoDigit`, `FourDigit` and `SixDigit`: numbers in a fixed number of digits.
use solid_syslog.Base.{◌%◌, ℕ, ◌/◌, ◌≡◌, refl, [], ◌∷◌, arith, length, Bytes}
use solid_syslog.Formatter.{Formatter, write_bytes, digit_to_char, two_digit, four_digit, six_digit}
use solid_syslog.Formatter.Emit.{IsValid, Emits, terminated-Emits}
use solid_syslog.Formatter.Decimal.{read_decimal, AllDigits}

-- `v` in exactly `n` digits, appended as far as they fit
pub record Prints (n v : ℕ) (f g : Formatter) : Type 0 where
  pub bytes : Bytes
  pub width : length bytes ≡ n
  pub digits : AllDigits bytes
  pub value : read_decimal 0 bytes ≡ v
  pub emits : Emits f bytes g

-- From a valid formatter, `TwoDigit`, `FourDigit` and `SixDigit` print a number's last so many digits,
-- zeros in front: the number itself, if it has no more digits.
pub fixed_width_lem :
    (f : Formatter) (v : ℕ)
    → IsValid f
    → (Prints 2 (v % 100) f (two_digit f v))
      × (Prints 4 (v % 10000) f (four_digit f v))
      × (Prints 6 (v % 1000000) f (six_digit f v))
unfolding two_digit four_digit six_digit read_decimal
fixed_width_lem f v valid = (two, four, six)
  where
    two : Prints 2 (v % 100) f (two_digit f v)
    two =
        let bytes : Bytes = digit_to_char (v / 10) ∷ digit_to_char v ∷ [] in
        record {
          bytes = bytes;
          width = refl;
          digits = omega arith;
          value = omega arith;
          emits = unfold write_bytes in terminated-Emits bytes valid;
        }

    four : Prints 4 (v % 10000) f (four_digit f v)
    four =
        let bytes : Bytes =
          digit_to_char (v / 1000)
          ∷ digit_to_char (v / 100)
          ∷ digit_to_char (v / 10)
          ∷ digit_to_char v
          ∷ [] in
        record {
          bytes = bytes;
          width = refl;
          digits = omega arith;
          value = omega arith;
          emits = unfold write_bytes in terminated-Emits bytes valid;
        }

    six : Prints 6 (v % 1000000) f (six_digit f v)
    six =
        let bytes : Bytes =
          digit_to_char (v / 100000)
          ∷ digit_to_char (v / 10000)
          ∷ digit_to_char (v / 1000)
          ∷ digit_to_char (v / 100)
          ∷ digit_to_char (v / 10)
          ∷ digit_to_char v
          ∷ [] in
        record {
          bytes = bytes;
          width = refl;
          digits = omega arith;
          value = omega arith;
          emits = unfold write_bytes in terminated-Emits bytes valid;
        }
