-- ===== src/Formatter/Tests.antt =====
-- Runs of the formatter on concrete texts, and the theorems at them.
use solid_syslog.Base.{
  ◌%◌, ◌<◌, min, ◌≡◌, refl, inl, inr, [], ◌∷◌, ◌++◌, ◌-◌, arith, length, replicate, Bytes, some,
  false, blit,
}
use solid_syslog.Utf8.Scalar.{WellFormed, empty, codepoint, encode}
use solid_syslog.Utf8.{
  is_ascii_byte, is_continuation_byte, is_two_byte_lead, is_three_byte_lead, is_four_byte_lead,
}
use solid_syslog.Formatter.Codepoint.{
  utf8_codepoint_length, is_valid_utf8_two_byte, is_valid_utf8_three_byte, is_valid_utf8_four_byte,
  is_overlong_two_byte_lead, is_overlong_three_byte_encoding, is_utf16_surrogate_encoding,
}
use solid_syslog.Formatter.Codepoint.Sound.{Starts, utf8_codepoint_length-Starts}
use solid_syslog.Formatter.Codepoint.Complete.{utf8_codepoint_length-encode}
use solid_syslog.Formatter.{
  create, null_terminate, count_digits, count_loop, raise_divisor, write_digits, write_char,
  write_bytes, bounded_loop, bounded_string, EscapedContext, escape_step, write_escaped,
  write_replacement, write_codepoint, escaped_loop, escaped_string, print_us_ascii_string, uint32,
  two_digit, four_digit, six_digit, trim_from, as_formatted_buffer,
}
use solid_syslog.Formatter.Emit.{IsValid, Emits, create-IsValid}
use solid_syslog.Formatter.Bounded.{bounded_text, bounded_string-Emits}
use solid_syslog.Formatter.Decimal.{Numeral, uint32_lem}
use solid_syslog.Formatter.FixedWidth.{Prints, fixed_width_lem}
use solid_syslog.Formatter.Ends.{string_loops_end}
use solid_syslog.Formatter.Escape.Reader.{read_value}
use solid_syslog.Formatter.Escape.Pieces.{Decodes, escaped_string-Decodes}
use solid_syslog.Formatter.Escape.RoundTrip.{escaped_string_round_trip}
use solid_syslog.Formatter.Trim.{Trimmed}
use solid_syslog.Formatter.Truncated.{truncated_text-Trimmed}
use solid_syslog.Formatter.Ascii.{up_to_terminator, Substituted, print_us_ascii_string_lem}

-- a letter, a euro sign and a letter
abbrev euro : Bytes
euro = b'a' ∷ 0xE2 ∷ 0x82 ∷ 0xAC ∷ b'b' ∷ []

-- a lead byte with no continuation, in quotes
abbrev broken : Bytes
broken = b'"' ∷ 0xC3 ∷ b'"' ∷ 0 ∷ b'x' ∷ []

euro-WellFormed : WellFormed euro
unfolding encode
euro-WellFormed =
    codepoint b'a' (inl (omega arith))
      (codepoint 0x20AC (inl (omega arith)) (codepoint b'b' (inl (omega arith)) empty))

abbrev storage : Bytes
storage = replicate 8 0xFF

valid : IsValid (create storage 8)
valid = (create-IsValid storage 8 (omega arith)).0

abbrev sign : Bytes
sign = 0xE2 ∷ 0x82 ∷ 0xAC ∷ []

-- a longer storage keeps the whole text, a short one loses the sign that does not fit
escapes_quotes : (escaped_string (create (replicate 12 0xFF) 12) broken 9).position ≡ 7
unfolding create null_terminate write_char write_bytes escape_step write_escaped write_replacement
    write_codepoint escaped_loop escaped_string utf8_codepoint_length is_ascii_byte
    is_valid_utf8_two_byte is_valid_utf8_three_byte is_valid_utf8_four_byte is_continuation_byte
    is_two_byte_lead is_three_byte_lead is_four_byte_lead is_overlong_two_byte_lead
escapes_quotes = refl

sign_cleared :
    (as_formatted_buffer (bounded_string (create (replicate 5 0xFF) 4) euro 5)).buffer
    ≡ b'a' ∷ 0 ∷ 0 ∷ 0 ∷ 0xFF ∷ []
unfolding create null_terminate write_char write_bytes bounded_loop bounded_string
    utf8_codepoint_length is_ascii_byte is_valid_utf8_two_byte is_valid_utf8_three_byte
    is_valid_utf8_four_byte is_continuation_byte is_two_byte_lead is_three_byte_lead
    is_four_byte_lead is_overlong_two_byte_lead is_overlong_three_byte_encoding
    is_utf16_surrogate_encoding trim_from as_formatted_buffer blit
sign_cleared = refl

prints_number : (uint32 (create storage 8) 407).buffer ≡ b'4' ∷ b'0' ∷ b'7' ∷ 0 ∷ replicate 4 0xFF
unfolding create null_terminate write_char write_digits count_digits count_loop raise_divisor uint32
prints_number = refl

truncated_text-Trimmed_example :
    let g = bounded_string (create storage 4) euro 5 in
    (g.position ≡ min (4 - 1) (length euro))
    × Trimmed g euro (trim_from g.buffer g.position) (as_formatted_buffer g)
truncated_text-Trimmed_example =
    truncated_text-Trimmed storage 4 euro 5 (omega arith) euro-WellFormed (omega arith)
      (omega arith)

euro_measured : 0 < utf8_codepoint_length sign
unfolding encode
euro_measured = omega (arith, utf8_codepoint_length-encode 0x20AC [] (inl (omega arith)) tt)

utf8_codepoint_length-Starts_example : Starts sign (utf8_codepoint_length sign)
utf8_codepoint_length-Starts_example =
    utf8_codepoint_length-Starts sign (omega arith) (omega arith) euro_measured

utf8_codepoint_length-encode_example :
    utf8_codepoint_length (encode 0x1F600 ++ b'!' ∷ []) ≡ length (encode 0x1F600)
utf8_codepoint_length-encode_example =
    utf8_codepoint_length-encode 0x1F600 (b'!' ∷ []) (inr (omega arith, omega arith)) (omega arith)

bounded_string-Emits_example :
    WellFormed (bounded_text 4 broken 0 4)
    × Emits
        (create storage 8)
        (bounded_text 4 broken 0 4)
        (bounded_string (create storage 8) broken 4)
bounded_string-Emits_example = bounded_string-Emits (create storage 8) broken 4 valid (omega arith)

escaped_string-Decodes_example :
    (both : Bytes × Bytes) × Decodes 4 both
    × Emits (create storage 8) both.0 (escaped_string (create storage 8) broken 4)
escaped_string-Decodes_example =
    escaped_string-Decodes (create storage 8) broken 4 valid (omega arith)

escaped_string_round_trip_example :
    (written : Bytes) × Emits (create storage 8) written (escaped_string (create storage 8) euro 5)
    × ((rest : Bytes) → read_value (written ++ b'"' ∷ rest) ≡ some (euro, rest))
escaped_string_round_trip_example =
    escaped_string_round_trip (create storage 8) euro 5 valid euro-WellFormed (omega arith)
      (omega arith)

abbrev context : EscapedContext
context = record {
  formatter = create storage 8;
  source = broken;
  decoded_length = 0;
  max_decoded_length = 4;
  exhausted = false;
}

string_loops_end_example :
    (bounded_loop 5 (create storage 8) euro 0 5 ≡ bounded_loop 9 (create storage 8) euro 0 5)
    × (escaped_loop 5 context ≡ escaped_loop 9 context)
string_loops_end_example =
    string_loops_end 5 9 (create storage 8) euro 0 5 context (omega arith) (omega arith) refl
      (omega arith) (omega arith) (omega arith)

uint32_lem_example :
    (bytes : Bytes) × Numeral 4294967295 bytes
    × Emits (create storage 8) bytes (uint32 (create storage 8) 4294967295)
uint32_lem_example = uint32_lem (create storage 8) 4294967295 (omega arith) valid

fixed_width_lem_example :
    Prints 2 (107 % 100) (create storage 8) (two_digit (create storage 8) 107)
    × Prints 4 (107 % 10000) (create storage 8) (four_digit (create storage 8) 107)
    × Prints 6 (107 % 1000000) (create storage 8) (six_digit (create storage 8) 107)
fixed_width_lem_example = fixed_width_lem (create storage 8) 107 valid

print_us_ascii_string_lem_example :
    (written : Bytes) × Substituted (up_to_terminator 4 broken) written
    × Emits (create storage 8) written (print_us_ascii_string (create storage 8) broken 4)
print_us_ascii_string_lem_example = print_us_ascii_string_lem (create storage 8) broken 4 valid
