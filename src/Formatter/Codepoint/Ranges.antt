-- ===== src/Formatter/Codepoint/Ranges.antt =====
-- The validation as comparisons with the ranges of RFC 3629.
use solid_syslog.Base.{
  ℕ, ◌<◌, ◌≡◌, refl, bit_and, Bool, not, ◌&&◌, arith, Bytes, byte_at, leb, ltb, if◌then◌else◌, ◌==◌,
}
use solid_syslog.Base.Bits.{passes_from}
use solid_syslog.Utf8.{is_two_byte_lead}
use solid_syslog.Utf8.Classes.{
  is_ascii_byte_range, within, by_table, is_continuation_byte_range, is_three_byte_lead_range,
  is_four_byte_lead_range,
}
use solid_syslog.Formatter.Codepoint.{
  utf8_codepoint_length, is_overlong_two_byte_lead, is_valid_utf8_two_byte,
  is_overlong_three_byte_encoding, is_utf16_surrogate_encoding, is_valid_utf8_three_byte,
  is_overlong_four_byte_encoding, is_above_unicode_max_encoding, is_valid_utf8_four_byte,
}

lead_two : ℕ → Bool
lead_two b = is_two_byte_lead b && not (is_overlong_two_byte_lead b)

lead_two_range : (b : ℕ) → b < 256 → lead_two b ≡ within 194 224 b
unfolding lead_two is_two_byte_lead is_overlong_two_byte_lead passes_from
lead_two_range = by_table lead_two (within 194 224) refl

-- the upper four and the upper three bits of a continuation byte
low_sixteenth : (b : ℕ) → b < 256 → (bit_and b 0xF0 == 0x80) ≡ within 128 144 b
unfolding passes_from
low_sixteenth = by_table (λ b. bit_and b 0xF0 == 0x80) (within 128 144) refl

lower_half : (b : ℕ) → b < 256 → (bit_and b 0xE0 == 0x80) ≡ within 128 160 b
unfolding passes_from
lower_half = by_table (λ b. bit_and b 0xE0 == 0x80) (within 128 160) refl

upper_half : (b : ℕ) → b < 256 → (bit_and b 0xE0 == 0xA0) ≡ within 160 192 b
unfolding passes_from
upper_half = by_table (λ b. bit_and b 0xE0 == 0xA0) (within 160 192) refl

abbrev pub continues : ℕ → Bool
continues = within 128 192

abbrev pub two_bytes : ℕ → ℕ → Bool
two_bytes a b = within 194 224 a && continues b

abbrev pub three_bytes : ℕ → ℕ → ℕ → Bool
three_bytes a b c =
    within 224 240 a
    && continues b
    && continues c
    && not (a == 224 && ltb b 160)
    && not (a == 237 && leb 160 b)

abbrev pub four_bytes : ℕ → ℕ → ℕ → ℕ → Bool
four_bytes a b c d =
    within 240 245 a
    && continues b
    && continues c
    && continues d
    && not (a == 240 && ltb b 144)
    && not (a == 244 && leb 144 b)

pub is_valid_utf8_two_byte_range :
    (a b : ℕ) → a < 256 → b < 256 → is_valid_utf8_two_byte a b ≡ two_bytes a b
unfolding is_valid_utf8_two_byte lead_two
is_valid_utf8_two_byte_range a b ha hb =
    let lead : lead_two a ≡ within 194 224 a = lead_two_range a ha in
    rw (is_continuation_byte_range b hb) (ground arith)

pub is_valid_utf8_three_byte_range :
    (a b c : ℕ) → a < 256 → b < 256 → c < 256 → is_valid_utf8_three_byte a b c ≡ three_bytes a b c
unfolding is_valid_utf8_three_byte is_overlong_three_byte_encoding is_utf16_surrogate_encoding
is_valid_utf8_three_byte_range a b c ha hb hc =
    rw
      (
        is_three_byte_lead_range a ha,
        is_continuation_byte_range b hb,
        is_continuation_byte_range c hc,
        lower_half b hb,
        upper_half b hb,
      )
      (ground arith)

pub is_valid_utf8_four_byte_range :
    (a b c d : ℕ)
    → a < 256
    → b < 256
    → c < 256
    → d < 256
    → is_valid_utf8_four_byte a b c d ≡ four_bytes a b c d
unfolding is_valid_utf8_four_byte is_overlong_four_byte_encoding is_above_unicode_max_encoding
is_valid_utf8_four_byte_range a b c d ha hb hc hd =
    rw
      (
        is_four_byte_lead_range a ha,
        is_continuation_byte_range b hb,
        is_continuation_byte_range c hc,
        is_continuation_byte_range d hd,
        low_sixteenth b hb,
      )
      (ground arith)

-- `Formatter_Utf8CodepointLength` in terms of the ranges
abbrev pub ranged_length : ℕ → ℕ → ℕ → ℕ → ℕ
ranged_length a b c d =
    if ltb a 128
    then 1
    else if two_bytes a b
    then 2
    else if three_bytes a b c
    then 3
    else if four_bytes a b c d
    then 4
    else 0

-- The tests for the terminator add nothing: a byte that continues is not the terminator.
two_bytes-ne-nul : (a b : ℕ) → (not (b == 0) && two_bytes a b) ≡ two_bytes a b
two_bytes-ne-nul a b = ground arith

three_bytes-ne-nul :
    (a b c : ℕ) → (not (b == 0) && not (c == 0) && three_bytes a b c) ≡ three_bytes a b c
three_bytes-ne-nul a b c = ground arith

four_bytes-ne-nul :
    (a b c d : ℕ)
    → (not (b == 0) && not (c == 0) && not (d == 0) && four_bytes a b c d) ≡ four_bytes a b c d
four_bytes-ne-nul a b c d = ground arith

-- The length that `Formatter_Utf8CodepointLength` computes from the masks is that of the ranges.
pub utf8_codepoint_length_ranged :
    (s : Bytes)
    → byte_at s 0 < 256
    → byte_at s 1 < 256
    → byte_at s 2 < 256
    → byte_at s 3 < 256
    → utf8_codepoint_length s
      ≡ ranged_length (byte_at s 0) (byte_at s 1) (byte_at s 2) (byte_at s 3)
unfolding utf8_codepoint_length
utf8_codepoint_length_ranged s ha hb hc hd = rw (
  is_ascii_byte_range (byte_at s 0) ha,
  is_valid_utf8_two_byte_range (byte_at s 0) (byte_at s 1) ha hb,
  is_valid_utf8_three_byte_range (byte_at s 0) (byte_at s 1) (byte_at s 2) ha hb hc,
  is_valid_utf8_four_byte_range (byte_at s 0) (byte_at s 1) (byte_at s 2) (byte_at s 3) ha hb hc hd,
  two_bytes-ne-nul (byte_at s 0) (byte_at s 1),
  three_bytes-ne-nul (byte_at s 0) (byte_at s 1) (byte_at s 2),
  four_bytes-ne-nul (byte_at s 0) (byte_at s 1) (byte_at s 2) (byte_at s 3),
)
