-- ===== src/Formatter/Codepoint.antt =====
-- The UTF-8 validation of SolidSyslogFormatter.c. A pointer into a NUL-terminated string is the
-- list of bytes from there on, and the byte behind its last is the terminator.
pub mod Ranges
pub mod Sound
pub mod Complete
use solid_syslog.Base.{
  ℕ, zero, suc, ◌+◌, ◌-◌, ◌*◌, ◌/◌, ◌%◌, ◌^◌, ◌≤◌, ◌<◌, min, ◌≡◌, ◌≢◌, refl, ap, ap₂, sym, subst,
  ◌∙◌, ◌⊎◌, inl, inr, ◌↔◌, map, bit_and, bit_or, bit_xor, Bool, true, false, not, ◌&&◌, ◌||◌, List,
  [], ◌∷◌, ◌++◌, append-nil, append_assoc, arith, length, get_or, set, take, drop, replicate, Bytes,
  byte_at, slice, blit, length-slice, byte_at-blit_before, byte_at-blit_after, slice-blit_self,
  length-blit, length-set, get_or-set_self, get_or-set_ne, length-take, length-drop,
  take-append-drop, take-eq_of_le, size_mod, add_size, sub_size, Bool-cases, leb, ltb, ltb→lt,
  lt→ltb, leb→le, le→leb, ==_iff, length-append, if◌then◌else◌, ◌==◌, Option, none, some,
}
use solid_syslog.Utf8.{
  is_ascii_byte, is_continuation_byte, is_two_byte_lead, is_three_byte_lead, is_four_byte_lead,
}

unfoldable pub is_overlong_two_byte_lead : ℕ → Bool
is_overlong_two_byte_lead byte = bit_and byte 0xFE == 0xC0

unfoldable pub is_valid_utf8_two_byte : ℕ → ℕ → Bool
is_valid_utf8_two_byte lead continuation1 =
    is_two_byte_lead lead
    && not (is_overlong_two_byte_lead lead)
    && is_continuation_byte continuation1

unfoldable pub is_overlong_three_byte_encoding : ℕ → ℕ → Bool
is_overlong_three_byte_encoding lead continuation1 =
    lead == 0xE0 && bit_and continuation1 0xE0 == 0x80

unfoldable pub is_utf16_surrogate_encoding : ℕ → ℕ → Bool
is_utf16_surrogate_encoding lead continuation1 = lead == 0xED && bit_and continuation1 0xE0 == 0xA0

unfoldable pub is_valid_utf8_three_byte : ℕ → ℕ → ℕ → Bool
is_valid_utf8_three_byte lead continuation1 continuation2 =
    is_three_byte_lead lead
    && is_continuation_byte continuation1
    && is_continuation_byte continuation2
    && not (is_overlong_three_byte_encoding lead continuation1)
    && not (is_utf16_surrogate_encoding lead continuation1)

unfoldable pub is_overlong_four_byte_encoding : ℕ → ℕ → Bool
is_overlong_four_byte_encoding lead continuation1 =
    lead == 0xF0 && bit_and continuation1 0xF0 == 0x80

unfoldable pub is_above_unicode_max_encoding : ℕ → ℕ → Bool
is_above_unicode_max_encoding lead continuation1 =
    (lead == 0xF4 && not (bit_and continuation1 0xF0 == 0x80)) || (leb 0xF5 lead && leb lead 0xF7)

unfoldable pub is_valid_utf8_four_byte : ℕ → ℕ → ℕ → ℕ → Bool
is_valid_utf8_four_byte lead continuation1 continuation2 continuation3 =
    is_four_byte_lead lead
    && is_continuation_byte continuation1
    && is_continuation_byte continuation2
    && is_continuation_byte continuation3
    && not (is_overlong_four_byte_encoding lead continuation1)
    && not (is_above_unicode_max_encoding lead continuation1)

unfoldable pub utf8_codepoint_length : Bytes → ℕ
utf8_codepoint_length source =
    let c0 = byte_at source 0 in
    let c1 = byte_at source 1 in
    let c2 = byte_at source 2 in
    let c3 = byte_at source 3 in
    if is_ascii_byte c0
    then 1
    else if not (c1 == 0) && is_valid_utf8_two_byte c0 c1
    then 2
    else if not (c1 == 0) && not (c2 == 0) && is_valid_utf8_three_byte c0 c1 c2
    then 3
    else if not (c1 == 0) && not (c2 == 0) && not (c3 == 0) && is_valid_utf8_four_byte c0 c1 c2 c3
    then 4
    else 0
