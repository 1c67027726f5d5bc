-- ===== src/Formatter.antt =====
-- Core/Source/SolidSyslogFormatter.c: text written into a buffer of fixed size. The formatter is the
-- record below. A pointer into a NUL-terminated source string is the list of its bytes from there
-- on; behind the last byte of the list stands the terminator, which reads as 0.
pub mod Codepoint
pub mod Emit
pub mod Bounded
pub mod Faithful
pub mod Escape
pub mod Ends
pub mod Decimal
pub mod FixedWidth
pub mod Trim
pub mod Truncated
pub mod Ascii
mod Tests
use solid_syslog.Base.{
  ℕ, zero, suc, ◌+◌, ◌-◌, ◌*◌, ◌/◌, ◌%◌, ◌^◌, ◌≤◌, ◌<◌, min, ◌≡◌, ◌≢◌, refl, ap, ap₂, sym, subst,
  ◌∙◌, ◌⊎◌, inl, inr, ◌↔◌, map, bit_and, bit_or, bit_xor, Bool, true, false, not, ◌&&◌, ◌||◌, List,
  [], ◌∷◌, ◌++◌, append-nil, append_assoc, arith, length, get_or, set, take, drop, replicate, Bytes,
  byte_at, slice, blit, length-slice, byte_at-blit_before, byte_at-blit_after, slice-blit_self,
  length-blit, length-set, get_or-set_self, get_or-set_ne, length-take, length-drop,
  take-append-drop, take-eq_of_le, size_mod, add_size, sub_size, Bool-cases, leb, ltb, ltb→lt,
  lt→ltb, leb→le, le→leb, ==_iff, length-append, if◌then◌else◌, ◌==◌, Option, none, some,
}
use solid_syslog.Utf8.{is_two_byte_lead, is_three_byte_lead, is_four_byte_lead}
use solid_syslog.Formatter.Codepoint.{utf8_codepoint_length}

pub record Formatter : Type 0 where
  pub size : ℕ
  pub position : ℕ
  pub buffer : Bytes

unfoldable pub null_terminate : Formatter → Formatter
null_terminate self =
    if ltb 0 self.size then record self { buffer = set self.buffer self.position 0 } else self

-- the formatter over a storage of `buffer_size` bytes, whatever they held
unfoldable pub create : Bytes → ℕ → Formatter
create storage buffer_size =
    null_terminate (record { size = buffer_size; position = 0; buffer = storage })

abbrev pub has_capacity : Formatter → Bool
has_capacity self = ltb 0 self.size && ltb self.position (self.size - 1)

unfoldable pub write_char : Formatter → ℕ → Formatter
write_char self value =
    if has_capacity self
    then record self { buffer = set self.buffer self.position value; position = self.position + 1 }
    else self

unfoldable pub write_bytes : Formatter → Bytes → Formatter
write_bytes self [] = self
write_bytes self (b ∷ bytes) = write_bytes (write_char self b) bytes

abbrev pub is_printable_us_ascii : ℕ → Bool
is_printable_us_ascii value = leb b'!' value && leb value b'~'

abbrev pub is_ascii_character : ℕ → Bool
is_ascii_character value = value == b' ' || is_printable_us_ascii value

abbrev pub non_printable_substitute : ℕ
non_printable_substitute = b'?'

-- U+FFFD
abbrev pub replacement_character : Bytes
replacement_character = 0xEF ∷ 0xBF ∷ 0xBD ∷ []

unfoldable pub ascii_character : Formatter → ℕ → Formatter
ascii_character self value =
    null_terminate
      (write_char self (if not (is_ascii_character value) then non_printable_substitute else value))

unfoldable pub bom : Formatter → Formatter
bom self = null_terminate (write_bytes self (0xEF ∷ 0xBB ∷ 0xBF ∷ []))

unfoldable pub nil_value : Formatter → Formatter
nil_value self = ascii_character self b'-'

abbrev pub codepoint_fits : ℕ → ℕ → Bool
codepoint_fits codepoint_length remaining = ltb 0 codepoint_length && leb codepoint_length remaining

-- The loop of `BoundedString`, with `source` the pointer `&source[len]`. A round adds at least one
-- to `len`, so a fuel of `max_length` is enough: `Bounded.bounded_loop_ends`.
unfoldable pub bounded_loop : ℕ → Formatter → Bytes → ℕ → ℕ → Formatter
bounded_loop zero self source len max_length = self
bounded_loop (suc fuel) self source len max_length =
    let n = utf8_codepoint_length source in
    let copied =
      bounded_loop fuel (write_bytes self (take n source)) (drop n source) (len + n) max_length in
    let replaced =
      bounded_loop fuel (write_bytes self replacement_character) (drop 1 source) (len + 1)
        max_length in
    if ltb len max_length && not (byte_at source 0 == 0)
    then (if codepoint_fits n (max_length - len) then copied else replaced)
    else self

unfoldable pub bounded_string : Formatter → Bytes → ℕ → Formatter
bounded_string self source max_length =
    null_terminate (bounded_loop max_length self source 0 max_length)

-- `source` is the pointer `&Source[SourcePos]`.
pub record EscapedContext : Type 0 where
  pub formatter : Formatter
  pub source : Bytes
  pub decoded_length : ℕ
  pub max_decoded_length : ℕ
  pub exhausted : Bool

abbrev pub needs_escape : ℕ → Bool
needs_escape value = value == b'"' || value == b'\\' || value == b']'

abbrev pub is_exhausted : EscapedContext → Bool
is_exhausted context = context.exhausted || byte_at context.source 0 == 0

-- `DecodedLength` never passes `MaxDecodedLength`, so the difference does not wrap.
abbrev pub fits : EscapedContext → ℕ → Bool
fits context decoded_advance =
    ltb 0 decoded_advance
    && leb decoded_advance (context.max_decoded_length - context.decoded_length)

abbrev pub write_context : EscapedContext → Bytes → ℕ → ℕ → EscapedContext
write_context context bytes source_advance decoded_advance = record context {
  formatter = write_bytes context.formatter bytes;
  source = drop source_advance context.source;
  decoded_length = context.decoded_length + decoded_advance;
}

abbrev pub exhaust : EscapedContext → EscapedContext
exhaust context = record context { exhausted = true }

unfoldable pub write_escaped : EscapedContext → EscapedContext
write_escaped context =
    if fits context 1
    then write_context context (b'\\' ∷ byte_at context.source 0 ∷ []) 1 1
    else exhaust context

unfoldable pub write_replacement : EscapedContext → EscapedContext
write_replacement context =
    if fits context (length replacement_character)
    then write_context context replacement_character 1 (length replacement_character)
    else exhaust context

unfoldable pub write_codepoint : EscapedContext → EscapedContext
write_codepoint context =
    let n = utf8_codepoint_length context.source in
    if fits context n
    then write_context context (take n context.source) n n
    else write_replacement context

unfoldable pub escape_step : EscapedContext → EscapedContext
escape_step context =
    if needs_escape (byte_at context.source 0)
    then write_escaped context
    else write_codepoint context

-- the loop of `EscapedString`; `Escape.escaped_loop_ends` shows the fuel of `escaped_string` enough
unfoldable pub escaped_loop : ℕ → EscapedContext → EscapedContext
escaped_loop zero context = context
escaped_loop (suc fuel) context =
    let next = escaped_loop fuel (escape_step context) in
    if is_exhausted context then context else next

unfoldable pub escaped_string : Formatter → Bytes → ℕ → Formatter
escaped_string self source max_decoded_length =
    null_terminate
      (escaped_loop (suc max_decoded_length) (record {
        formatter = self;
        source = source;
        decoded_length = 0;
        max_decoded_length = max_decoded_length;
        exhausted = false;
      })).formatter

unfoldable pub write_printable_us_ascii_char : Formatter → ℕ → Formatter
write_printable_us_ascii_char self value =
    if is_printable_us_ascii value
    then write_char self value
    else write_char self non_printable_substitute

-- The loop of `PrintUsAsciiString`: a round for each of at most `max_length` bytes.
unfoldable pub print_loop : ℕ → Formatter → Bytes → Formatter
print_loop zero self source = self
print_loop (suc left) self source =
    let rest =
      print_loop left (write_printable_us_ascii_char self (byte_at source 0)) (drop 1 source) in
    if not (byte_at source 0 == 0) then rest else self

unfoldable pub print_us_ascii_string : Formatter → Bytes → ℕ → Formatter
print_us_ascii_string self source max_length = null_terminate (print_loop max_length self source)

abbrev pub digit_to_char : ℕ → ℕ
digit_to_char value = b'0' + value % 10

-- the loop of `CountDigits`; ten rounds are enough for a `uint32_t`
unfoldable pub count_loop : ℕ → ℕ → ℕ → ℕ
count_loop zero remaining count = count
count_loop (suc fuel) remaining count =
    let rest = count_loop fuel (remaining / 10) (count + 1) in
    if leb 10 remaining then rest else count

unfoldable pub count_digits : ℕ → ℕ
count_digits value = count_loop 10 value 1

-- `divisor *= 10U`, so many times
unfoldable pub raise_divisor : ℕ → ℕ → ℕ
raise_divisor zero divisor = divisor
raise_divisor (suc rounds) divisor = raise_divisor rounds (divisor * 10 % 2 ^ 32)

unfoldable pub write_digits : ℕ → Formatter → ℕ → ℕ → Formatter
write_digits zero self remaining divisor = self
write_digits (suc rounds) self remaining divisor =
    write_digits rounds (write_char self (digit_to_char (remaining / divisor)))
      (remaining % divisor) (divisor / 10)

unfoldable pub uint32 : Formatter → ℕ → Formatter
uint32 self value =
    let digits = count_digits value in
    null_terminate (write_digits digits self value (raise_divisor (digits - 1) 1))

unfoldable pub two_digit : Formatter → ℕ → Formatter
two_digit self value =
    null_terminate (write_char (write_char self (digit_to_char (value / 10))) (digit_to_char value))

unfoldable pub four_digit : Formatter → ℕ → Formatter
four_digit self value =
    let a = write_char self (digit_to_char (value / 1000)) in
    let b = write_char a (digit_to_char (value / 100)) in
    let c = write_char b (digit_to_char (value / 10)) in
    null_terminate (write_char c (digit_to_char value))

unfoldable pub six_digit : Formatter → ℕ → Formatter
six_digit self value =
    let a = write_char self (digit_to_char (value / 100000)) in
    let b = write_char a (digit_to_char (value / 10000)) in
    let c = write_char b (digit_to_char (value / 1000)) in
    let d = write_char c (digit_to_char (value / 100)) in
    let e = write_char d (digit_to_char (value / 10)) in
    null_terminate (write_char e (digit_to_char value))

-- from where `TrimTruncatedMultiByteTail` clears the buffer
unfoldable pub trim_from : Bytes → ℕ → ℕ
trim_from buffer p =
    if leb 1 p
      && (is_two_byte_lead (byte_at buffer (p - 1))
          || is_three_byte_lead (byte_at buffer (p - 1))
          || is_four_byte_lead (byte_at buffer (p - 1)))
    then p - 1
    else if leb 2 p
        && (is_three_byte_lead (byte_at buffer (p - 2))
            || is_four_byte_lead (byte_at buffer (p - 2)))
    then p - 2
    else if leb 3 p && is_four_byte_lead (byte_at buffer (p - 3))
    then p - 3
    else p

unfoldable pub as_formatted_buffer : Formatter → Formatter
as_formatted_buffer self =
    let from = trim_from self.buffer self.position in
    record self { buffer = blit self.buffer from (replicate (self.position - from) 0) }
