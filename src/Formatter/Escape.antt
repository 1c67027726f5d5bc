-- ===== src/Formatter/Escape.antt =====
-- `EscapedString`: each round writes one piece of the source, and the pieces make up the text.
pub mod Reader
pub mod Pieces
pub mod RoundTrip
use solid_syslog.Base.{
  ℕ, zero, suc, ◌+◌, ◌-◌, ◌*◌, ◌/◌, ◌%◌, ◌^◌, ◌≤◌, ◌<◌, min, ◌≡◌, ◌≢◌, refl, ap, ap₂, sym, subst,
  ◌∙◌, ◌⊎◌, inl, inr, ◌↔◌, map, bit_and, bit_or, bit_xor, Bool, true, false, not, ◌&&◌, ◌||◌, List,
  [], ◌∷◌, ◌++◌, append-nil, append_assoc, arith, length, get_or, set, take, drop, replicate, Bytes,
  byte_at, slice, blit, length-slice, byte_at-blit_before, byte_at-blit_after, slice-blit_self,
  length-blit, length-set, get_or-set_self, get_or-set_ne, length-take, length-drop,
  take-append-drop, take-eq_of_le, size_mod, add_size, sub_size, Bool-cases, leb, ltb, ltb→lt,
  lt→ltb, leb→le, le→leb, ==_iff, length-append, if◌then◌else◌, ◌==◌, Option, none, some,
}
use solid_syslog.Utf8.Scalar.{
  IsScalar, encode, WellFormed, empty, codepoint, AllBytes, AllBytes-drop, WellFormed-append,
  WellFormed-encode, encode_one, encode_two, encode_three, encode_four,
}
use solid_syslog.Formatter.Codepoint.{utf8_codepoint_length}
use solid_syslog.Formatter.Codepoint.Sound.{Starts, byte_at-lt, utf8_codepoint_length-Starts}
use solid_syslog.Formatter.Codepoint.Complete.{utf8_codepoint_length-encode}
use solid_syslog.Formatter.{
  Formatter, null_terminate, create, has_capacity, write_char, write_bytes, is_printable_us_ascii,
  is_ascii_character, non_printable_substitute, replacement_character, ascii_character, bom,
  nil_value, codepoint_fits, bounded_loop, bounded_string, EscapedContext, needs_escape,
  is_exhausted, fits, write_context, exhaust, write_escaped, write_replacement, write_codepoint,
  escape_step, escaped_loop, escaped_string, write_printable_us_ascii_char, print_loop,
  print_us_ascii_string, digit_to_char, count_loop, count_digits, raise_divisor, write_digits,
  uint32, two_digit, four_digit, six_digit, trim_from, as_formatted_buffer,
}
use solid_syslog.Formatter.Emit.{
  IsValid, text, room, Appended, write_bytes-Appended, write_bytes-append, Emits, terminated-Emits,
}

-- what a round writes, what a reader decodes from it, and how far it moves the source and the count
pub record Piece : Type 0 where
  pub bytes : Bytes
  pub decoded : Bytes
  pub advance : ℕ
  pub decoded_advance : ℕ

-- the piece at the head of the source, with `left` bytes of the decoded length to go; `none` where
-- the round exhausts the context
pub piece : Bytes → ℕ → Option Piece
piece source left =
    let c = byte_at source 0 in
    let n = utf8_codepoint_length source in
    if needs_escape c
    then if leb 1 left
      then some
          (record { bytes = b'\\' ∷ c ∷ []; decoded = c ∷ []; advance = 1; decoded_advance = 1 })
      else none
    else if ltb 0 n && leb n left
    then some (record {
      bytes = take n source;
      decoded = take n source;
      advance = n;
      decoded_advance = n;
    })
    else if leb 3 left
    then some (record {
      bytes = replacement_character;
      decoded = replacement_character;
      advance = 1;
      decoded_advance = 3;
    })
    else none

abbrev take_piece : EscapedContext → Option Piece → EscapedContext
take_piece context none = exhaust context
take_piece context (some p) = write_context context p.bytes p.advance p.decoded_advance

-- A round of the loop takes the piece.
escape_step-piece :
    (context : EscapedContext)
    → escape_step context
      ≡ take_piece context
          (piece context.source (context.max_decoded_length - context.decoded_length))
unfolding escape_step piece write_escaped write_codepoint write_replacement
escape_step-piece context =
    let c = byte_at context.source 0 in
    let n = utf8_codepoint_length context.source in
    let left = context.max_decoded_length - context.decoded_length in
    elim (Bool-cases (needs_escape c)) [
      | inl special ↦ elim (Bool-cases (leb 1 left)) [
        | inl one ↦ rw (special, one)
        | inr nothing ↦ rw (special, nothing)
      ]
      | inr plain ↦ elim (Bool-cases (ltb 0 n && leb n left)) [
        | inl copy ↦ rw (plain, copy)
        | inr invalid ↦ elim (Bool-cases (leb 3 left)) [
          | inl three ↦ rw (plain, invalid, three)
          | inr nothing ↦ rw (plain, invalid, nothing)
        ]
      ]
    ]

-- a piece in front of what the rest of the source gives
abbrev pub in_front : Option Piece → (Piece → Bytes × Bytes) → Bytes × Bytes
in_front none rest = ([], [])
in_front (some p) rest = (p.bytes ++ (rest p).0, p.decoded ++ (rest p).1)

-- all the bytes written, and all that a reader decodes from them
unfoldable pub texts : ℕ → Bytes → ℕ → Bytes × Bytes
texts zero source left = ([], [])
texts (suc fuel) source left =
    let more =
      in_front (piece source left)
        (λ p. texts fuel (drop p.advance source) (left - p.decoded_advance)) in
    if byte_at source 0 == 0 then ([], []) else more

escaped_loop-exhaust :
    (fuel : ℕ) (context : EscapedContext) → escaped_loop fuel (exhaust context) ≡ exhaust context
unfolding escaped_loop
escaped_loop-exhaust zero context = refl
escaped_loop-exhaust (suc fuel) context = refl

-- what the loop is shown to write, for a fuel
abbrev LoopText : ℕ → Type 0
LoopText fuel =
    (context : EscapedContext) (left : ℕ)
    → context.exhausted ≡ false
    → context.max_decoded_length - context.decoded_length ≡ left
    → (escaped_loop fuel context).formatter
      ≡ write_bytes context.formatter (texts fuel context.source left).0

take_piece-text :
    (fuel : ℕ)
    → LoopText fuel
    → (context : EscapedContext) (left : ℕ) (o : Option Piece) → context.exhausted ≡ false
    → context.max_decoded_length - context.decoded_length ≡ left
    → (escaped_loop fuel (take_piece context o)).formatter
      ≡ write_bytes context.formatter
          (in_front o
            (λ p. texts fuel (drop p.advance context.source) (left - p.decoded_advance))).0
unfolding write_bytes
take_piece-text fuel ih context left none on e =
    ap (λ (c : EscapedContext). c.formatter) (escaped_loop-exhaust fuel context)
take_piece-text fuel ih context left (some p) on e =
    let next = write_context context p.bytes p.advance p.decoded_advance in
    ih next (left - p.decoded_advance) on (omega arith)
    ∙ write_bytes-append p.bytes
        (texts fuel (drop p.advance context.source) (left - p.decoded_advance)).0 context.formatter

-- The loop writes the pieces in order.
pub escaped_loop-text :
    (fuel : ℕ) (context : EscapedContext) (left : ℕ)
    → context.exhausted ≡ false
    → context.max_decoded_length - context.decoded_length ≡ left
    → (escaped_loop fuel context).formatter
      ≡ write_bytes context.formatter (texts fuel context.source left).0
unfolding escaped_loop texts write_bytes
escaped_loop-text zero context left on e = refl
escaped_loop-text (suc fuel) context left on e =
    let ih = take_piece-text fuel (escaped_loop-text fuel) context left in
    elim (Bool-cases (byte_at context.source 0 == 0)) [
      | inl done ↦ let over : is_exhausted context ≡ true = ground arith in rw (over, done)
      | inr more ↦
          let going : is_exhausted context ≡ false = ground arith in
          rw (going, more, escape_step-piece context, e) (ih (piece context.source left) on e)
    ]

-- A piece takes at least one byte of the decoded length, and no more than is left.
pub piece_advances :
    (source : Bytes) (left : ℕ) (p : Piece)
    → piece source left ≡ some p
    → (0 < p.decoded_advance) × (p.decoded_advance ≤ left)
unfolding piece
piece_advances source left p h = (ground arith, ground arith)

abbrev LoopEnds : ℕ → ℕ → Type 0
LoopEnds a b =
    (context : EscapedContext)
    → context.exhausted ≡ false
    → context.decoded_length ≤ context.max_decoded_length
    → context.max_decoded_length < context.decoded_length + a
    → context.max_decoded_length < context.decoded_length + b
    → escaped_loop a context ≡ escaped_loop b context

take_piece_ends :
    (a b : ℕ)
    → LoopEnds a b
    → (context : EscapedContext) (o : Option Piece)
    → ((p : Piece)
        → o ≡ some p
        → (0 < p.decoded_advance)
          × (p.decoded_advance ≤ context.max_decoded_length - context.decoded_length))
    → context.exhausted ≡ false
    → context.decoded_length ≤ context.max_decoded_length
    → context.max_decoded_length ≤ context.decoded_length + a
    → context.max_decoded_length ≤ context.decoded_length + b
    → escaped_loop a (take_piece context o) ≡ escaped_loop b (take_piece context o)
take_piece_ends a b ih context none adv on r p q =
    escaped_loop-exhaust a context ∙ sym (escaped_loop-exhaust b context)
take_piece_ends a b ih context (some x) adv on r p q =
    let bounds = adv x refl in
    ih (write_context context x.bytes x.advance x.decoded_advance) on (omega arith) (omega arith)
      (omega arith)

-- From a context that is not exhausted and has decoded no more than allowed, and with more fuel than
-- decoded bytes to go, more fuel changes nothing: the loop has ended by its
-- test.
pub escaped_loop_ends :
    (a b : ℕ) (context : EscapedContext)
    → context.exhausted ≡ false
    → context.decoded_length ≤ context.max_decoded_length
    → context.max_decoded_length < context.decoded_length + a
    → context.max_decoded_length < context.decoded_length + b
    → escaped_loop a context ≡ escaped_loop b context
unfolding escaped_loop
escaped_loop_ends zero b context on r p q = absurd (omega arith)
escaped_loop_ends (suc a) zero context on r p q = absurd (omega arith)
escaped_loop_ends (suc a) (suc b) context on r p q =
    let left = context.max_decoded_length - context.decoded_length in
    elim (Bool-cases (is_exhausted context)) [
      | inl over ↦ rw over
      | inr going ↦
          rw (going, escape_step-piece context)
            (take_piece_ends a b (escaped_loop_ends a b) context (piece context.source left)
              (piece_advances context.source left) on r (omega arith) (omega arith))
    ]
