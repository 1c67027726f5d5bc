-- ===== src/Formatter/Escape/RoundTrip.antt =====
-- What a reader of PARAM-VALUE decodes from an escaped text that fits is the source.
use solid_syslog.Base.{
  ℕ, zero, suc, ◌-◌, ◌≤◌, ◌<◌, ◌≡◌, refl, ap, ◌∙◌, inl, inr, true, false, ◌&&◌, [], ◌∷◌, ◌++◌,
  arith, length, Bytes, byte_at, take-append, drop-append, Bool-cases, leb, ltb, length-append,
  ◌==◌, some,
}
use solid_syslog.Utf8.Scalar.{
  IsScalar, encode, WellFormed, empty, codepoint, AllBytes, WellFormed-AllBytes, length-encode_pos,
  encode_one,
}
use solid_syslog.Formatter.Codepoint.Complete.{utf8_codepoint_length-encode}
use solid_syslog.Formatter.{Formatter, EscapedContext, needs_escape, escaped_string}
use solid_syslog.Formatter.Emit.{IsValid, Emits, terminated-Emits}
use solid_syslog.Formatter.Faithful.{NulFree, NulFree-append_right, NulFree-head}
use solid_syslog.Formatter.Escape.{piece, texts, escaped_loop-text}
use solid_syslog.Formatter.Escape.Reader.{read_value}
use solid_syslog.Formatter.Escape.Pieces.{texts-Decodes}

-- The first byte of an encoding wants an escape only if the scalar does.
head_plain :
    (c : ℕ) (bs : Bytes)
    → needs_escape c ≡ false
    → needs_escape (byte_at (encode c ++ bs) 0) ≡ false
unfolding encode
head_plain c bs h = ground arith

-- The piece at an encoded scalar decodes to just that scalar.
scalar_piece :
    (c : ℕ) (bs : Bytes) (left : ℕ)
    → IsScalar c
    → AllBytes bs
    → length (encode c) ≤ left
    → (bytes : Bytes) × (piece (encode c ++ bs) left
        ≡ some (record {
          bytes = bytes;
          decoded = encode c;
          advance = length (encode c);
          decoded_advance = length (encode c);
        }))
unfolding piece
scalar_piece c bs left s all fit =
    let n = utf8_codepoint_length-encode c bs s all in
    let pos = length-encode_pos c in
    elim (Bool-cases (needs_escape c)) [
      | inl special ↦
          let small : c < 0x80 = ground arith in
          let one : leb 1 left ≡ true = ground arith in
          (b'\\' ∷ c ∷ [], rw (encode_one c small, special, one))
      | inr plain ↦
          let unescaped = head_plain c bs plain in
          let copy : (ltb 0 (length (encode c)) && leb (length (encode c)) left) ≡ true =
            ground arith in
          (encode c, rw (unescaped, n, copy, take-append))
    ]

texts-eq_of_WellFormed :
    (fuel left : ℕ) {source : Bytes}
    → WellFormed source
    → NulFree source
    → length source ≤ fuel
    → length source ≤ left
    → (texts fuel source left).1 ≡ source
unfolding texts
texts-eq_of_WellFormed zero left empty nul short fit = refl
texts-eq_of_WellFormed (suc fuel) left empty nul short fit = refl
texts-eq_of_WellFormed zero left (codepoint c {bs} s v) nul short fit =
    absurd (omega (arith, length-encode_pos c, length-append (encode c) bs))
texts-eq_of_WellFormed (suc fuel) left (codepoint c {bs} s v) nul short fit =
    let sum = length-append (encode c) bs in
    let pos = length-encode_pos c in
    let start = NulFree-head (encode c ++ bs) nul (omega arith) in
    let going : (byte_at (encode c ++ bs) 0 == 0) ≡ false = ground arith in
    let (bytes, e) = scalar_piece c bs left s (WellFormed-AllBytes v) (omega arith) in
    rw (going, e, drop-append)
      (ap (λ t. encode c ++ t)
        (texts-eq_of_WellFormed fuel (left - length (encode c)) v
          (NulFree-append_right (encode c) bs nul) (omega arith) (omega arith)))

-- From a valid formatter, a well-formed source without terminators inside, of at most the length allowed, is what a reader
-- decodes from the text that `EscapedString` appends, as far as it fits.
pub escaped_string_round_trip :
    (f : Formatter) (source : Bytes) (max_length : ℕ)
    → IsValid f
    → WellFormed source
    → NulFree source
    → length source ≤ max_length
    → (written : Bytes) × Emits f written (escaped_string f source max_length)
      × ((rest : Bytes) → read_value (written ++ b'"' ∷ rest) ≡ some (source, rest))
unfolding escaped_string
escaped_string_round_trip f source m valid w nul fit =
    let both = texts (suc m) source m in
    let d = texts-Decodes (suc m) source m (WellFormed-AllBytes w) in
    let same = texts-eq_of_WellFormed (suc m) m w nul (omega arith) fit in
    let start : EscapedContext = record {
      formatter = f;
      source = source;
      decoded_length = 0;
      max_decoded_length = m;
      exhausted = false;
    } in
    (
      both.0,
      rw (escaped_loop-text (suc m) start m refl (omega arith)) (terminated-Emits both.0 valid),
      λ rest. d.reads rest ∙ ap (λ (t : Bytes). some (t, rest)) same,
    )
