-- ===== src/Formatter/Escape/Pieces.antt =====
-- Each piece of an escaped text is well-formed, and a reader decodes it; so is the whole.
use solid_syslog.Base.{
  ℕ, zero, suc, ◌-◌, ◌≤◌, ◌<◌, ◌≡◌, ◌≢◌, refl, ap, sym, subst, ◌∙◌, inl, inr, true, false, ◌&&◌, [],
  ◌∷◌, ◌++◌, append_assoc, arith, length, take, drop, Bytes, byte_at, take-append, Bool-cases, leb,
  ltb, length-append, ◌==◌, Option, none, some,
}
use solid_syslog.Utf8.Scalar.{
  IsScalar, encode, WellFormed, empty, AllBytes, AllBytes-drop, WellFormed-append,
  WellFormed-encode, encode_one,
}
use solid_syslog.Formatter.Codepoint.{utf8_codepoint_length}
use solid_syslog.Formatter.Codepoint.Sound.{utf8_codepoint_length-Starts}
use solid_syslog.Formatter.{
  Formatter, replacement_character, EscapedContext, needs_escape, escaped_string,
}
use solid_syslog.Formatter.Emit.{IsValid, Emits, terminated-Emits}
use solid_syslog.Formatter.Bounded.{copied-WellFormed, replacement-WellFormed}
use solid_syslog.Formatter.Escape.{Piece, piece, piece_advances, in_front, texts, escaped_loop-text}
use solid_syslog.Formatter.Escape.Reader.{
  prepend, read_value, Plain, read_value-quote, read_value-append, read_value-escape,
}

encode-Plain : (c : ℕ) → IsScalar c → needs_escape c ≡ false → Plain (encode c)
unfolding encode
encode-Plain c s h = ground arith

-- A code point whose first byte needs no escape needs none.
scalar_plain :
    (c : ℕ) (rest : Bytes)
    → needs_escape (byte_at (encode c ++ rest) 0) ≡ false
    → needs_escape c ≡ false
scalar_plain c rest h = elim (Bool-cases (needs_escape c)) [
  | inr plain ↦ plain
  | inl special ↦
      let small : c < 0x80 = ground arith in absurd (cc (special, rw (encode_one c small) at h))
]

-- What is shown of each piece.
pub record Reads (p : Piece) : Type 0 where
  pub written : WellFormed p.bytes
  pub decoded : WellFormed p.decoded
  pub measures : length p.decoded ≡ p.decoded_advance
  pub reads : (t : Bytes) → read_value (p.bytes ++ t) ≡ prepend p.decoded (read_value t)

escape-Reads :
    (c : ℕ)
    → needs_escape c ≡ true
    → Reads (record { bytes = b'\\' ∷ c ∷ []; decoded = c ∷ []; advance = 1; decoded_advance = 1 })
escape-Reads c special =
    let small : c < 0x80 = ground arith in
    let one : WellFormed (c ∷ []) =
      subst WellFormed (encode_one c small) (WellFormed-encode c (inl (omega arith))) in
    let backslash : WellFormed (b'\\' ∷ []) =
      subst WellFormed (encode_one b'\\' (omega arith))
        (WellFormed-encode b'\\' (inl (omega arith))) in
    record {
      written = WellFormed-append backslash one;
      decoded = one;
      measures = refl;
      reads = λ t. read_value-escape c t;
    }

copy-Reads :
    (source : Bytes)
    → AllBytes source
    → byte_at source 0 ≢ 0
    → 0 < utf8_codepoint_length source
    → needs_escape (byte_at source 0) ≡ false
    → let n = utf8_codepoint_length source in
      Reads (record {
        bytes = take n source;
        decoded = take n source;
        advance = n;
        decoded_advance = n;
      })
copy-Reads source all start pos plain =
    let s = utf8_codepoint_length-Starts source all start pos in
    let first : take (utf8_codepoint_length source) source ≡ encode s.scalar =
      (λ i. take (sym s.measures i) (s.splits i)) ∙ take-append (encode s.scalar) s.rest in
    let easy = scalar_plain s.scalar s.rest (rw s.splits at plain) in
    record {
      written = copied-WellFormed source all start pos;
      decoded = copied-WellFormed source all start pos;
      measures = ap (λ (l : Bytes). length l) first ∙ s.measures;
      reads = λ t.
          rw first (read_value-append (encode s.scalar) t (encode-Plain s.scalar s.is_scalar easy));
    }

replacement-Reads : Reads (record {
  bytes = replacement_character;
  decoded = replacement_character;
  advance = 1;
  decoded_advance = 3;
})
replacement-Reads = record {
  written = replacement-WellFormed;
  decoded = replacement-WellFormed;
  measures = refl;
  reads = λ t. read_value-append replacement_character t (refl, (refl, (refl, tt)));
}

-- of the piece, if there is one
abbrev AllSome : (Piece → Type 0) → Option Piece → Type 0
AllSome P none = Unit {0}
AllSome P (some p) = P p

AllSome-intro :
    (P : Piece → Type 0) (o : Option Piece) → ((p : Piece) → o ≡ some p → P p) → AllSome P o
AllSome-intro P none h = tt
AllSome-intro P (some p) h = h p refl

piece-Reads :
    (source : Bytes) (left : ℕ)
    → AllBytes source
    → byte_at source 0 ≢ 0
    → AllSome Reads (piece source left)
unfolding piece
piece-Reads source left all start =
    let c = byte_at source 0 in
    let n = utf8_codepoint_length source in
    elim (Bool-cases (needs_escape c)) [
      | inl special ↦ elim (Bool-cases (leb 1 left)) [
        | inl one ↦ rw (special, one) (escape-Reads c special)
        | inr nothing ↦ rw (special, nothing) tt
      ]
      | inr plain ↦ elim (Bool-cases (ltb 0 n && leb n left)) [
        | inl copy ↦ rw (plain, copy) (copy-Reads source all start (ground arith) plain)
        | inr invalid ↦ elim (Bool-cases (leb 3 left)) [
          | inl three ↦ rw (plain, invalid, three) replacement-Reads
          | inr nothing ↦ rw (plain, invalid, nothing) tt
        ]
      ]
    ]

-- What is written, and what a reader makes of it, within `left` bytes.
pub record Decodes (left : ℕ) (both : Bytes × Bytes) : Type 0 where
  pub written : WellFormed both.0
  pub decoded : WellFormed both.1
  pub short : length both.1 ≤ left
  pub reads : (rest : Bytes) → read_value (both.0 ++ b'"' ∷ rest) ≡ some (both.1, rest)

Decodes-nil : (left : ℕ) → Decodes left ([], [])
Decodes-nil left = record {
  written = empty;
  decoded = empty;
  short = omega arith;
  reads = λ rest. read_value-quote rest;
}

in_front-Decodes :
    (left : ℕ) (o : Option Piece) (more : Piece → Bytes × Bytes)
    → AllSome Reads o
    → AllSome (λ p. p.decoded_advance ≤ left) o
    → ((p : Piece) → Decodes (left - p.decoded_advance) (more p))
    → Decodes left (in_front o more)
in_front-Decodes left none more good fit rest = Decodes-nil left
in_front-Decodes left (some p) more g fit rest =
    let d = rest p in
    record {
      written = WellFormed-append g.written d.written;
      decoded = WellFormed-append g.decoded d.decoded;
      short = omega (arith, g.measures, d.short, length-append p.decoded (more p).1);
      reads = λ t.
          ap read_value (append_assoc p.bytes (more p).0 (b'"' ∷ t))
          ∙ g.reads ((more p).0 ++ b'"' ∷ t)
          ∙ ap (prepend p.decoded) (d.reads t);
    }

pub texts-Decodes :
    (fuel : ℕ) (source : Bytes) (left : ℕ) → AllBytes source → Decodes left (texts fuel source left)
unfolding texts
texts-Decodes zero source left all = Decodes-nil left
texts-Decodes (suc fuel) source left all = elim (Bool-cases (byte_at source 0 == 0)) [
  | inl done ↦ rw done (Decodes-nil left)
  | inr more ↦
      let start : byte_at source 0 ≢ 0 = ground arith in
      rw more (
        in_front-Decodes left (piece source left)
          (λ p. texts fuel (drop p.advance source) (left - p.decoded_advance))
          (piece-Reads source left all start)
          (AllSome-intro (λ p. p.decoded_advance ≤ left) (piece source left)
            (λ p e. (piece_advances source left p e).1))
          (λ p.
            texts-Decodes fuel (drop p.advance source) (left - p.decoded_advance)
              (AllBytes-drop p.advance source all)))
]

-- From a valid formatter and whatever the bytes of its source, `EscapedString` appends, as far as it fits, a text that is well-formed
-- UTF-8, and of which a reader of PARAM-VALUE decodes well-formed UTF-8 of at most the length
-- allowed, up to the closing quote that follows and no further.
pub escaped_string-Decodes :
    (f : Formatter) (source : Bytes) (max_length : ℕ)
    → IsValid f
    → AllBytes source
    → (both : Bytes × Bytes) × Decodes max_length both
      × Emits f both.0 (escaped_string f source max_length)
unfolding escaped_string
escaped_string-Decodes f source m valid all =
    let both = texts (suc m) source m in
    let start : EscapedContext = record {
      formatter = f;
      source = source;
      decoded_length = 0;
      max_decoded_length = m;
      exhausted = false;
    } in
    (
      both,
      texts-Decodes (suc m) source m all,
      rw (escaped_loop-text (suc m) start m refl (omega arith)) (terminated-Emits both.0 valid),
    )
