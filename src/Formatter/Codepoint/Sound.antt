-- ===== src/Formatter/Codepoint/Sound.antt =====
-- What the UTF-8 validation accepts is the encoding of a scalar value.
use solid_syslog.Base.{
  ℕ, zero, suc, ◌+◌, ◌-◌, ◌*◌, ◌≤◌, ◌<◌, ◌≡◌, ◌≢◌, refl, ap₂, ◌⊎◌, inl, inr, true, [], ◌∷◌, ◌++◌,
  arith, length, Bytes, byte_at, Bool-cases, ltb, ltb→lt,
}
use solid_syslog.Utf8.Scalar.{
  IsScalar, encode, AllBytes, encode_one, encode_two, encode_three, encode_four,
}
use solid_syslog.Formatter.Codepoint.{utf8_codepoint_length}
use solid_syslog.Formatter.Codepoint.Ranges.{
  two_bytes, three_bytes, four_bytes, ranged_length, utf8_codepoint_length_ranged,
}

-- The text begins with the encoding, `n` bytes long, of a scalar value.
pub record Starts (source : Bytes) (n : ℕ) : Type 0 where
  pub scalar : ℕ
  pub is_scalar : IsScalar scalar
  pub rest : Bytes
  pub splits : source ≡ encode scalar ++ rest
  pub measures : length (encode scalar) ≡ n

Starts-one : (source : Bytes) → byte_at source 0 ≢ 0 → byte_at source 0 < 128 → Starts source 1
Starts-one [] h lo = absurd (h refl)
Starts-one (a ∷ r) h lo = record {
  scalar = a;
  is_scalar = inl (omega arith);
  rest = r;
  splits = rw (encode_one a lo);
  measures = rw (encode_one a lo);
}

-- two lists with equal parts
two_equal :
    {a b a' b' : ℕ} (r : Bytes) → a ≡ a' → b ≡ b' → ◌≡◌ {A = Bytes} (a ∷ b ∷ r) (a' ∷ b' ∷ r)
two_equal r p q = λ i. p i ∷ q i ∷ r

Starts-two :
    (source : Bytes) → two_bytes (byte_at source 0) (byte_at source 1) ≡ true → Starts source 2
Starts-two [] h = absurd (ground arith)
Starts-two (a ∷ []) h = absurd (ground arith)
Starts-two (a ∷ b ∷ r) h =
    let ranges : (194 ≤ a) × (a < 224) × (128 ≤ b) × (b < 192) =
      (ground arith, ground arith, ground arith, ground arith) in
    let c = (a - 192) * 64 + (b - 128) in
    let e = encode_two c (omega arith) (omega arith) in
    record {
      scalar = c;
      is_scalar = inl (omega arith);
      rest = r;
      splits = rw e (two_equal r (omega arith) (omega arith));
      measures = rw e;
    }

pub record ThreeRanges (a b c : ℕ) : Type 0 where
  pub lead : (224 ≤ a) × (a < 240)
  pub first : (128 ≤ b) × (b < 192)
  pub second : (128 ≤ c) × (c < 192)
  pub not_overlong : (224 < a) ⊎ (160 ≤ b)
  pub not_surrogate : (a ≢ 237) ⊎ (b < 160)

three_bytes-ThreeRanges : (a b c : ℕ) → three_bytes a b c ≡ true → ThreeRanges a b c
three_bytes-ThreeRanges a b c h = record {
  lead = (ground arith, ground arith);
  first = (ground arith, ground arith);
  second = (ground arith, ground arith);
  not_overlong = ground arith;
  not_surrogate = ground arith;
}

Starts-three :
    (source : Bytes)
    → three_bytes (byte_at source 0) (byte_at source 1) (byte_at source 2) ≡ true
    → Starts source 3
Starts-three [] h = absurd (ground arith)
Starts-three (a ∷ []) h = absurd (ground arith)
Starts-three (a ∷ b ∷ []) h = absurd (ground arith)
Starts-three (x ∷ y ∷ z ∷ r) h =
    let ranges = three_bytes-ThreeRanges x y z h in
    let c = (x - 224) * 4096 + (y - 128) * 64 + (z - 128) in
    let e = encode_three c (omega arith) (omega arith) in
    let outside : IsScalar c = ground arith in
    record {
      scalar = c;
      is_scalar = outside;
      rest = r;
      splits = rw e (ap₂ ◌∷◌ (omega arith) (two_equal r (omega arith) (omega arith)));
      measures = rw e;
    }

pub record FourRanges (a b c d : ℕ) : Type 0 where
  pub lead : (240 ≤ a) × (a < 245)
  pub first : (128 ≤ b) × (b < 192)
  pub second : (128 ≤ c) × (c < 192)
  pub third : (128 ≤ d) × (d < 192)
  pub not_overlong : (240 < a) ⊎ (144 ≤ b)
  pub not_above : (a < 244) ⊎ (b < 144)

four_bytes-FourRanges : (a b c d : ℕ) → four_bytes a b c d ≡ true → FourRanges a b c d
four_bytes-FourRanges a b c d h = record {
  lead = (ground arith, ground arith);
  first = (ground arith, ground arith);
  second = (ground arith, ground arith);
  third = (ground arith, ground arith);
  not_overlong = ground arith;
  not_above = ground arith;
}

Starts-four :
    (source : Bytes)
    → four_bytes (byte_at source 0) (byte_at source 1) (byte_at source 2) (byte_at source 3) ≡ true
    → Starts source 4
Starts-four [] h = absurd (ground arith)
Starts-four (a ∷ []) h = absurd (ground arith)
Starts-four (a ∷ b ∷ []) h = absurd (ground arith)
Starts-four (a ∷ b ∷ c ∷ []) h = absurd (ground arith)
Starts-four (w ∷ x ∷ y ∷ z ∷ r) h =
    let ranges = four_bytes-FourRanges w x y z h in
    let c = (w - 240) * 262144 + (x - 128) * 4096 + (y - 128) * 64 + (z - 128) in
    let e = encode_four c (omega arith) in
    let outside : IsScalar c = inr (omega arith, omega arith) in
    record {
      scalar = c;
      is_scalar = outside;
      rest = r;
      splits =
          rw e (
            ap₂ ◌∷◌ (omega arith)
              (ap₂ ◌∷◌ (omega arith) (two_equal r (omega arith) (omega arith))));
      measures = rw e;
    }

pub byte_at-lt : (source : Bytes) (i : ℕ) → AllBytes source → byte_at source i < 256
byte_at-lt [] i h = omega arith
byte_at-lt (a ∷ r) zero h = h.0
byte_at-lt (a ∷ r) (suc i) h = byte_at-lt r i h.1

-- In a list of bytes, a length above 0, at a byte that is not the terminator, measures the encoding of a scalar value
-- that stands there.
pub utf8_codepoint_length-Starts :
    (source : Bytes)
    → AllBytes source
    → byte_at source 0 ≢ 0
    → 0 < utf8_codepoint_length source
    → Starts source (utf8_codepoint_length source)
utf8_codepoint_length-Starts s all start pos =
    let a = byte_at s 0 in
    let b = byte_at s 1 in
    let c = byte_at s 2 in
    let d = byte_at s 3 in
    let e =
      utf8_codepoint_length_ranged s (byte_at-lt s 0 all) (byte_at-lt s 1 all) (byte_at-lt s 2 all)
        (byte_at-lt s 3 all) in
    let pos' : 0 < ranged_length a b c d = omega arith in
    rw e (elim (Bool-cases (ltb a 128)) [
      | inl one ↦ rw one (Starts-one s start (ltb→lt a 128 one))
      | inr more ↦ elim (Bool-cases (two_bytes a b)) [
        | inl two ↦ rw (more, two) (Starts-two s two)
        | inr more2 ↦ elim (Bool-cases (three_bytes a b c)) [
          | inl three ↦ rw (more, more2, three) (Starts-three s three)
          | inr more3 ↦ elim (Bool-cases (four_bytes a b c d)) [
            | inl four ↦ rw (more, more2, more3, four) (Starts-four s four)
            | inr nothing ↦ absurd (omega (arith, rw (more, more2, more3, nothing) at pos'))
          ]
        ]
      ]
    ])
