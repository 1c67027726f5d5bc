-- ===== src/Formatter/Codepoint/Complete.antt =====
-- The UTF-8 validation accepts the encoding of every scalar value.
use solid_syslog.Base.{
  ℕ, ◌+◌, ◌/◌, ◌%◌, ◌≤◌, ◌<◌, ◌≡◌, ◌∙◌, inl, inr, true, false, ◌∷◌, ◌++◌, arith, length, Bytes,
  byte_at, Bool-cases, ltb, ltb→lt,
}
use solid_syslog.Utf8.Scalar.{
  IsScalar, encode, AllBytes, encode_one, encode_two, encode_three, encode_four,
}
use solid_syslog.Formatter.Codepoint.{utf8_codepoint_length}
use solid_syslog.Formatter.Codepoint.Ranges.{
  two_bytes, three_bytes, four_bytes, ranged_length, utf8_codepoint_length_ranged,
}
use solid_syslog.Formatter.Codepoint.Sound.{ThreeRanges, FourRanges, byte_at-lt}

ranged_two : (a b c d : ℕ) → 194 ≤ a → a < 224 → 128 ≤ b → b < 192 → ranged_length a b c d ≡ 2
ranged_two a b c d h1 h2 h3 h4 = ground arith

ranged_three : (a b c d : ℕ) → ThreeRanges a b c → ranged_length a b c d ≡ 3
ranged_three a b c d r =
    let lead : ltb a 128 ≡ false = ground (arith, r.lead) in
    let two : two_bytes a b ≡ false = ground (arith, r.lead) in
    let three : three_bytes a b c ≡ true = ground arith in rw (lead, two, three)

ranged_four : (a b c d : ℕ) → FourRanges a b c d → ranged_length a b c d ≡ 4
ranged_four a b c d r =
    let lead : ltb a 128 ≡ false = ground (arith, r.lead) in
    let two : two_bytes a b ≡ false = ground (arith, r.lead) in
    let three : three_bytes a b c ≡ false = ground (arith, r.lead) in
    let four : four_bytes a b c d ≡ true = ground arith in rw (lead, two, three, four)

length_two :
    (c : ℕ) (rest : Bytes)
    → 0x80 ≤ c
    → c < 0x800
    → AllBytes rest
    → utf8_codepoint_length (encode c ++ rest) ≡ length (encode c)
length_two c rest lo hi all =
    let a = 0xC0 + c / 0x40 in
    let b = 0x80 + c % 0x40 in
    rw (encode_two c lo hi) (
      utf8_codepoint_length_ranged (a ∷ b ∷ rest) (omega arith) (omega arith)
        (byte_at-lt rest 0 all) (byte_at-lt rest 1 all)
      ∙ ranged_two a b (byte_at rest 0) (byte_at rest 1) (omega arith) (omega arith) (omega arith)
          (omega arith))

length_three :
    (c : ℕ) (rest : Bytes)
    → IsScalar c
    → 0x800 ≤ c
    → c < 0x10000
    → AllBytes rest
    → utf8_codepoint_length (encode c ++ rest) ≡ length (encode c)
length_three c rest s lo hi all =
    let x = 0xE0 + c / 0x1000 in
    let y = 0x80 + c / 0x40 % 0x40 in
    let z = 0x80 + c % 0x40 in
    let ranges : ThreeRanges x y z = record {
      lead = (omega arith, omega arith);
      first = (omega arith, omega arith);
      second = (omega arith, omega arith);
      not_overlong = grind arith;
      not_surrogate = grind arith;
    } in
    rw (encode_three c lo hi) (
      utf8_codepoint_length_ranged (x ∷ y ∷ z ∷ rest) (omega arith) (omega arith) (omega arith)
        (byte_at-lt rest 0 all)
      ∙ ranged_three x y z (byte_at rest 0) ranges)

length_four :
    (c : ℕ) (rest : Bytes)
    → IsScalar c
    → 0x10000 ≤ c
    → AllBytes rest
    → utf8_codepoint_length (encode c ++ rest) ≡ length (encode c)
length_four c rest s lo all =
    let hi : c < 0x110000 = omega arith in
    let w = 0xF0 + c / 0x40000 in
    let x = 0x80 + c / 0x1000 % 0x40 in
    let y = 0x80 + c / 0x40 % 0x40 in
    let z = 0x80 + c % 0x40 in
    let ranges : FourRanges w x y z = record {
      lead = (omega arith, omega arith);
      first = (omega arith, omega arith);
      second = (omega arith, omega arith);
      third = (omega arith, omega arith);
      not_overlong = grind arith;
      not_above = grind arith;
    } in
    rw (encode_four c lo) (
      utf8_codepoint_length_ranged (w ∷ x ∷ y ∷ z ∷ rest) (omega arith) (omega arith) (omega arith)
        (omega arith)
      ∙ ranged_four w x y z ranges)

-- The encoding of a scalar value, with whatever bytes behind it, has its own length.
pub utf8_codepoint_length-encode :
    (c : ℕ) (rest : Bytes)
    → IsScalar c
    → AllBytes rest
    → utf8_codepoint_length (encode c ++ rest) ≡ length (encode c)
utf8_codepoint_length-encode c rest s all = elim (Bool-cases (ltb c 0x80)) [
  | inl one ↦
      let small = ltb→lt c 0x80 one in
      rw (encode_one c small) (
        utf8_codepoint_length_ranged (c ∷ rest) (omega arith) (byte_at-lt rest 0 all)
          (byte_at-lt rest 1 all) (byte_at-lt rest 2 all)
        ∙ rw one)
  | inr above ↦ elim (Bool-cases (ltb c 0x800)) [
    | inl two ↦ length_two c rest (ground arith) (ltb→lt c 0x800 two) all
    | inr beyond ↦ elim (Bool-cases (ltb c 0x10000)) [
      | inl three ↦ length_three c rest s (ground arith) (ltb→lt c 0x10000 three) all
      | inr four ↦ length_four c rest s (ground arith) all
    ]
  ]
]
