-- ===== src/Utf8/Scalar.antt =====
-- The independent description of UTF-8 (RFC 3629): a text is the encoding of scalar values.
use solid_syslog.Base.{
  ℕ, zero, suc, ◌+◌, ◌/◌, ◌%◌, ◌≤◌, ◌<◌, ◌≡◌, sym, subst, ◌⊎◌, false, [], ◌∷◌, ◌++◌, append-nil,
  append_assoc, arith, length, drop, Bytes, ltb, lt→ltb, if◌then◌else◌,
}

-- a Unicode scalar value: a code point that is no surrogate
abbrev pub IsScalar : ℕ → Type 0
IsScalar c = (c < 0xD800) ⊎ ((0xDFFF < c) × (c < 0x110000))

unfoldable pub encode : ℕ → Bytes
encode c =
    if ltb c 0x80
    then c ∷ []
    else if ltb c 0x800
    then (0xC0 + c / 0x40) ∷ (0x80 + c % 0x40) ∷ []
    else if ltb c 0x10000
    then (0xE0 + c / 0x1000) ∷ (0x80 + c / 0x40 % 0x40) ∷ (0x80 + c % 0x40) ∷ []
    else (0xF0 + c / 0x40000)
      ∷ (0x80 + c / 0x1000 % 0x40)
      ∷ (0x80 + c / 0x40 % 0x40)
      ∷ (0x80 + c % 0x40)
      ∷ []

-- A well-formed text.
pub data WellFormed : Bytes → Type 0 where
  empty : WellFormed []
  codepoint : (c : ℕ) {bs : Bytes} → IsScalar c → WellFormed bs → WellFormed (encode c ++ bs)

abbrev pub AllBytes : Bytes → Type 0
AllBytes [] = Unit {0}
AllBytes (b ∷ bs) = (b < 256) × AllBytes bs

pub AllBytes-drop : (n : ℕ) (bs : Bytes) → AllBytes bs → AllBytes (drop n bs)
AllBytes-drop zero bs h = h
AllBytes-drop (suc n) [] h = h
AllBytes-drop (suc n) (b ∷ bs) h = AllBytes-drop n bs h.1

-- Two texts in a row are one.
pub WellFormed-append : {us bs : Bytes} → WellFormed us → WellFormed bs → WellFormed (us ++ bs)
WellFormed-append empty w = w
WellFormed-append {bs = bs} (codepoint c {bs = us} s v) w =
    subst WellFormed (sym (append_assoc (encode c) us bs)) (codepoint c s (WellFormed-append v w))

pub WellFormed-encode : (c : ℕ) → IsScalar c → WellFormed (encode c)
WellFormed-encode c s = subst WellFormed (append-nil (encode c)) (codepoint c s empty)

pub encode_one : (c : ℕ) → c < 0x80 → encode c ≡ c ∷ []
unfolding encode
encode_one c h = rw (lt→ltb c 0x80 h)

pub encode_two :
    (c : ℕ) → 0x80 ≤ c → c < 0x800 → encode c ≡ (0xC0 + c / 0x40) ∷ (0x80 + c % 0x40) ∷ []
unfolding encode
encode_two c lo hi = let over : ltb c 0x80 ≡ false = ground arith in rw (over, lt→ltb c 0x800 hi)

pub encode_three :
    (c : ℕ)
    → 0x800 ≤ c
    → c < 0x10000
    → encode c ≡ (0xE0 + c / 0x1000) ∷ (0x80 + c / 0x40 % 0x40) ∷ (0x80 + c % 0x40) ∷ []
unfolding encode
encode_three c lo hi =
    let over : ltb c 0x80 ≡ false = ground arith in
    let above : ltb c 0x800 ≡ false = ground arith in rw (over, above, lt→ltb c 0x10000 hi)

pub encode_four :
    (c : ℕ)
    → 0x10000 ≤ c
    → encode c
      ≡ (0xF0 + c / 0x40000)
        ∷ (0x80 + c / 0x1000 % 0x40)
        ∷ (0x80 + c / 0x40 % 0x40)
        ∷ (0x80 + c % 0x40)
        ∷ []
unfolding encode
encode_four c lo =
    let over : ltb c 0x80 ≡ false = ground arith in
    let above : ltb c 0x800 ≡ false = ground arith in
    let beyond : ltb c 0x10000 ≡ false = ground arith in rw (over, above, beyond)

pub AllBytes-append : (us bs : Bytes) → AllBytes us → AllBytes bs → AllBytes (us ++ bs)
AllBytes-append [] bs h k = k
AllBytes-append (u ∷ us) bs h k = (h.0, AllBytes-append us bs h.1 k)

pub encode-AllBytes : (c : ℕ) → IsScalar c → AllBytes (encode c)
unfolding encode
encode-AllBytes c s = ground arith

-- A well-formed text is made of bytes.
pub WellFormed-AllBytes : {bs : Bytes} → WellFormed bs → AllBytes bs
WellFormed-AllBytes empty = tt
WellFormed-AllBytes (codepoint c {bs} s v) =
    AllBytes-append (encode c) bs (encode-AllBytes c s) (WellFormed-AllBytes v)

pub length-encode_pos : (c : ℕ) → 0 < length (encode c)
unfolding encode
length-encode_pos c = ground arith
