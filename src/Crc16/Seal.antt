-- ===== src/Crc16/Seal.antt =====
-- What the policy sealed it opens, and it opens nothing with another trailer.
use mathlib.Core.Bool.{false≢true}
use solid_syslog.Base.{
  ◌⊎◌, ◌≢◌, inl, inr, Bool-cases, false, sym, ap, ℕ, zero, suc, ◌+◌, ◌*◌, ◌/◌, ◌%◌, ◌^◌, ◌<◌,
  bit_and, bit_or, bit_xor, true, not, [], ◌∷◌, ◌≡◌, refl, sym, ap, ◌∙◌, arith, Bytes, ◌==◌,
  Bool-cases, inl, inr, ==_iff,
}
use solid_syslog.Base.Bits.{bit_and_byte, passes_from, bytes_sound}
use solid_syslog.Crc16.{
  msb_mask, crc16_ccitt_poly, bit_loop, byte_loop, compute, crc16_seal_record, crc16_open_record,
}

bit_loop-lt : (bits crc : ℕ) → crc < 2 ^ 16 → bit_loop bits crc < 2 ^ 16
unfolding bit_loop
bit_loop-lt zero crc h = h
bit_loop-lt (suc bits) crc h = elim (Bool-cases (not (bit_and crc msb_mask == 0))) [
  | inl top ↦ rw top (bit_loop-lt bits (bit_xor (crc * 2) crc16_ccitt_poly % 2 ^ 16) (omega arith))
  | inr low ↦ rw low (bit_loop-lt bits (crc * 2 % 2 ^ 16) (omega arith))
]

last_bits : (crc : ℕ) → bit_loop 8 crc < 2 ^ 16
unfolding bit_loop
last_bits crc = elim (Bool-cases (not (bit_and crc msb_mask == 0))) [
  | inl top ↦ rw top (bit_loop-lt 7 (bit_xor (crc * 2) crc16_ccitt_poly % 2 ^ 16) (omega arith))
  | inr low ↦ rw low (bit_loop-lt 7 (crc * 2 % 2 ^ 16) (omega arith))
]

byte_loop-lt : (content : Bytes) (crc : ℕ) → crc < 2 ^ 16 → byte_loop content crc < 2 ^ 16
unfolding byte_loop
byte_loop-lt [] crc h = h
byte_loop-lt (b ∷ content) crc h =
    byte_loop-lt content (bit_loop 8 (bit_xor crc (b * 2 ^ 8 % 2 ^ 16)))
      (last_bits (bit_xor crc (b * 2 ^ 8 % 2 ^ 16)))

compute-lt : (content : Bytes) → compute content < 2 ^ 16
unfolding compute
compute-lt content = byte_loop-lt content 0xFFFF (omega arith)

-- the two bytes put together again, for all bytes
joined :
    (hi lo : ℕ) → hi < 256 → lo < 256 → (bit_or (hi * 2 ^ 8 % 2 ^ 16) lo == hi * 256 + lo) ≡ true
unfolding passes_from
joined hi lo h k = bytes_sound (λ g l. bit_or (g * 2 ^ 8 % 2 ^ 16) l == g * 256 + l) refl hi lo h k

-- a trailer of two bytes reads as a number
read_trailer : (hi lo : ℕ) → hi < 256 → lo < 256 → bit_or (hi * 2 ^ 8 % 2 ^ 16) lo ≡ hi * 256 + lo
read_trailer hi lo h k =
    (==_iff (bit_or (hi * 2 ^ 8 % 2 ^ 16) lo) (hi * 256 + lo)).0 (joined hi lo h k)

sealed :
    (content : Bytes)
    → crc16_seal_record content ≡ (compute content / 256) ∷ (compute content % 256) ∷ []
unfolding crc16_seal_record
sealed content =
    let small = compute-lt content in
    let high : compute content / 2 ^ 8 % 2 ^ 8 ≡ compute content / 256 = omega arith in
    rw (high, bit_and_byte (compute content) small)

-- The policy opens a record with the trailer that it sealed it with.
pub crc16_open_record-crc16_seal_record :
    (content : Bytes) → crc16_open_record content (crc16_seal_record content) ≡ true
unfolding crc16_open_record
crc16_open_record-crc16_seal_record content =
    let small = compute-lt content in
    let crc = compute content in
    rw (sealed content, read_trailer (crc / 256) (crc % 256) (omega arith) (omega arith))
      ((==_iff crc (crc / 256 * 256 + crc % 256)).1 (omega arith))

-- A trailer of two bytes that the policy opens a record with is the one it seals the record with.
pub crc16_open_record-only :
    (content : Bytes) (hi lo : ℕ)
    → hi < 256
    → lo < 256
    → crc16_open_record content (hi ∷ lo ∷ []) ≡ true
    → hi ∷ lo ∷ [] ≡ crc16_seal_record content
unfolding crc16_open_record
crc16_open_record-only content hi lo h k opened =
    let crc = compute content in
    let same : crc ≡ hi * 256 + lo =
      (==_iff crc (bit_or (hi * 2 ^ 8 % 2 ^ 16) lo)).0 opened ∙ read_trailer hi lo h k in
    let high : hi ≡ crc / 256 = omega arith in
    let low : lo ≡ crc % 256 = omega arith in
    ap (λ x. x ∷ lo ∷ []) high ∙ ap (λ x. (crc / 256) ∷ x ∷ []) low ∙ sym (sealed content)

-- The policy opens a record with the trailer that it seals the record with, and with no other trailer
-- of two bytes.
pub crc16_open_record-exactly :
    (content : Bytes) (hi lo : ℕ)
    → hi < 256
    → lo < 256
    → (crc16_open_record content (crc16_seal_record content) ≡ true)
      × (((crc16_open_record content (hi ∷ lo ∷ []) ≡ true)
            × (hi ∷ lo ∷ [] ≡ crc16_seal_record content))
          ⊎ ((crc16_open_record content (hi ∷ lo ∷ []) ≡ false)
              × (hi ∷ lo ∷ [] ≢ crc16_seal_record content)))
crc16_open_record-exactly content hi lo h k = (
  crc16_open_record-crc16_seal_record content,
  elim (Bool-cases (crc16_open_record content (hi ∷ lo ∷ []))) [
    | inl opened ↦ inl (opened, crc16_open_record-only content hi lo h k opened)
    | inr rejected ↦ inr (
      rejected,
      λ same. absurd (
          false≢true (
            sym rejected
            ∙ ap (crc16_open_record content) same
            ∙ crc16_open_record-crc16_seal_record content)),
    )
  ],
)
