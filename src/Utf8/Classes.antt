-- ===== src/Utf8/Classes.antt =====
-- The classes of bytes as ranges, each checked at every byte.
use solid_syslog.Base.{ℕ, ◌<◌, arith, ◌≡◌, refl, sym, Bool, true, false, not, ◌&&◌, leb, ltb}
use solid_syslog.Base.Bits.{passes_from, passes_from_lem}
use solid_syslog.Utf8.{
  is_ascii_byte, is_continuation_byte, is_two_byte_lead, is_three_byte_lead, is_four_byte_lead,
}

abbrev pub same : Bool → Bool → Bool
same true b = b
same false b = not b

same_sound : (a b : Bool) → same a b ≡ true → a ≡ b
same_sound true b h = sym h
same_sound false true h = h
same_sound false false h = refl

-- the bytes from `lo` up to, not including, `hi`
abbrev pub within : ℕ → ℕ → ℕ → Bool
within lo hi b = leb lo b && ltb b hi

-- Two tests that agree at every byte are equal at each.
pub by_table :
    (p q : ℕ → Bool)
    → passes_from 0 256 (λ b. same (p b) (q b)) ≡ true
    → (b : ℕ) → b < 256
    → p b ≡ q b
by_table p q table b h =
    same_sound (p b) (q b) (passes_from_lem 256 0 (λ c. same (p c) (q c)) table b (omega arith) h)

pub is_ascii_byte_range : (b : ℕ) → b < 256 → is_ascii_byte b ≡ ltb b 128
unfolding is_ascii_byte passes_from
is_ascii_byte_range = by_table is_ascii_byte (λ b. ltb b 128) refl

pub is_continuation_byte_range : (b : ℕ) → b < 256 → is_continuation_byte b ≡ within 128 192 b
unfolding is_continuation_byte passes_from
is_continuation_byte_range = by_table is_continuation_byte (within 128 192) refl

pub is_two_byte_lead_range : (b : ℕ) → b < 256 → is_two_byte_lead b ≡ within 192 224 b
unfolding is_two_byte_lead passes_from
is_two_byte_lead_range = by_table is_two_byte_lead (within 192 224) refl

pub is_three_byte_lead_range : (b : ℕ) → b < 256 → is_three_byte_lead b ≡ within 224 240 b
unfolding is_three_byte_lead passes_from
is_three_byte_lead_range = by_table is_three_byte_lead (within 224 240) refl

pub is_four_byte_lead_range : (b : ℕ) → b < 256 → is_four_byte_lead b ≡ within 240 248 b
unfolding is_four_byte_lead passes_from
is_four_byte_lead_range = by_table is_four_byte_lead (within 240 248) refl
