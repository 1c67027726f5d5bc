-- ===== src/Formatter/Decimal.antt =====
-- Decimal numbers: what is printed is the number, with no zero in front.
use solid_syslog.Base.{
  ℕ, zero, suc, ◌+◌, ◌-◌, ◌*◌, ◌/◌, ◌%◌, ◌^◌, ◌≤◌, ◌<◌, ◌≡◌, ◌≢◌, refl, ap, sym, subst, ◌∙◌, ◌⊎◌,
  inl, inr, [], ◌∷◌, arith, length, Bytes, byte_at, Bool-cases, leb, leb→le,
}
use solid_syslog.Formatter.{
  Formatter, null_terminate, write_char, write_bytes, digit_to_char, count_loop, count_digits,
  raise_divisor, write_digits, uint32,
}
use native.Mathlib.Nat.{pow-suc, div-add-mod}
use solid_syslog.Formatter.Emit.{IsValid, Emits, terminated-Emits}

-- the bytes that `write_digits` writes
pub digits_text : ℕ → ℕ → ℕ → Bytes
digits_text zero remaining divisor = []
digits_text (suc rounds) remaining divisor =
    digit_to_char (remaining / divisor) ∷ digits_text rounds (remaining % divisor) (divisor / 10)

write_digits-text :
    (rounds : ℕ) (f : Formatter) (remaining divisor : ℕ)
    → write_digits rounds f remaining divisor ≡ write_bytes f (digits_text rounds remaining divisor)
unfolding write_digits digits_text write_bytes
write_digits-text zero f r d = refl
write_digits-text (suc rounds) f r d =
    write_digits-text rounds (write_char f (digit_to_char (r / d))) (r % d) (d / 10)

-- The reader: the value of a run of digits behind those that made `acc`.
unfoldable pub read_decimal : ℕ → Bytes → ℕ
read_decimal acc [] = acc
read_decimal acc (b ∷ bs) = read_decimal (acc * 10 + (b - b'0')) bs

abbrev pub IsDigit : ℕ → Type 0
IsDigit b = (b'0' ≤ b) × (b ≤ b'9')

abbrev pub AllDigits : Bytes → Type 0
AllDigits [] = Unit {0}
AllDigits (b ∷ bs) = IsDigit b × AllDigits bs

digits_text-AllDigits : (rounds r d : ℕ) → AllDigits (digits_text rounds r d)
unfolding digits_text
digits_text-AllDigits zero r d = tt
digits_text-AllDigits (suc rounds) r d =
    ((omega arith, omega arith), digits_text-AllDigits rounds (r % d) (d / 10))

length-digits_text : (rounds r d : ℕ) → length (digits_text rounds r d) ≡ rounds
unfolding digits_text
length-digits_text zero r d = refl
length-digits_text (suc rounds) r d = ap suc (length-digits_text rounds (r % d) (d / 10))

ten_pos : (j : ℕ) → 0 < 10 ^ j
ten_pos zero = omega arith
ten_pos (suc j) = omega (arith, ten_pos j, pow-suc 10 j)

-- the division step of the loop
divides :
    (r d acc : ℕ) → 0 < d → r < d * 10 → (acc * 10 + r / d % 10) * d + r % d ≡ acc * (d * 10) + r
divides r d acc pos h =
    let quotient : r / d < 10 = grind arith in
    let small : r / d % 10 ≡ r / d = omega arith in rw small (omega (arith, div-add-mod r d))

-- As many rounds as the divisor has digits print a number below ten times the divisor.
read_decimal-digits_text :
    (j acc r d : ℕ)
    → d ≡ 10 ^ j
    → r < d * 10
    → read_decimal acc (digits_text (suc j) r d) ≡ acc * (d * 10) + r
unfolding digits_text read_decimal
read_decimal-digits_text zero acc r d e h =
    let one : d ≡ 1 = e in let small : r < 10 = omega arith in rw one (omega arith)
read_decimal-digits_text (suc j) acc r d e h =
    let power : d ≡ 10 ^ j * 10 = e ∙ pow-suc 10 j in
    let pos : 0 < d = omega (arith, ten_pos j) in
    let ten : d / 10 * 10 ≡ d = omega arith in
    let less : r % d < d / 10 * 10 = omega arith in
    let digit : digit_to_char (r / d) - b'0' ≡ r / d % 10 = omega arith in
    ap (λ k. read_decimal (acc * 10 + k) (digits_text (suc j) (r % d) (d / 10))) digit
    ∙ read_decimal-digits_text j (acc * 10 + r / d % 10) (r % d) (d / 10) (omega arith) less
    ∙ ap (λ k. (acc * 10 + r / d % 10) * k + r % d) ten
    ∙ divides r d acc pos h

-- One less than the number of digits of a number, if the loop started at `count`.
record Digits (r count out : ℕ) : Type 0 where
  more : ℕ
  counted : out ≡ count + more
  below : r < 10 ^ more * 10
  above : (more ≡ 0) ⊎ (10 ^ more ≤ r)

count_loop-Digits :
    (fuel r count : ℕ) → r < 10 ^ fuel * 10 → Digits r count (count_loop fuel r count)
unfolding count_loop
count_loop-Digits zero r count h = record {
  more = 0;
  counted = omega arith;
  below = h;
  above = inl refl;
}
count_loop-Digits (suc fuel) r count h = elim (Bool-cases (leb 10 r)) [
  | inr one ↦
      rw one (record { more = 0; counted = omega arith; below = ground arith; above = inl refl })
  | inl ten ↦
      let power = pow-suc 10 fuel in
      let rest = count_loop-Digits fuel (r / 10) (count + 1) (omega arith) in
      let large = leb→le 10 r ten in
      rw ten (record {
        more = suc rest.more;
        counted = omega (arith, rest.counted);
        below = omega (arith, rest.below, pow-suc 10 rest.more);
        above = inr (at_least rest.more rest.above large);
      })
]
  where
    at_least : (k : ℕ) → (k ≡ 0) ⊎ (10 ^ k ≤ r / 10) → 10 ≤ r → 10 ^ suc k ≤ r
    at_least k (inl e) large = rw e large
    at_least k (inr le) large = omega (arith, pow-suc 10 k)

-- Multiplying by ten does not wrap, as the divisor is at most the number.
raise_divisor-pow :
    (rounds d : ℕ) → d * 10 ^ rounds < 2 ^ 32 → raise_divisor rounds d ≡ d * 10 ^ rounds
unfolding raise_divisor
raise_divisor-pow zero d h = omega arith
raise_divisor-pow (suc rounds) d h =
    let power = pow-suc 10 rounds in
    let pos = ten_pos rounds in
    let same : d * 10 ^ suc rounds ≡ d * 10 * 10 ^ rounds = ap (λ k. d * k) power ∙ omega arith in
    let small : d * 10 * 10 ^ rounds < 2 ^ 32 = omega arith in
    let here : d * 10 ≤ d * 10 * 10 ^ rounds = grind arith in
    let no_wrap : d * 10 % 2 ^ 32 ≡ d * 10 = omega arith in
    rw no_wrap (raise_divisor-pow rounds (d * 10) small ∙ sym same)

-- The decimal numeral of `v`, with no zero in front.
pub record Numeral (v : ℕ) (bytes : Bytes) : Type 0 where
  pub digits : AllDigits bytes
  pub value : read_decimal 0 bytes ≡ v
  pub no_zero_in_front : (length bytes ≡ 1) ⊎ (byte_at bytes 0 ≢ b'0')

first_digit : (v d k : ℕ) → 0 < d → d ≤ v → v < d * 10 → byte_at (digits_text (suc k) v d) 0 ≢ b'0'
unfolding digits_text
first_digit v d k pos le h =
    let some_left : 0 < v / d = grind arith in
    let quotient : v / d < 10 = grind arith in λ e. absurd (omega arith)

digits_text-Numeral :
    (v k : ℕ)
    → v < 10 ^ k * 10
    → (k ≡ 0) ⊎ (10 ^ k ≤ v)
    → Numeral v (digits_text (suc k) v (10 ^ k))
digits_text-Numeral v k below above = record {
  digits = digits_text-AllDigits (suc k) v (10 ^ k);
  value = read_decimal-digits_text k 0 v (10 ^ k) refl below ∙ omega arith;
  no_zero_in_front = in_front above;
}
  where
    in_front :
        (k ≡ 0) ⊎ (10 ^ k ≤ v)
        → (length (digits_text (suc k) v (10 ^ k)) ≡ 1)
          ⊎ (byte_at (digits_text (suc k) v (10 ^ k)) 0 ≢ b'0')
    in_front (inl e) = inl (length-digits_text (suc k) v (10 ^ k) ∙ ap suc e)
    in_front (inr le) = inr (first_digit v (10 ^ k) k (ten_pos k) le below)

uint32-text :
    (f : Formatter) (v k : ℕ)
    → count_loop 10 v 1 ≡ suc k
    → raise_divisor k 1 ≡ 10 ^ k
    → uint32 f v ≡ null_terminate (write_bytes f (digits_text (suc k) v (10 ^ k)))
unfolding uint32 count_digits
uint32-text f v k digits divisor =
    let one_less : suc k - 1 ≡ k = omega arith in rw (digits, one_less, divisor, write_digits-text)

-- From a valid formatter, `Uint32` appends the decimal numeral of its value, which has 32 bits, as far
-- as it fits. The numeral has no zero in front.
pub uint32_lem :
    (f : Formatter) (v : ℕ)
    → v < 2 ^ 32
    → IsValid f
    → (bytes : Bytes) × Numeral v bytes × Emits f bytes (uint32 f v)
uint32_lem f v small valid =
    let d = count_loop-Digits 10 v 1 (omega arith) in
    let k = d.more in
    let digits : count_loop 10 v 1 ≡ suc k = omega (arith, d.counted) in
    let fits_word : 1 * 10 ^ k < 2 ^ 32 = fits k d.above in
    let divisor : raise_divisor k 1 ≡ 10 ^ k = raise_divisor-pow k 1 fits_word ∙ omega arith in
    (
      digits_text (suc k) v (10 ^ k),
      digits_text-Numeral v k d.below d.above,
      subst (Emits f (digits_text (suc k) v (10 ^ k))) (sym (uint32-text f v k digits divisor))
          (terminated-Emits (digits_text (suc k) v (10 ^ k)) valid),
    )
  where
    fits : (k : ℕ) → (k ≡ 0) ⊎ (10 ^ k ≤ v) → 1 * 10 ^ k < 2 ^ 32
    fits k (inl e) = rw e (omega arith)
    fits k (inr le) = omega arith
