-- ===== src/Senders/Stream/Frame.antt =====
-- The prefix of a frame: the length of the message in decimal, and a space.
use solid_syslog.Base.{
  Bool-cases, ltb, ltb→lt, ℕ, ◌+◌, ◌-◌, ◌*◌, ◌%◌, ◌^◌, ◌≤◌, ◌<◌, ◌≡◌, ◌≢◌, refl, ap, ap₂, sym,
  subst, ◌∙◌, ◌⊎◌, inl, inr, [], ◌∷◌, ◌++◌, arith, length, take, replicate, Bytes, byte_at,
  length-append, take-eq_of_le,
}
use native.Mathlib.Nat.{pow-suc, pow-le-pow_right}
use solid_syslog.Utf8.Scalar.{WellFormed, empty, codepoint, encode_one}
use solid_syslog.Formatter.{
  Formatter, create, write_bytes, null_terminate, uint32, ascii_character, as_formatted_buffer,
  trim_from,
}
use solid_syslog.Formatter.Emit.{IsValid, Emits, text, room, create-IsValid, terminated-Emits}
use solid_syslog.Formatter.Decimal.{AllDigits, read_decimal, Numeral, uint32_lem}
use solid_syslog.Formatter.Trim.{as_formatted_buffer-Trimmed}
use solid_syslog.Senders.Stream.{prefix_capacity, format_octet_counting_prefix, prefix_bytes}

shifted : (acc d power : ℕ) → acc * (power * 10) ≤ (acc * 10 + d) * power
shifted acc d power = grind arith

-- Every digit behind it multiplies a number by ten.
read_decimal_least : (acc : ℕ) (bs : Bytes) → acc * 10 ^ length bs ≤ read_decimal acc bs
unfolding read_decimal
read_decimal_least acc [] = omega arith
read_decimal_least acc (b ∷ bs) =
    let rest = read_decimal_least (acc * 10 + (b - b'0')) bs in
    let step = shifted acc (b - b'0') (10 ^ length bs) in
    let power : 10 ^ length (b ∷ bs) ≡ 10 ^ length bs * 10 = pow-suc 10 (length bs) in
    rw power (omega arith)

one_times : (d power v : ℕ) → 1 ≤ d → (0 * 10 + d) * power ≤ v → power ≤ v
one_times d power v h le = grind arith

-- A number of 32 bits has at most ten digits.
Numeral-short : (v : ℕ) (bs : Bytes) → Numeral v bs → v < 2 ^ 32 → length bs ≤ 10
unfolding read_decimal
Numeral-short v [] n h = omega arith
Numeral-short v (b ∷ bs) n h = in_front n.no_zero_in_front
  where
    not_more : 10 ^ length bs ≤ v → length bs < 10
    not_more le = elim (Bool-cases (ltb (length bs) 10)) [
      | inl short ↦ ltb→lt (length bs) 10 short
      | inr long ↦
          let big : 10 ^ 10 ≤ 10 ^ length bs =
            pow-le-pow_right {n = 10} (omega arith) {i = 10} {j = length bs} (ground arith) in
          absurd (omega arith)
    ]

    in_front : (length (b ∷ bs) ≡ 1) ⊎ (byte_at (b ∷ bs) 0 ≢ b'0') → length (b ∷ bs) ≤ 10
    in_front (inl one) = omega arith
    in_front (inr front) =
        let first : b ≢ b'0' = front in
        let least : (0 * 10 + (b - b'0')) * 10 ^ length bs ≤ v =
          subst (λ x. (0 * 10 + (b - b'0')) * 10 ^ length bs ≤ x) n.value
            (read_decimal_least (0 * 10 + (b - b'0')) bs) in
        let pos : 1 ≤ b - b'0' = omega (arith, n.digits.0.0) in
        omega (arith, not_more (one_times (b - b'0') (10 ^ length bs) v pos least))

-- ASCII is well-formed.
ascii-WellFormed : (b : ℕ) {bs : Bytes} → b < 128 → WellFormed bs → WellFormed (b ∷ bs)
ascii-WellFormed b {bs} h w =
    subst (λ e. WellFormed (e ++ bs)) (encode_one b h) (codepoint b (inl (omega arith)) w)

digits-WellFormed :
    (ds : Bytes) {rest : Bytes} → AllDigits ds → WellFormed rest → WellFormed (ds ++ rest)
digits-WellFormed [] h w = w
digits-WellFormed (d ∷ ds) h w =
    ascii-WellFormed d (omega (arith, h.0)) (digits-WellFormed ds h.1 w)

ascii_space-Emits : {f : Formatter} → IsValid f → Emits f (b' ' ∷ []) (ascii_character f b' ')
unfolding ascii_character
ascii_space-Emits {f} valid = unfold write_bytes in terminated-Emits (b' ' ∷ []) valid

-- A well-formed text is sent whole.
sent_text :
    (f : Formatter) (w : Bytes)
    → IsValid f
    → WellFormed w
    → f.position ≡ length w
    → text f ≡ w
    → take f.position (as_formatted_buffer f).buffer ≡ w
sent_text f w valid wf size same =
    let whole : take f.position w ≡ w = take-eq_of_le f.position w (omega arith) in
    let t = as_formatted_buffer-Trimmed f w valid wf (omega arith) (same ∙ sym whole) in
    let k = trim_from f.buffer f.position in
    let longest = t.cut.longest f.position (omega arith) (subst WellFormed (sym whole) wf) in
    let all : k ≡ f.position = omega (arith, t.cut.within_limit) in
    ap (λ n. take n (as_formatted_buffer f).buffer) (sym all)
    ∙ t.kept
    ∙ ap (λ n. take n w) all
    ∙ whole

-- A formatter of `prefix_capacity` bytes that holds a text.
record Holds (f : Formatter) (w : Bytes) : Type 0 where
  valid : IsValid f
  size : f.size ≡ prefix_capacity
  position : f.position ≡ length w
  holds : text f ≡ w

create-Holds : Holds (create (replicate prefix_capacity 0) prefix_capacity) []
unfolding create null_terminate
create-Holds = record {
  valid = (create-IsValid (replicate prefix_capacity 0) prefix_capacity (omega arith)).0;
  size = refl;
  position = refl;
  holds = refl;
}

-- A text that fits behind it is held behind it.
Emits-Holds :
    {f g : Formatter} {w : Bytes} (bytes : Bytes)
    → Holds f w
    → Emits f bytes g
    → length w + length bytes < prefix_capacity
    → Holds g (w ++ bytes)
Emits-Holds {f} {g} {w} bytes h e fits =
    let left : length bytes ≤ room f = omega (arith, h.size, h.position) in
    record {
      valid = e.appended.valid;
      size = e.appended.same_size ∙ h.size;
      position = omega (arith, e.appended.advanced, h.position, length-append w bytes);
      holds =
          e.appended.written
          ∙ ap₂ (λ (a b : Bytes). a ++ b) h.holds (take-eq_of_le (room f) bytes left);
    }

-- What is sent in front of a message whose length has 32 bits is its decimal numeral and a space.
pub prefix_bytes_lem :
    (n : ℕ) → n < 2 ^ 32 → (ds : Bytes) × Numeral n ds × (prefix_bytes n ≡ ds ++ b' ' ∷ [])
unfolding format_octet_counting_prefix
prefix_bytes_lem n small =
    let f0 = create (replicate prefix_capacity 0) prefix_capacity in
    let h0 = create-Holds in
    let same : n % 2 ^ 32 ≡ n = omega arith in
    let (ds, numeral, e1) = uint32_lem f0 n small h0.valid in
    let short = Numeral-short n ds numeral small in
    let h1 = Emits-Holds ds h0 e1 (omega arith) in
    let h2 = Emits-Holds (b' ' ∷ []) h1 (ascii_space-Emits e1.appended.valid) (omega arith) in
    let f2 = ascii_character (uint32 f0 n) b' ' in
    (
      ds,
      numeral,
      rw same (
          sent_text f2 (ds ++ b' ' ∷ []) h2.valid
            (digits-WellFormed ds numeral.digits (ascii-WellFormed b' ' (omega arith) empty))
            h2.position h2.holds),
    )
