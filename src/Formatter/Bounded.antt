-- ===== src/Formatter/Bounded.antt =====
-- `BoundedString`: what it writes is well-formed UTF-8 whatever its source.
use solid_syslog.Base.{
  ℕ, zero, suc, ◌+◌, ◌-◌, ◌≤◌, ◌<◌, ◌≡◌, ◌≢◌, refl, sym, ◌∙◌, inl, inr, Bool, true, false, not,
  ◌&&◌, [], ◌++◌, arith, take, drop, Bytes, byte_at, take-append, Bool-cases, ltb, if◌then◌else◌,
  ◌==◌,
}
use solid_syslog.Utf8.Scalar.{
  encode, WellFormed, empty, AllBytes, AllBytes-drop, WellFormed-append, WellFormed-encode,
}
use solid_syslog.Formatter.Codepoint.{utf8_codepoint_length}
use solid_syslog.Formatter.Codepoint.Sound.{utf8_codepoint_length-Starts}
use solid_syslog.Formatter.{
  Formatter, write_bytes, replacement_character, codepoint_fits, bounded_loop, bounded_string,
}
use solid_syslog.Formatter.Emit.{IsValid, write_bytes-append, Emits, terminated-Emits}

-- the bytes that the loop writes, with no bound on the buffer
unfoldable pub bounded_text : ℕ → Bytes → ℕ → ℕ → Bytes
bounded_text zero source len max_length = []
bounded_text (suc fuel) source len max_length =
    let n = utf8_codepoint_length source in
    let copied = take n source ++ bounded_text fuel (drop n source) (len + n) max_length in
    let replaced =
      replacement_character ++ bounded_text fuel (drop 1 source) (len + 1) max_length in
    if ltb len max_length && not (byte_at source 0 == 0)
    then (if codepoint_fits n (max_length - len) then copied else replaced)
    else []

if_congr {ℓ} :
    {A : Type ℓ} (b : Bool) (x y x' y' : A)
    → x ≡ x'
    → y ≡ y'
    → (if b then x else y) ≡ (if b then x' else y')
if_congr true x y x' y' p q = p
if_congr false x y x' y' p q = q

write_bytes-if :
    (f : Formatter) (b : Bool) (xs ys : Bytes)
    → write_bytes f (if b then xs else ys) ≡ (if b then write_bytes f xs else write_bytes f ys)
write_bytes-if f true xs ys = refl
write_bytes-if f false xs ys = refl

-- The loop writes them in order.
bounded_loop-text :
    (fuel : ℕ) (f : Formatter) (source : Bytes) (len max_length : ℕ)
    → bounded_loop fuel f source len max_length
      ≡ write_bytes f (bounded_text fuel source len max_length)
unfolding bounded_loop bounded_text write_bytes
bounded_loop-text zero f source len max_length = refl
bounded_loop-text (suc fuel) f source len max_length =
    let n = utf8_codepoint_length source in
    let copied =
      bounded_loop-text fuel (write_bytes f (take n source)) (drop n source) (len + n) max_length
      ∙ write_bytes-append (take n source) (bounded_text fuel (drop n source) (len + n) max_length)
          f in
    let replaced =
      bounded_loop-text fuel (write_bytes f replacement_character) (drop 1 source) (len + 1)
        max_length in
    let more = ltb len max_length && not (byte_at source 0 == 0) in
    let fit = codepoint_fits n (max_length - len) in
    if_congr more _ _ _ _ (if_congr fit _ _ _ _ copied replaced ∙ sym (write_bytes-if f fit _ _))
      refl
    ∙ sym (write_bytes-if f more _ _)

pub replacement-WellFormed : WellFormed replacement_character
unfolding encode
replacement-WellFormed = WellFormed-encode 0xFFFD (inr (omega arith, omega arith))

-- A code point that the validation accepts is a well-formed text.
pub copied-WellFormed :
    (source : Bytes)
    → AllBytes source
    → byte_at source 0 ≢ 0
    → 0 < utf8_codepoint_length source
    → WellFormed (take (utf8_codepoint_length source) source)
copied-WellFormed source all start pos =
    let s = utf8_codepoint_length-Starts source all start pos in
    let first : take (utf8_codepoint_length source) source ≡ encode s.scalar =
      (λ i. take (sym s.measures i) (s.splits i)) ∙ take-append (encode s.scalar) s.rest in
    rw first (WellFormed-encode s.scalar s.is_scalar)

bounded_text-WellFormed :
    (fuel : ℕ) (source : Bytes) (len max_length : ℕ)
    → AllBytes source
    → WellFormed (bounded_text fuel source len max_length)
unfolding bounded_text
bounded_text-WellFormed zero source len max_length all = empty
bounded_text-WellFormed (suc fuel) source len max_length all =
    let n = utf8_codepoint_length source in
    let more = ltb len max_length && not (byte_at source 0 == 0) in
    let fit = codepoint_fits n (max_length - len) in
    elim (Bool-cases more) [
      | inr stop ↦ rw stop empty
      | inl on ↦
          let start : byte_at source 0 ≢ 0 = ground arith in
          elim (Bool-cases fit) [
            | inl copy ↦
                rw (on, copy)
                  (WellFormed-append (copied-WellFormed source all start (ground arith)) (
                    bounded_text-WellFormed fuel (drop n source) (len + n) max_length
                      (AllBytes-drop n source all)))
            | inr replace ↦
                rw (on, replace)
                  (WellFormed-append replacement-WellFormed (
                    bounded_text-WellFormed fuel (drop 1 source) (len + 1) max_length
                      (AllBytes-drop 1 source all)))
          ]
    ]

-- From a valid formatter and whatever the bytes of the source, `BoundedString` appends, as far as it fits, one and the same text, which
-- is well-formed UTF-8.
pub bounded_string-Emits :
    (f : Formatter) (source : Bytes) (max_length : ℕ)
    → IsValid f
    → AllBytes source
    → WellFormed (bounded_text max_length source 0 max_length)
      × Emits f (bounded_text max_length source 0 max_length) (bounded_string f source max_length)
unfolding bounded_string
bounded_string-Emits f source max_length valid all = (
  bounded_text-WellFormed max_length source 0 max_length all,
  rw (bounded_loop-text max_length f source 0 max_length)
      (terminated-Emits (bounded_text max_length source 0 max_length) valid),
)

-- With a fuel of at least the bytes left, more fuel changes nothing: the loop has ended by its test.
pub bounded_loop_ends :
    (a b : ℕ) (f : Formatter) (source : Bytes) (len max_length : ℕ)
    → max_length ≤ len + a
    → max_length ≤ len + b
    → bounded_loop a f source len max_length ≡ bounded_loop b f source len max_length
unfolding bounded_loop
bounded_loop_ends zero zero f source len m p q = refl
bounded_loop_ends zero (suc b) f source len m p q =
    let over : ltb len m ≡ false = ground arith in rw over
bounded_loop_ends (suc a) zero f source len m p q =
    let over : ltb len m ≡ false = ground arith in rw over
bounded_loop_ends (suc a) (suc b) f source len m p q =
    let n = utf8_codepoint_length source in
    let more = ltb len m && not (byte_at source 0 == 0) in
    let fit = codepoint_fits n (m - len) in
    elim (Bool-cases more) [
      | inr stop ↦ rw stop
      | inl on ↦ elim (Bool-cases fit) [
        | inl copy ↦
            let pos : 0 < n = ground arith in
            rw (on, copy)
              (bounded_loop_ends a b (write_bytes f (take n source)) (drop n source) (len + n) m
                (omega arith) (omega arith))
        | inr replace ↦
            rw (on, replace)
              (bounded_loop_ends a b (write_bytes f replacement_character) (drop 1 source) (len + 1)
                m (omega arith) (omega arith))
      ]
    ]
