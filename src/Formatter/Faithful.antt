-- ===== src/Formatter/Faithful.antt =====
-- `BoundedString` writes a well-formed source that fits unchanged.
use solid_syslog.Base.{
  ℕ, zero, suc, ◌+◌, ◌-◌, ◌≤◌, ◌<◌, ◌≡◌, ◌≢◌, refl, ap, subst, ◌∙◌, true, not, ◌&&◌, [], ◌∷◌, ◌++◌,
  arith, length, Bytes, byte_at, take-append, drop-append, ltb, length-append, ◌==◌,
}
use solid_syslog.Utf8.Scalar.{
  IsScalar, encode, WellFormed, empty, codepoint, AllBytes, WellFormed-AllBytes, length-encode_pos,
}
use solid_syslog.Formatter.Codepoint.Complete.{utf8_codepoint_length-encode}
use solid_syslog.Formatter.{Formatter, codepoint_fits, bounded_string}
use solid_syslog.Formatter.Emit.{IsValid, Emits}
use solid_syslog.Formatter.Bounded.{bounded_text, bounded_string-Emits}

-- no byte of the list is the terminator
abbrev pub NulFree : Bytes → Type 0
NulFree [] = Unit {0}
NulFree (b ∷ bs) = (b ≢ 0) × NulFree bs

pub NulFree-append_right : (xs ys : Bytes) → NulFree (xs ++ ys) → NulFree ys
NulFree-append_right [] ys h = h
NulFree-append_right (x ∷ xs) ys h = NulFree-append_right xs ys h.1

pub NulFree-head : (xs : Bytes) → NulFree xs → 0 < length xs → byte_at xs 0 ≢ 0
NulFree-head [] h pos = absurd (omega arith)
NulFree-head (x ∷ xs) h pos = h.0

bounded_text-nil : (fuel len max_length : ℕ) → bounded_text fuel [] len max_length ≡ []
unfolding bounded_text
bounded_text-nil zero len m = refl
bounded_text-nil (suc fuel) len m = ground arith

bounded_text-eq_of_scalar :
    (c : ℕ) (bs : Bytes) (fuel len max_length : ℕ)
    → IsScalar c
    → AllBytes bs
    → NulFree (encode c ++ bs)
    → len + length (encode c) ≤ max_length
    → bounded_text (suc fuel) (encode c ++ bs) len max_length
      ≡ encode c ++ bounded_text fuel bs (len + length (encode c)) max_length
unfolding bounded_text
bounded_text-eq_of_scalar c bs fuel len m s all nul fit =
    let e = utf8_codepoint_length-encode c bs s all in
    let pos = length-encode_pos c in
    let start = NulFree-head (encode c ++ bs) nul (omega (arith, length-append (encode c) bs)) in
    let more : (ltb len m && not (byte_at (encode c ++ bs) 0 == 0)) ≡ true = ground arith in
    let copy : codepoint_fits (length (encode c)) (m - len) ≡ true = ground arith in
    rw (e, more, copy, take-append, drop-append)

-- A well-formed source without terminators inside, of at most the length allowed, is what
-- `BoundedString` writes.
pub bounded_text-eq_of_WellFormed :
    {source : Bytes} (fuel len max_length : ℕ)
    → WellFormed source
    → NulFree source
    → length source ≤ fuel
    → len + length source ≤ max_length
    → bounded_text fuel source len max_length ≡ source
bounded_text-eq_of_WellFormed fuel len m empty nul short fit = bounded_text-nil fuel len m
bounded_text-eq_of_WellFormed zero len m (codepoint c {bs} s v) nul short fit =
    absurd (omega (arith, length-encode_pos c, length-append (encode c) bs))
bounded_text-eq_of_WellFormed (suc fuel) len m (codepoint c {bs} s v) nul short fit =
    let sum = length-append (encode c) bs in
    let pos = length-encode_pos c in
    bounded_text-eq_of_scalar c bs fuel len m s (WellFormed-AllBytes v) nul (omega arith)
    ∙ ap (λ t. encode c ++ t)
        (bounded_text-eq_of_WellFormed fuel (len + length (encode c)) m v
          (NulFree-append_right (encode c) bs nul) (omega arith) (omega arith))

-- From a valid formatter, `BoundedString` appends such a source unchanged, as far as it fits.
pub bounded_string_copies :
    (f : Formatter) (source : Bytes) (max_length : ℕ)
    → IsValid f
    → WellFormed source
    → NulFree source
    → length source ≤ max_length
    → Emits f source (bounded_string f source max_length)
bounded_string_copies f source m valid w nul fit =
    subst (λ t. Emits f t (bounded_string f source m))
      (bounded_text-eq_of_WellFormed m 0 m w nul fit (omega arith))
      (bounded_string-Emits f source m valid (WellFormed-AllBytes w)).1
