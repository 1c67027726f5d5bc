-- ===== src/Utf8/Cut.antt =====
-- A well-formed text that is cut short: whole code points, and the beginning of at most one more.
use solid_syslog.Base.{
  ℕ, zero, suc, ◌+◌, ◌-◌, ◌≤◌, ◌<◌, ◌≡◌, refl, ap, sym, subst, ◌∙◌, inl, inr, [], ◌∷◌, ◌++◌,
  append_assoc, arith, length, take, Bytes, byte_at, length-take, Bool-cases, ltb, ltb→lt,
  length-append, if◌then◌else◌,
}
use solid_syslog.Utf8.Scalar.{IsScalar, encode, WellFormed, empty, codepoint, length-encode_pos}

-- how many bytes the code point has that a byte begins; 1 where it begins none
abbrev pub lead_width : ℕ → ℕ
lead_width b =
    if ltb b 192
    then 1
    else if ltb b 224
    then 2
    else if ltb b 240
    then 3
    else if ltb b 248
    then 4
    else 1

pub byte_at-append_left :
    (xs ys : Bytes) (j : ℕ) → j < length xs → byte_at (xs ++ ys) j ≡ byte_at xs j
byte_at-append_left [] ys j h = absurd (omega arith)
byte_at-append_left (x ∷ xs) ys zero h = refl
byte_at-append_left (x ∷ xs) ys (suc j) h = byte_at-append_left xs ys j (omega arith)

pub byte_at-append_right :
    (xs ys : Bytes) (i j : ℕ) → length xs + i ≡ j → byte_at (xs ++ ys) j ≡ byte_at ys i
byte_at-append_right [] ys i j h = λ k. byte_at ys (same k)
  where
    same : j ≡ i
    same = omega arith
byte_at-append_right (x ∷ xs) ys i zero h = absurd (omega arith)
byte_at-append_right (x ∷ xs) ys i (suc j) h = byte_at-append_right xs ys i j (omega arith)

-- The first byte of an encoding tells its length; the others begin nothing.
pub lead_width-encode : (c : ℕ) → IsScalar c → lead_width (byte_at (encode c) 0) ≡ length (encode c)
unfolding encode
lead_width-encode c s = ground arith

pub encode-continues :
    (c j : ℕ)
    → IsScalar c
    → 0 < j
    → j < length (encode c)
    → (128 ≤ byte_at (encode c) j) × (byte_at (encode c) j < 192)
unfolding encode
encode-continues c zero s p q = absurd (omega arith)
encode-continues c (suc zero) s p q = ground arith
encode-continues c (suc (suc zero)) s p q = ground arith
encode-continues c (suc (suc (suc zero))) s p q = ground arith
encode-continues c (suc (suc (suc (suc j)))) s p q = absurd (ground arith)

-- The code point that a byte of a well-formed text begins ends inside the text.
pub lead_width-le :
    {t : Bytes} → WellFormed t → (j : ℕ) → j < length t → j + lead_width (byte_at t j) ≤ length t
lead_width-le empty j h = absurd (omega arith)
lead_width-le (codepoint c {bs} s v) j h = elim (Bool-cases (ltb j (length (encode c)))) [
  | inl inside ↦
      let lt = ltb→lt j (length (encode c)) inside in
      rw (byte_at-append_left (encode c) bs j lt) (here j lt)
  | inr behind ↦
      let i = j - length (encode c) in
      let ge : length (encode c) ≤ j = ground arith in
      rw (byte_at-append_right (encode c) bs i j (omega arith)) (
        omega (
          arith,
          length-append (encode c) bs,
          lead_width-le v i (omega (arith, length-append (encode c) bs)),
        ))
]
  where
    here :
        (j : ℕ)
        → j < length (encode c)
        → j + lead_width (byte_at (encode c) j) ≤ length (encode c ++ bs)
    here zero lt = omega (arith, lead_width-encode c s, length-append (encode c) bs)
    here (suc j) lt =
        let range = encode-continues c (suc j) s (omega arith) lt in
        let one : lead_width (byte_at (encode c) (suc j)) ≡ 1 = ground arith in
        omega (arith, one, length-append (encode c) bs)

-- Whole code points, and the first `shown` bytes of one more.
pub record Cut (t : Bytes) : Type 0 where
  pub whole : Bytes
  pub whole_is : WellFormed whole
  pub broken : ℕ
  pub broken_is : IsScalar broken
  pub shown : ℕ
  pub not_all : shown < length (encode broken)
  pub splits : t ≡ whole ++ take shown (encode broken)

take-append_left : (n : ℕ) (xs ys : Bytes) → n ≤ length xs → take n (xs ++ ys) ≡ take n xs
take-append_left zero xs ys h = refl
take-append_left (suc n) [] ys h = absurd (omega arith)
take-append_left (suc n) (x ∷ xs) ys h = ap (◌∷◌ x) (take-append_left n xs ys (omega arith))

take-append_right :
    (n m : ℕ) (xs ys : Bytes) → length xs + m ≡ n → take n (xs ++ ys) ≡ xs ++ take m ys
take-append_right n m [] ys h = λ k. take (same k) ys
  where
    same : n ≡ m
    same = omega arith
take-append_right zero m (x ∷ xs) ys h = absurd (omega arith)
take-append_right (suc n) m (x ∷ xs) ys h = ap (◌∷◌ x) (take-append_right n m xs ys (omega arith))

Cut-codepoint :
    (c : ℕ) (bs : Bytes)
    → IsScalar c
    → (n : ℕ) → ((m : ℕ) → m ≤ length bs → Cut (take m bs))
    → n ≤ length (encode c ++ bs)
    → Cut (take n (encode c ++ bs))
Cut-codepoint c bs s n ih h = elim (Bool-cases (ltb n (length (encode c)))) [
  | inl inside ↦
      let lt = ltb→lt n (length (encode c)) inside in
      record {
        whole = [];
        whole_is = empty;
        broken = c;
        broken_is = s;
        shown = n;
        not_all = lt;
        splits = take-append_left n (encode c) bs (omega arith);
      }
  | inr behind ↦
      let ge : length (encode c) ≤ n = ground arith in
      let m = n - length (encode c) in
      let r = ih m (omega (arith, length-append (encode c) bs)) in
      record {
        whole = encode c ++ r.whole;
        whole_is = codepoint c s r.whole_is;
        broken = r.broken;
        broken_is = r.broken_is;
        shown = r.shown;
        not_all = r.not_all;
        splits =
            take-append_right n m (encode c) bs (omega arith)
            ∙ ap (λ t. encode c ++ t) r.splits
            ∙ sym (append_assoc (encode c) r.whole (take r.shown (encode r.broken)));
      }
]

-- However a well-formed text is cut, this is what is left.
pub take-Cut : {w : Bytes} → WellFormed w → (n : ℕ) → n ≤ length w → Cut (take n w)
take-Cut empty zero h = record {
  whole = [];
  whole_is = empty;
  broken = 0;
  broken_is = inl (omega arith);
  shown = 0;
  not_all = length-encode_pos 0;
  splits = refl;
}
take-Cut empty (suc n) h = absurd (omega arith)
take-Cut (codepoint c {bs} s v) n h = Cut-codepoint c bs s n (take-Cut v) h

pub byte_at-take : (n : ℕ) (xs : Bytes) (j : ℕ) → j < n → byte_at (take n xs) j ≡ byte_at xs j
byte_at-take zero xs j h = absurd (omega arith)
byte_at-take (suc n) [] j h = refl
byte_at-take (suc n) (x ∷ xs) zero h = refl
byte_at-take (suc n) (x ∷ xs) (suc j) h = byte_at-take n xs j (omega arith)

-- What the bytes of a cut text tell of where it was cut.
pub record CutBytes (t : Bytes) (whole shown : ℕ) : Type 0 where
  pub total : length t ≡ whole + shown
  pub inside : (j : ℕ) → j < whole → j + lead_width (byte_at t j) ≤ whole
  pub lead : 0 < shown → shown < lead_width (byte_at t whole)
  pub tail :
      (i : ℕ) → 0 < i → i < shown → (128 ≤ byte_at t (whole + i)) × (byte_at t (whole + i) < 192)

pub Cut-CutBytes : {t : Bytes} (c : Cut t) → CutBytes t (length c.whole) c.shown
Cut-CutBytes {t} c =
    let partial = take c.shown (encode c.broken) in
    let size : length partial ≡ c.shown =
      omega (arith, length-take c.shown (encode c.broken), c.not_all) in
    subst (λ u. CutBytes u (length c.whole) c.shown) (sym c.splits)
      (record {
        total = omega (arith, length-append c.whole partial);
        inside = λ j h. rw (byte_at-append_left c.whole partial j h) (lead_width-le c.whole_is j h);
        lead = λ h.
            rw
              (
                byte_at-append_right c.whole partial 0 (length c.whole) (omega arith),
                byte_at-take c.shown (encode c.broken) 0 h,
                lead_width-encode c.broken c.broken_is,
              )
              c.not_all;
        tail = λ i p q.
            rw
              (
                byte_at-append_right c.whole partial i (length c.whole + i) refl,
                byte_at-take c.shown (encode c.broken) i q,
              )
              (encode-continues c.broken i c.broken_is p (omega (arith, c.not_all)));
      })

-- No longer prefix of a cut text is well-formed.
pub whole_longest :
    {t : Bytes} {whole shown : ℕ}
    → CutBytes t whole shown
    → (k : ℕ) → WellFormed (take k t)
    → k ≤ length t
    → k ≤ whole
whole_longest {t} {whole} {shown} c k w h = elim (Bool-cases (ltb whole k)) [
  | inr short ↦ ground arith
  | inl long ↦
      let lt = ltb→lt whole k long in
      let size : length (take k t) ≡ k = omega (arith, length-take k t) in
      let ends = lead_width-le w whole (omega arith) in
      let same = byte_at-take k t whole lt in
      absurd (omega (arith, c.total, c.lead (omega (arith, c.total)), rw (same, size) at ends))
]

encode-lt : (c j : ℕ) → IsScalar c → byte_at (encode c) j < 248
unfolding encode
encode-lt c zero s = ground arith
encode-lt c (suc zero) s = ground arith
encode-lt c (suc (suc zero)) s = ground arith
encode-lt c (suc (suc (suc zero))) s = ground arith
encode-lt c (suc (suc (suc (suc j)))) s = ground arith

-- No byte of a well-formed text is above the leads of four bytes.
pub WellFormed-lt : {w : Bytes} → WellFormed w → (j : ℕ) → byte_at w j < 248
WellFormed-lt empty j = omega arith
WellFormed-lt (codepoint c {bs} s v) j = elim (Bool-cases (ltb j (length (encode c)))) [
  | inl inside ↦
      rw (byte_at-append_left (encode c) bs j (ltb→lt j (length (encode c)) inside))
        (encode-lt c j s)
  | inr behind ↦
      let ge : length (encode c) ≤ j = ground arith in
      rw (byte_at-append_right (encode c) bs (j - length (encode c)) j (omega arith))
        (WellFormed-lt v (j - length (encode c)))
]

abbrev pub Continues : ℕ → Type 0
Continues b = (128 ≤ b) × (b < 192)

-- A well-formed text does not begin inside a code point.
pub WellFormed-head : {w : Bytes} → WellFormed w → ¬ Continues (byte_at w 0)
unfolding encode
WellFormed-head empty h = absurd (omega arith)
WellFormed-head (codepoint c {bs} s v) h = ground arith
