-- ===== src/RecordStore/Shows.antt =====
-- Where the bytes of an array show a text.
use solid_syslog.Base.{
  ℕ, zero, suc, ◌+◌, ◌-◌, ◌≤◌, ◌<◌, ◌≡◌, refl, ap, ap₂, sym, ◌∙◌, ◌⊎◌, inl, inr, [], ◌∷◌, ◌++◌,
  arith, length, length-append, take, Bytes, byte_at, slice, blit, byte_at-blit_before,
  byte_at-blit_after, Bool-cases, ltb, ltb→lt,
}
use solid_syslog.Utf8.Cut.{byte_at-append_left, byte_at-append_right}
use solid_syslog.RecordStore.Spans.{byte_at-blit_inside}

abbrev pub Shows : Bytes → ℕ → Bytes → Type 0
Shows m i ys = (j : ℕ) → j < length ys → byte_at m (i + j) ≡ byte_at ys j

pub Shows-slice : (m : Bytes) (i : ℕ) (ys : Bytes) → Shows m i ys → slice m i (length ys) ≡ ys
unfolding slice
Shows-slice m i [] h = refl
Shows-slice m i (y ∷ ys) h =
    ap₂ ◌∷◌ (ap (byte_at m) (omega arith) ∙ h 0 (omega arith))
      (Shows-slice m (i + 1) ys (λ j less. ap (byte_at m) (omega arith) ∙ h (suc j) (omega arith)))

pub Shows-blit :
    (m : Bytes) (i : ℕ) (ys : Bytes) → i + length ys ≤ length m → Shows (blit m i ys) i ys
Shows-blit m i ys fit = λ j less. byte_at-blit_inside m i ys j (i + j) fit less refl

-- A copy beside it leaves it.
pub Shows-blit_other :
    (m : Bytes) (i : ℕ) (ys : Bytes) (k : ℕ) (bs : Bytes)
    → (i + length ys ≤ k) ⊎ (k + length bs ≤ i)
    → Shows m i ys
    → Shows (blit m k bs) i ys
Shows-blit_other m i ys k bs (inl before) h =
    λ j less. byte_at-blit_before m k bs (i + j) (omega arith) ∙ h j less
Shows-blit_other m i ys k bs (inr behind) h =
    λ j less. byte_at-blit_after m k bs (i + j) (omega arith) ∙ h j less

pub Shows-append :
    (m : Bytes) (i : ℕ) (xs ys : Bytes)
    → Shows m i xs
    → Shows m (i + length xs) ys
    → Shows m i (xs ++ ys)
Shows-append m i xs ys h k = λ j less. elim (Bool-cases (ltb j (length xs))) [
  | inl left ↦
      let inside = ltb→lt j (length xs) left in
      h j inside ∙ sym (byte_at-append_left xs ys j inside)
  | inr right ↦
      let behind : length xs + (j - length xs) ≡ j = ground arith in
      ap (byte_at m) (omega arith)
      ∙ k (j - length xs) (omega (arith, length-append xs ys))
      ∙ sym (byte_at-append_right xs ys (j - length xs) j behind)
]

pub Shows-left : (m : Bytes) (i : ℕ) (xs ys : Bytes) → Shows m i (xs ++ ys) → Shows m i xs
Shows-left m i xs ys h =
    λ j less. h j (omega (arith, length-append xs ys)) ∙ byte_at-append_left xs ys j less

pub Shows-right :
    (m : Bytes) (i : ℕ) (xs ys : Bytes) → Shows m i (xs ++ ys) → Shows m (i + length xs) ys
Shows-right m i xs ys h = λ j less.
    ap (byte_at m) (omega arith)
    ∙ h (length xs + j) (omega (arith, length-append xs ys))
    ∙ byte_at-append_right xs ys j (length xs + j) refl

-- A text behind another one.
pub Shows-behind : (xs ys : Bytes) → Shows (xs ++ ys) (length xs) ys
Shows-behind xs ys = λ j less. byte_at-append_right xs ys j (length xs + j) refl

-- The first bytes of a text that is shown.
pub Shows-slice_prefix :
    (m : Bytes) (i k : ℕ) (ys : Bytes) → k ≤ length ys → Shows m i ys → slice m i k ≡ take k ys
unfolding slice
Shows-slice_prefix m i zero ys fit h = refl
Shows-slice_prefix m i (suc k) [] fit h = absurd (omega arith)
Shows-slice_prefix m i (suc k) (y ∷ ys) fit h =
    ap₂ ◌∷◌ (ap (byte_at m) (omega arith) ∙ h 0 (omega arith)) (
      Shows-slice_prefix m (i + 1) k ys (omega arith)
        (λ j less. ap (byte_at m) (omega arith) ∙ h (suc j) (omega arith)))
