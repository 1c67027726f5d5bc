-- ===== src/Formatter/Trim.antt =====
-- `AsFormattedBuffer` ends a truncated text at its last whole code point.
use solid_syslog.Base.{
  ℕ, zero, suc, ◌+◌, ◌-◌, ◌≤◌, ◌<◌, ◌≡◌, refl, ap, sym, subst, ◌∙◌, ◌⊎◌, inl, inr, ◌&&◌, ◌||◌, [],
  ◌∷◌, arith, length, set, take, replicate, Bytes, byte_at, slice, blit, slice-blit_self,
  length-take, take-take, Bool-cases, leb, ltb, ltb→lt, if◌then◌else◌,
}
use solid_syslog.Utf8.Scalar.{WellFormed}
use solid_syslog.Formatter.{Formatter, trim_from, as_formatted_buffer}
use solid_syslog.Base.Bits.{passes_from}
use solid_syslog.Utf8.{is_two_byte_lead, is_three_byte_lead, is_four_byte_lead}
use solid_syslog.Utf8.Classes.{by_table}
use solid_syslog.Utf8.Cut.{
  lead_width, byte_at-take, take-Cut, Cut, CutBytes, Cut-CutBytes, WellFormed-lt,
}
use solid_syslog.Utf8.Boundary.{CutsAt, Cut-CutsAt, length-encode-le}
use solid_syslog.Formatter.Emit.{IsValid, text}

open_one :
    (b : ℕ)
    → b < 256
    → (is_two_byte_lead b || is_three_byte_lead b || is_four_byte_lead b) ≡ ltb 1 (lead_width b)
unfolding is_two_byte_lead is_three_byte_lead is_four_byte_lead passes_from
open_one =
    by_table (λ b. is_two_byte_lead b || is_three_byte_lead b || is_four_byte_lead b)
      (λ b. ltb 1 (lead_width b)) refl

open_two : (b : ℕ) → b < 256 → (is_three_byte_lead b || is_four_byte_lead b) ≡ ltb 2 (lead_width b)
unfolding is_three_byte_lead is_four_byte_lead passes_from
open_two =
    by_table (λ b. is_three_byte_lead b || is_four_byte_lead b) (λ b. ltb 2 (lead_width b)) refl

open_three : (b : ℕ) → b < 256 → is_four_byte_lead b ≡ ltb 3 (lead_width b)
unfolding is_four_byte_lead passes_from
open_three = by_table is_four_byte_lead (λ b. ltb 3 (lead_width b)) refl

-- the widths that the last three bytes announce
abbrev widths : ℕ → ℕ → ℕ → ℕ → ℕ
widths p a b c =
    if leb 1 p && ltb 1 a
    then p - 1
    else if leb 2 p && ltb 2 b
    then p - 2
    else if leb 3 p && ltb 3 c
    then p - 3
    else p

trim_from-widths :
    (m : Bytes) (p : ℕ)
    → ((j : ℕ) → j < p → byte_at m j < 256)
    → 0 < p
    → trim_from m p
      ≡ widths p
          (lead_width (byte_at m (p - 1)))
          (lead_width (byte_at m (p - 2)))
          (lead_width (byte_at m (p - 3)))
unfolding trim_from
trim_from-widths m p small pos = rw (
  open_one (byte_at m (p - 1)) (small (p - 1) (omega arith)),
  open_two (byte_at m (p - 2)) (small (p - 2) (omega arith)),
  open_three (byte_at m (p - 3)) (small (p - 3) (omega arith)),
)

continuation_width : (b : ℕ) → (128 ≤ b) × (b < 192) → lead_width b ≡ 1
continuation_width b h = ground arith

closed :
    (p k a b c : ℕ)
    → p ≡ k
    → p - 1 + a ≤ k
    → (2 ≤ p → p - 2 + b ≤ k)
    → (3 ≤ p → p - 3 + c ≤ k)
    → widths p a b c ≡ k
closed p k a b c e one two three = ground arith

-- The three ways to end inside a code point.
open_after :
    (p k a b c : ℕ)
    → ((p ≡ k + 1) × (1 < a))
      ⊎ ((p ≡ k + 2) × (a ≡ 1) × (2 < b) ⊎ (p ≡ k + 3) × (a ≡ 1) × (b ≡ 1) × (3 < c))
    → widths p a b c ≡ k
open_after p k a b c h = ground arith

-- In every case the widths show where the whole code points end.
widths_cut :
    (t : Bytes) (p k shown : ℕ)
    → CutBytes t k shown
    → length t ≡ p
    → 0 < p
    → shown < 4
    → widths p
        (lead_width (byte_at t (p - 1)))
        (lead_width (byte_at t (p - 2)))
        (lead_width (byte_at t (p - 3)))
      ≡ k
widths_cut t p k zero c e pos few =
    let total : p ≡ k = omega (arith, c.total) in
    let one = c.inside (p - 1) (omega arith) in
    let two : 2 ≤ p → p - 2 + lead_width (byte_at t (p - 2)) ≤ k =
      λ h. c.inside (p - 2) (omega arith) in
    let three : 3 ≤ p → p - 3 + lead_width (byte_at t (p - 3)) ≤ k =
      λ h. c.inside (p - 3) (omega arith) in
    closed p k (lead_width (byte_at t (p - 1))) (lead_width (byte_at t (p - 2)))
      (lead_width (byte_at t (p - 3))) total one two three
widths_cut t p k (suc zero) c e pos few =
    let last : p - 1 ≡ k = omega (arith, c.total) in
    open_after p k (lead_width (byte_at t (p - 1))) (lead_width (byte_at t (p - 2)))
      (lead_width (byte_at t (p - 3)))
      (inl (omega (arith, c.total), rw last (c.lead (omega arith))))
widths_cut t p k (suc (suc zero)) c e pos few =
    let last : p - 1 ≡ k + 1 = omega (arith, c.total) in
    let before : p - 2 ≡ k = omega (arith, c.total) in
    open_after p k (lead_width (byte_at t (p - 1))) (lead_width (byte_at t (p - 2)))
      (lead_width (byte_at t (p - 3)))
      (inr (
        inl (
          omega (arith, c.total),
          rw last (continuation_width (byte_at t (k + 1)) (c.tail 1 (omega arith) (omega arith))),
          rw before (c.lead (omega arith)),
        )))
widths_cut t p k (suc (suc (suc zero))) c e pos few =
    let last : p - 1 ≡ k + 2 = omega (arith, c.total) in
    let before : p - 2 ≡ k + 1 = omega (arith, c.total) in
    let first : p - 3 ≡ k = omega (arith, c.total) in
    open_after p k (lead_width (byte_at t (p - 1))) (lead_width (byte_at t (p - 2)))
      (lead_width (byte_at t (p - 3)))
      (inr (
        inr (
          omega (arith, c.total),
          rw last (continuation_width (byte_at t (k + 2)) (c.tail 2 (omega arith) (omega arith))),
          rw before (continuation_width (byte_at t (k + 1)) (c.tail 1 (omega arith) (omega arith))),
          rw first (c.lead (omega arith)),
        )))
widths_cut t p k (suc (suc (suc (suc n)))) c e pos few = absurd (omega arith)

take-set_before : (k : ℕ) (xs : Bytes) (i v : ℕ) → k ≤ i → take k (set xs i v) ≡ take k xs
take-set_before zero xs i v h = refl
take-set_before (suc k) [] i v h = refl
take-set_before (suc k) (x ∷ xs) zero v h = absurd (omega arith)
take-set_before (suc k) (x ∷ xs) (suc i) v h = ap (◌∷◌ x) (take-set_before k xs i v (omega arith))

take-blit : (k : ℕ) (m : Bytes) (i : ℕ) (bs : Bytes) → k ≤ i → take k (blit m i bs) ≡ take k m
unfolding blit
take-blit k m i [] h = refl
take-blit k m i (b ∷ bs) h =
    take-blit k (set m i b) (i + 1) bs (omega arith) ∙ take-set_before k m i b h

length-zeros : (n : ℕ) → length (replicate {A = ℕ} n 0) ≡ n
length-zeros zero = refl
length-zeros (suc n) = ap suc (length-zeros n)

-- The text is cut at the end of its last whole code point, and zeros stand behind it.
pub record Trimmed (f : Formatter) (w : Bytes) (k : ℕ) (g : Formatter) : Type 0 where
  pub cut : CutsAt w f.position k
  pub kept : take k g.buffer ≡ take k w
  pub cleared : slice g.buffer k (f.position - k) ≡ replicate (f.position - k) 0
  pub length_kept : g.position ≡ f.position

trim_from-zero : (m : Bytes) (p k : ℕ) → p ≡ 0 → p ≡ k → trim_from m p ≡ k
unfolding trim_from
trim_from-zero m p k e same = rw e (sym e ∙ same)

trim_from_cut :
    (m w : Bytes) (p : ℕ)
    → WellFormed w
    → p ≤ length w
    → take p m ≡ take p w
    → CutsAt w p (trim_from m p)
trim_from_cut m w p wf h same =
    let c = take-Cut wf p h in
    let b = Cut-CutBytes c in
    let size : length (take p w) ≡ p = omega (arith, length-take p w) in
    let agree : (j : ℕ) → j < p → byte_at (take p w) j ≡ byte_at m j =
      λ j q. ap (λ t. byte_at t j) (sym same) ∙ byte_at-take p m j q in
    subst (CutsAt w p) (sym (at_end c b size agree)) (Cut-CutsAt w p h c)
  where
    at_end :
        (c : Cut (take p w))
        → CutBytes (take p w) (length c.whole) c.shown
        → length (take p w) ≡ p
        → ((j : ℕ) → j < p → byte_at (take p w) j ≡ byte_at m j)
        → trim_from m p ≡ length c.whole
    at_end c b size agree = elim (Bool-cases (ltb 0 p)) [
      | inr none_left ↦
          let nothing : p ≡ 0 = ground arith in
          trim_from-zero m p (length c.whole) nothing (omega (arith, b.total))
      | inl some_left ↦
          let pos = ltb→lt 0 p some_left in
          let shown_few : c.shown < 4 = omega (arith, c.not_all, length-encode-le c.broken) in
          let small : (j : ℕ) → j < p → byte_at m j < 256 =
            λ j q. rw (sym (agree j q), byte_at-take p w j q) (omega (arith, WellFormed-lt wf j)) in
          trim_from-widths m p small pos
          ∙ rw
              (
                sym (agree (p - 1) (omega arith)),
                sym (agree (p - 2) (omega arith)),
                sym (agree (p - 3) (omega arith)),
              )
              (widths_cut (take p w) p (length c.whole) c.shown b size pos shown_few)
    ]

-- A text that was cut inside a code point, as the formatter cuts a well-formed text that is too
-- long for it, ends at its last whole code point afterwards: what stands before it is untouched,
-- zeros stand behind it, no longer prefix is well-formed, and the recorded length stays.
pub as_formatted_buffer-Trimmed :
    (f : Formatter) (w : Bytes)
    → IsValid f
    → WellFormed w
    → f.position ≤ length w
    → text f ≡ take f.position w
    → Trimmed f w (trim_from f.buffer f.position) (as_formatted_buffer f)
unfolding as_formatted_buffer
as_formatted_buffer-Trimmed f w valid wf h same =
    let k = trim_from f.buffer f.position in
    let cut = trim_from_cut f.buffer w f.position wf h same in
    let zeros : Bytes = replicate (f.position - k) 0 in
    let count = length-zeros (f.position - k) in
    record {
      cut = cut;
      kept =
          take-blit k f.buffer k zeros (omega arith)
          ∙ sym (take-take k f.position f.buffer cut.within_limit)
          ∙ ap (take k) same
          ∙ take-take k f.position w cut.within_limit;
      cleared =
          subst (λ n. slice (blit f.buffer k zeros) k n ≡ zeros) count
            (slice-blit_self f.buffer k zeros
              (omega (arith, cut.within_limit, valid.storage, valid.inside)));
      length_kept = refl;
    }
