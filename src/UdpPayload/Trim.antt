-- ===== src/UdpPayload/Trim.antt =====
-- A message is cut at the end of its last whole code point.
use solid_syslog.Base.{
  ℕ, zero, suc, ◌+◌, ◌-◌, ◌≤◌, ◌<◌, ◌≡◌, sym, subst, ◌⊎◌, inl, inr, true, false, arith, length,
  take, Bytes, byte_at, length-take, Bool-cases, ltb, ltb→lt,
}
use solid_syslog.Utf8.{is_continuation_byte}
use solid_syslog.Utf8.Classes.{
  within, is_ascii_byte_range, is_continuation_byte_range, is_two_byte_lead_range,
  is_three_byte_lead_range,
}
use solid_syslog.Utf8.Scalar.{WellFormed}
use solid_syslog.Utf8.Boundary.{CutsAt, Cut-CutsAt}
use solid_syslog.Utf8.Cut.{
  byte_at-take, Continues, WellFormed-lt, WellFormed-head, lead_width, take-Cut, CutBytes,
  Cut-CutBytes,
}
use solid_syslog.UdpPayload.{
  walk_back, find_last_codepoint_start, expected_sequence_length, last_codepoint_extends_past_cut,
  trim_to_codepoint_boundary,
}

not-Continues :
    (b : ℕ)
    → is_continuation_byte b ≡ within 128 192 b
    → (¬ Continues b)
    → is_continuation_byte b ≡ false
not-Continues b e h = elim (Bool-cases (is_continuation_byte b)) [
  | inr out ↦ out
  | inl on ↦ absurd (h (ground arith, ground arith))
]

outside : (b : ℕ) → (¬ Continues b) → (b < 128) ⊎ (192 ≤ b)
outside b h = elim (Bool-cases (ltb b 128)) [
  | inl low ↦ inl (ltb→lt b 128 low)
  | inr high ↦ elim (Bool-cases (ltb b 192)) [
    | inl mid ↦ absurd (h (ground arith, ltb→lt b 192 mid))
    | inr lead ↦ inr (ground arith)
  ]
]

walk_back_ends :
    (w : Bytes) (i : ℕ)
    → WellFormed w
    → (walk_back w i ≤ i) × (¬ Continues (byte_at w (walk_back w i)))
unfolding walk_back
walk_back_ends w zero wf = (omega arith, WellFormed-head wf)
walk_back_ends w (suc i) wf =
    let range =
      is_continuation_byte_range (byte_at w (suc i)) (omega (arith, WellFormed-lt wf (suc i))) in
    let before = walk_back_ends w i wf in
    elim (Bool-cases (is_continuation_byte (byte_at w (suc i)))) [
      | inl on ↦ rw on (omega arith, before.1)
      | inr stop ↦ rw stop (omega arith, λ h. ground arith)
    ]

-- The walk comes back over the bytes that continue to the lead before them.
walk_back_to :
    (w : Bytes) (k i j : ℕ)
    → WellFormed w
    → k + i ≡ j
    → (¬ Continues (byte_at w k))
    → ((m : ℕ) → 0 < m → m ≤ i → Continues (byte_at w (k + m)))
    → walk_back w j ≡ k
unfolding walk_back
walk_back_to w k i zero wf e lead tail = omega arith
walk_back_to w k zero (suc j) wf e lead tail =
    let here : k ≡ suc j = omega arith in
    let range =
      is_continuation_byte_range (byte_at w (suc j)) (omega (arith, WellFormed-lt wf (suc j))) in
    let stop_here : ¬ Continues (byte_at w (suc j)) =
      subst (λ x. ¬ Continues (byte_at w x)) here lead in
    let stop : is_continuation_byte (byte_at w (suc j)) ≡ false =
      not-Continues (byte_at w (suc j)) range stop_here in
    rw stop (sym here)
walk_back_to w k (suc i) (suc j) wf e lead tail =
    let here : k + suc i ≡ suc j = e in
    let range =
      is_continuation_byte_range (byte_at w (suc j)) (omega (arith, WellFormed-lt wf (suc j))) in
    let on_here : Continues (byte_at w (suc j)) =
      subst (λ x. Continues (byte_at w x)) here (tail (suc i) (omega arith) (omega arith)) in
    let on : is_continuation_byte (byte_at w (suc j)) ≡ true = ground arith in
    rw on (walk_back_to w k i j wf (omega arith) lead (λ m p q. tail m p (omega arith)))

expected_sequence_length-lead :
    (b : ℕ) → b < 248 → (¬ Continues b) → expected_sequence_length b ≡ lead_width b
unfolding expected_sequence_length
expected_sequence_length-lead b h n =
    let out = outside b n in
    rw
      (
        is_ascii_byte_range b (omega arith),
        is_two_byte_lead_range b (omega arith),
        is_three_byte_lead_range b (omega arith),
      )
      (ground arith)

-- the cut of a well-formed text, in terms of the bytes of the whole text
trim_cut :
    (w : Bytes) (n k shown : ℕ)
    → WellFormed w
    → n ≤ length w
    → CutBytes (take n w) k shown
    → trim_to_codepoint_boundary w n ≡ k
unfolding trim_to_codepoint_boundary last_codepoint_extends_past_cut find_last_codepoint_start
trim_cut w n k zero wf h c =
    let total : n ≡ k = omega (arith, c.total, length-take n w) in
    let (small, lead) = walk_back_ends w (n - 1) wf in
    let s = walk_back w (n - 1) in
    let expected = expected_sequence_length-lead (byte_at w s) (WellFormed-lt wf s) lead in
    elim (Bool-cases (ltb 0 n)) [
      | inr nothing ↦ rw nothing total
      | inl something ↦
          let pos = ltb→lt 0 n something in
          let same = byte_at-take n w s (omega arith) in
          let inside = c.inside s (omega arith) in
          let fits : ltb n (s + expected_sequence_length (byte_at w s)) ≡ false =
            rw expected (ground (arith, rw same at inside)) in
          rw (something, fits) total
    ]
trim_cut w n k (suc shown) wf h c =
    let total : n ≡ k + suc shown = omega (arith, c.total, length-take n w) in
    let same = byte_at-take n w k (omega arith) in
    let long = rw same at (c.lead (omega arith)) in
    let lead : ¬ Continues (byte_at w k) = λ q. ground arith in
    let back =
      walk_back_to w k shown (n - 1) wf (omega arith) lead
        (λ m p q. rw (byte_at-take n w (k + m) (omega arith)) at (c.tail m p (omega arith))) in
    let expected = expected_sequence_length-lead (byte_at w k) (WellFormed-lt wf k) lead in
    let something : ltb 0 n ≡ true = ground arith in
    let past : ltb n (k + expected_sequence_length (byte_at w k)) ≡ true =
      rw expected (ground arith) in
    rw (something, back, past)

-- A well-formed text of which at most `n` bytes may be sent is cut at the end of its last whole
-- code point: what is kept is well-formed, it is the longest such prefix, and fewer than four
-- bytes less than `n`.
pub trim_to_codepoint_boundary-CutsAt :
    (w : Bytes) (n : ℕ) → WellFormed w → n ≤ length w → CutsAt w n (trim_to_codepoint_boundary w n)
trim_to_codepoint_boundary-CutsAt w n wf h =
    let c = take-Cut wf n h in
    subst (CutsAt w n) (sym (trim_cut w n (length c.whole) c.shown wf h (Cut-CutBytes c)))
      (Cut-CutsAt w n h c)
