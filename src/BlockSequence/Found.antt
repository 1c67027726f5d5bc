-- ===== src/BlockSequence/Found.antt =====
-- The walk round the circle of sequence numbers: the run that is found ends on blocks that are present.
use mathlib.Core.Bool.{false≢true}
use solid_syslog.Base.{
  ℕ, zero, suc, ◌+◌, ◌%◌, ◌≤◌, ◌<◌, ◌≡◌, refl, ap, ap₂, sym, subst, ◌∙◌, Bool, true, false,
  Bool-cases, inl, inr, if_lem, ltb, ltb→lt, ◌==◌, ==_iff, arith, if◌then◌else◌,
}
use solid_syslog.BlockSequence.Distance.{distance}
use solid_syslog.BlockSequence.Resume.{
  Gap, Walk, circular_next, circular_prev, grown, walk_step, walk_loop, locate_run_boundaries,
}

module _ (present : ℕ → Bool) where
  -- where the walk stands: on a block, or in a gap behind one
  data Current (index : ℕ) (gap : Gap) : Type 0 where
    on_block : gap.span ≡ 0 → present index ≡ true → Current index gap
    in_gap :
        0 < gap.span
        → present index ≡ false
        → present (circular_prev gap.start) ≡ true
        → (gap.start + gap.span) % 100 ≡ circular_next index
        → Current index gap

  -- the largest gap so far: none, one between two blocks, or the one where the walk stands
  data Largest (index : ℕ) (current largest : Gap) : Type 0 where
    none_missing : largest.span ≡ 0 → Largest index current largest
    between :
        present (circular_prev largest.start) ≡ true
        → present ((largest.start + largest.span) % 100) ≡ true
        → Largest index current largest
    still_here :
        0 < largest.span
        → largest.start ≡ current.start
        → largest.span ≡ current.span
        → Largest index current largest

  -- after so many steps from a block
  record Walked (from steps : ℕ) (w : Walk) : Type 0 where
    stands : w.index ≡ (from + steps) % 100
    current_gap : Current w.index w.current
    largest_gap : Largest w.index w.current w.largest
    all_there :
        w.largest.span ≡ 0 → (j : ℕ) → j < 100 → distance j w.index ≤ steps → present j ≡ true

  on_block-Walked :
      (from steps : ℕ) (w : Walk)
      → Walked from steps w
      → present (circular_next w.index) ≡ true
      → Walked from
          (suc steps)
          (record w { index = circular_next w.index; current = record w.current { span = 0 } })
  on_block-Walked from steps w h here = record {
    stands = omega (arith, h.stands);
    current_gap = on_block refl here;
    largest_gap = closed h.largest_gap h.current_gap;
    all_there = λ none_gone j small near. elim (Bool-cases (j == circular_next w.index)) [
      | inl same ↦ ap present ((==_iff j (circular_next w.index)).0 same) ∙ here
      | inr other ↦ h.all_there none_gone j small (ground (arith, h.stands))
    ];
  }
    where
      closed :
          Largest w.index w.current w.largest
          → Current w.index w.current
          → Largest (circular_next w.index) (record w.current { span = 0 }) w.largest
      closed (none_missing e) c = none_missing e
      closed (between b a) c = between b a
      closed (still_here some_gap start span) (on_block e p) =
          absurd (omega (arith, some_gap, span, e))
      closed (still_here some_gap start span) (in_gap pos absent before behind) =
          between (ap (λ k. present (circular_prev k)) start ∙ before)
            (ap present (ap₂ (λ a b. (a + b) % 100) start span ∙ behind) ∙ here)

  in_gap-Current :
      (index : ℕ) (gap : Gap)
      → index < 100
      → Current index gap
      → present (circular_next index) ≡ false
      → Current (circular_next index) (grown (circular_next index) gap)
  in_gap-Current index gap small (on_block e p) absent =
      rw e (in_gap (omega arith) absent (ap present (omega (arith, small)) ∙ p) refl)
  in_gap-Current index gap small (in_gap pos gone before behind) absent =
      elim (Bool-cases (gap.span == 0)) [
        | inl empty ↦ absurd (omega (arith, pos, (==_iff gap.span 0).0 empty))
        | inr full ↦ rw full (in_gap (omega arith) absent before (omega (arith, behind)))
      ]

  in_gap-Walked :
      (from steps : ℕ) (w : Walk)
      → Walked from steps w
      → present (circular_next w.index) ≡ false
      → let gap = grown (circular_next w.index) w.current in
        Walked from (suc steps) (record {
          index = circular_next w.index;
          current = gap;
          largest = if ltb w.largest.span gap.span then gap else w.largest;
        })
  in_gap-Walked from steps w h absent =
      let gap = grown (circular_next w.index) w.current in
      let c = in_gap-Current w.index w.current (omega (arith, h.stands)) h.current_gap absent in
      elim (Bool-cases (ltb w.largest.span gap.span)) [
        | inl larger ↦ rw larger (record {
          stands = omega (arith, h.stands);
          current_gap = c;
          largest_gap = still_here (omega arith) refl refl;
          all_there = λ none_gone. absurd (omega (arith, none_gone));
        })
        | inr smaller ↦ rw smaller (record {
          stands = omega (arith, h.stands);
          current_gap = c;
          largest_gap = stays (ground arith) h.largest_gap;
          all_there = λ none_gone. absurd (ground (arith, none_gone));
        })
      ]
    where
      stays :
          w.current.span < w.largest.span
          → Largest w.index w.current w.largest
          → Largest (circular_next w.index) (grown (circular_next w.index) w.current) w.largest
      stays less (none_missing e) = absurd (omega (arith, less, e))
      stays less (between b a) = between b a
      stays less (still_here some_gap start span) = absurd (omega (arith, less, span))

  walk_loop-Walked :
      (rounds from steps : ℕ) (w : Walk)
      → Walked from steps w
      → Walked from (rounds + steps) (walk_loop rounds present w)
  unfolding walk_loop walk_step
  walk_loop-Walked zero from steps w h = subst (λ k. Walked from k w) (omega arith) h
  walk_loop-Walked (suc rounds) from steps w h =
      let next = walk_step present w in
      subst (λ k. Walked from k (walk_loop rounds present next)) (omega arith)
        (walk_loop-Walked rounds from (suc steps) next
          (elim (Bool-cases (present (circular_next w.index))) [
            | inl here ↦ rw here (on_block-Walked from steps w h here)
            | inr gone ↦ rw gone (in_gap-Walked from steps w h gone)
          ]))

  -- the two ends of a run
  pub record Ends (r : ℕ × ℕ) : Type 0 where
    pub oldest_small : r.0 < 100
    pub newest_small : r.1 < 100
    pub oldest_present : present r.0 ≡ true
    pub newest_present : present r.1 ≡ true

  pub locate_run_boundaries-Ends :
      (last : ℕ) → last < 100 → present last ≡ true → Ends (locate_run_boundaries present last 0 99)
  unfolding locate_run_boundaries
  locate_run_boundaries-Ends last small there =
      let gap : Gap = record { start = 0; span = 0 } in
      let begin : Walk = record { index = last; current = gap; largest = gap } in
      let w = walk_loop 100 present begin in
      let h = walk_loop-Walked 100 last 0 begin (record {
        stands = omega (arith, small);
        current_gap = on_block refl there;
        largest_gap = none_missing refl;
        all_there = λ none_gone j j_small near. ap present (omega arith) ∙ there;
      }) in
      if_lem Ends (ltb 0 w.largest.span)
        ((w.largest.start + w.largest.span) % 100, circular_prev w.largest.start) (0, 99)
        (λ missing. outside w h (ltb→lt 0 w.largest.span missing) h.largest_gap h.current_gap)
        (λ none_gone.
          let complete : w.largest.span ≡ 0 = ground arith in
          record {
            oldest_small = omega arith;
            newest_small = omega arith;
            oldest_present = h.all_there complete 0 (omega arith) (omega arith);
            newest_present = h.all_there complete 99 (omega arith) (omega arith);
          })
    where
      outside :
          (w : Walk)
          → Walked last 100 w
          → 0 < w.largest.span
          → Largest w.index w.current w.largest
          → Current w.index w.current
          → Ends ((w.largest.start + w.largest.span) % 100, circular_prev w.largest.start)
      outside w h some_gap (none_missing e) c = absurd (omega (arith, some_gap, e))
      outside w h some_gap (between before behind) c = record {
        oldest_small = omega arith;
        newest_small = omega arith;
        oldest_present = behind;
        newest_present = before;
      }
      outside w h some_gap (still_here pos start span) (on_block e p) =
          absurd (omega (arith, pos, span, e))
      outside w h some_gap (still_here pos start span) (in_gap pos2 gone before behind) =
          absurd (false≢true (sym gone ∙ ap present (h.stands ∙ omega (arith, small)) ∙ there))
