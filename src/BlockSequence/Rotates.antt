-- ===== src/BlockSequence/Rotates.antt =====
-- That a rotation, and what else a store does with its sequence, keeps it sound.
use solid_syslog.Base.{
  ℕ, ◌≤◌, ◌<◌, ◌≡◌, ◌≢◌, refl, ◌∙◌, Bool, true, false, Bool-cases, inl, inr, if_lem, ◌||◌, ltb→lt,
  and_true, ◌&&◌, not, arith, if◌then◌else◌,
}
use solid_syslog.BlockSequence.{
  BlockSequence, Ports, Pass, block_count, set_present, note_device_failure, next_sequence,
  on_sequence, exceeds_max_blocks, dispose_read_block_if_drained, discard_oldest_block,
  dispose_failed, rotate_failed, acquire_block, acquire_empty_block, advance_write_to_new_block,
  rotate_to_next_block,
}
use solid_syslog.BlockSequence.Distance.{set_same, set_other}
use solid_syslog.BlockSequence.Sound.{
  IsRun, IsSound, noted-IsSound, dispose_if_drained-Keeps, discard_oldest_block-IsSound,
}

module _ {W : Type 0} (max : ℕ) (ports : Ports W) where
  -- The next block was acquired, and the run is as it was; or the device failed.
  data Acquired (first writing index : ℕ) : Bool × Pass W → Type 0 where
    acquired :
        (q : Pass W)
        → IsRun max q.sequence
        → q.sequence.oldest_sequence ≡ first
        → q.sequence.write_sequence ≡ writing
        → q.sequence.block_present index ≡ true
        → Acquired first writing index (true, q)
    not_acquired : (q : Pass W) → IsSound max q.sequence → Acquired first writing index (false, q)

  set_present-IsRun :
      (index : ℕ) (b : Bool) (s : BlockSequence)
      → IsRun max s
      → s.oldest_sequence ≢ index
      → s.write_sequence ≢ index
      → IsRun max (set_present index b s)
  set_present-IsRun index b s r first last = record {
    ceiling = r.ceiling;
    read_is_oldest = r.read_is_oldest;
    oldest_small = r.oldest_small;
    write_small = r.write_small;
    oldest_present =
        set_other s.oldest_sequence index b (s.block_present s.oldest_sequence) first
        ∙ r.oldest_present;
    write_present =
        set_other s.write_sequence index b (s.block_present s.write_sequence) last
        ∙ r.write_present;
    one_over = r.one_over;
  }

  -- the device is asked for the block, which it does not have
  acquire-Acquired :
      (index : ℕ) (p : Pass W)
      → IsRun max p.sequence
      → p.sequence.oldest_sequence ≢ index
      → p.sequence.write_sequence ≢ index
      → let a = acquire_block ports index p in
        Acquired p.sequence.oldest_sequence p.sequence.write_sequence index
          (a.0, if not a.0 then on_sequence (note_device_failure rotate_failed) a.1 else a.1)
  acquire-Acquired index p r first last =
      let (ok, w) = ports.acquire index p.world in
      elim (Bool-cases ok) [
        | inl got ↦ rw got (
            acquired (record { sequence = set_present index true p.sequence; world = w })
              (set_present-IsRun index true p.sequence r first last) refl refl
              (set_same index true (p.sequence.block_present index)))
        | inr failed ↦ rw failed (
            not_acquired
              (record { sequence = note_device_failure rotate_failed p.sequence; world = w })
              (noted-IsSound max rotate_failed p.sequence r))
      ]

  acquire_empty_block-Acquired :
      (index : ℕ) (p : Pass W)
      → IsRun max p.sequence
      → p.sequence.oldest_sequence ≢ index
      → p.sequence.write_sequence ≢ index
      → Acquired p.sequence.oldest_sequence p.sequence.write_sequence index
          (acquire_empty_block ports index p)
  unfolding acquire_empty_block
  acquire_empty_block-Acquired index p r first last =
      let s = p.sequence in
      let (stale, w) = ports.exists_block index p.world in
      let (ok, w1) = ports.dispose index w in
      elim (Bool-cases stale) [
        | inr fresh ↦ rw fresh (acquire-Acquired index (record p { world = w }) r first last)
        | inl there ↦ elim (Bool-cases ok) [
          | inl gone ↦
              rw (there, gone)
                (acquire-Acquired index
                  (record { sequence = set_present index false s; world = w1 })
                  (set_present-IsRun index false s r first last) first last)
          | inr stays ↦
              rw (there, stays)
                (not_acquired
                  (record { sequence = note_device_failure dispose_failed s; world = w1 })
                  (noted-IsSound max dispose_failed s r))
        ]
      ]

  -- The write goes on to the block that was acquired.
  advanced-IsRun :
      (s t : BlockSequence)
      → IsSound max s
      → s.device_failed ≡ false
      → max ≤ 98
      → IsRun max t
      → t.oldest_sequence ≡ s.oldest_sequence
      → t.write_sequence ≡ s.write_sequence
      → t.block_present (next_sequence s.write_sequence) ≡ true
      → IsRun max (advance_write_to_new_block (next_sequence s.write_sequence) t)
  advanced-IsRun s t sound works low r first last there =
      let within = sound.1 works in
      record {
        ceiling = r.ceiling;
        read_is_oldest = r.read_is_oldest;
        oldest_small = r.oldest_small;
        write_small = omega arith;
        oldest_present = r.oldest_present;
        write_present = there;
        one_over = omega (arith, within, first, last, r.oldest_small, r.write_small, low);
      }

  -- Behind the advance, the drained block goes, and the oldest if there is one too many.
  settled-IsSound :
      (p : Pass W)
      → 0 < max
      → IsRun max p.sequence
      → let d = dispose_read_block_if_drained ports p in
        let e = discard_oldest_block ports d.1 in
        let settled : (Bool × Bool) × Pass W =
          if not d.1.sequence.device_failed && exceeds_max_blocks d.1.sequence
          then ((true, e.0 || d.0), e.1)
          else ((true, d.0), d.1) in
        IsSound max settled.1.sequence
  settled-IsSound p some_block r =
      let d = dispose_read_block_if_drained ports p in
      let e = discard_oldest_block ports d.1 in
      let q = d.1.sequence in
      let still : IsRun max q =
        dispose_if_drained-Keeps max ports (IsRun max) p r r (λ size known. r) (λ s h. h.0) in
      let many = not q.device_failed && exceeds_max_blocks q in
      if_lem (λ (x : (Bool × Bool) × Pass W). IsSound max x.1.sequence) many
        ((true, e.0 || d.0), e.1) ((true, d.0), d.1)
        (λ too_many.
          let over =
            ltb→lt q.max_blocks (block_count q)
              (and_true (not q.device_failed) (exceeds_max_blocks q) too_many).1 in
          discard_oldest_block-IsSound max ports d.1 still (λ same.
            absurd (omega (arith, over, same, still.ceiling, still.oldest_small, some_block))))
        (λ enough. (still, λ works. fits q still.ceiling (rw works at enough)))
    where
      fits :
          (s : BlockSequence)
          → s.max_blocks ≡ max
          → exceeds_max_blocks s ≡ false
          → block_count s ≤ max
      fits s same e = ground (arith, same)

  pub rotate-IsSound :
      (p : Pass W)
      → 0 < max
      → max ≤ 98
      → IsSound max p.sequence
      → p.sequence.device_failed ≡ false
      → IsSound max (rotate_to_next_block ports p).1.sequence
  unfolding rotate_to_next_block
  rotate-IsSound p some_block low sound works =
      let s = p.sequence in
      let next = next_sequence s.write_sequence in
      let within = sound.1 works in
      goes_on (acquire_empty_block ports next p) (
        acquire_empty_block-Acquired next p sound.0
          (λ e. absurd (omega (arith, within, e, sound.0.oldest_small, sound.0.write_small, low)))
          (λ e. absurd (omega (arith, e, sound.0.write_small))))
    where
      goes_on :
          (a : Bool × Pass W)
          → Acquired p.sequence.oldest_sequence p.sequence.write_sequence
              (next_sequence p.sequence.write_sequence)
              a
          → let t =
              advance_write_to_new_block (next_sequence p.sequence.write_sequence) a.1.sequence in
            let d =
              dispose_read_block_if_drained ports
                (record a.1 { sequence = record t { evicted_unsent = false } }) in
            let e = discard_oldest_block ports d.1 in
            let settled : (Bool × Bool) × Pass W =
              if not d.1.sequence.device_failed && exceeds_max_blocks d.1.sequence
              then ((true, e.0 || d.0), e.1)
              else ((true, d.0), d.1) in
            let rotated : (Bool × Bool) × Pass W = if a.0 then settled else ((false, false), a.1) in
            IsSound max rotated.1.sequence
      goes_on a (not_acquired q h) = h
      goes_on a (acquired q r first last there) =
          let t = advance_write_to_new_block (next_sequence p.sequence.write_sequence) q.sequence in
          settled-IsSound (record q { sequence = record t { evicted_unsent = false } }) some_block
            (advanced-IsRun p.sequence q.sequence sound works low r first last there)
