-- ===== src/BlockSequence/Room.antt =====
-- A block that is ready for a record has room for it, and the sizes that Open finds are bounded.
use mathlib.Core.Bool.{false≢true}
use solid_syslog.Base.{
  ℕ, zero, suc, ◌≤◌, ◌≡◌, refl, sym, ◌∙◌, Bool, true, false, if_lem, not, ◌&&◌, ◌||◌, ltb, leb,
  arith, add_size, Option, none, some, if◌then◌else◌,
}
use solid_syslog.BlockSequence.{
  Ports, Pass, set_present, note_device_failure, on_sequence, dispose_read_block_if_drained,
  discard_oldest_block, size_failed, acquire_empty_block, open_failed, next_sequence,
  advance_write_to_new_block, exceeds_max_blocks, rotate_to_next_block, store_is_full, ask_policy,
  keeps_old, block_count, block_is_full, notify_threshold_crossed, prepare_for_write,
  note_record_written, block_sequence_modulus,
}
use solid_syslog.BlockSequence.Resume.{
  presence_loop, found_blocks, resume_write, first_block, open_sequence, scan_for_existing_blocks,
}
use solid_syslog.BlockSequence.Sized.{
  HasBound, IsSized, noted-IsSized, notify-IsSized, dispose_if_drained-IsSized,
  discard_oldest-IsSized, acquire_empty-IsSized,
}

module _ {W : Type 0} (bound : ℕ) (ports : Ports W) (has_bound : HasBound ports bound) where
  abbrev pub Sized : Pass W → Type 0
  Sized p = IsSized bound bound p.sequence

  -- if there is space, it is for a record of this size
  abbrev pub HasRoom : ℕ → (Bool × Bool) × Pass W → Type 0
  HasRoom size x = Sized x.1 × (x.0.0 ≡ true → add_size x.1.sequence.write_position size ≤ bound)

  module _ (size : ℕ) (fits : size ≤ bound) where
    fresh-HasRoom :
        (b : Bool) (p : Pass W) → IsSized bound 0 p.sequence → HasRoom size ((true, b), p)
    fresh-HasRoom b p h = ((h.0, (omega (arith, h.1.0), h.1.1)), λ e. omega (arith, h.1.0, fits))

    rotate-HasRoom : (p : Pass W) → Sized p → HasRoom size (rotate_to_next_block ports p)
    unfolding rotate_to_next_block
    rotate-HasRoom p h =
        let next = next_sequence p.sequence.write_sequence in
        let (acquired, p1) = acquire_empty_block ports next p in
        let sized = acquire_empty-IsSized bound bound ports has_bound next p h in
        let s = advance_write_to_new_block next p1.sequence in
        let start : Pass W = record p1 { sequence = record s { evicted_unsent = false } } in
        let (drained, p2) = dispose_read_block_if_drained ports start in
        let (discarded, p3) = discard_oldest_block ports p2 in
        let sized2 =
          dispose_if_drained-IsSized bound 0 ports has_bound start
            (sized.0, (omega arith, sized.1.1)) in
        let sized3 = discard_oldest-IsSized bound 0 ports has_bound p2 sized2 in
        let over = not p2.sequence.device_failed && exceeds_max_blocks p2.sequence in
        if_lem (HasRoom size) acquired
          (if over then ((true, discarded || drained), p3) else ((true, drained), p2))
          ((false, false), p1)
          (λ ready.
            if_lem (HasRoom size) over ((true, discarded || drained), p3) ((true, drained), p2)
              (λ yes. fresh-HasRoom (discarded || drained) p3 sized3)
              (λ no. fresh-HasRoom drained p2 sized2))
          (λ failed. (sized, λ e. absurd (false≢true e)))

    pub prepare-HasRoom : (p : Pass W) → Sized p → HasRoom size (prepare_for_write ports size p)
    unfolding prepare_for_write store_is_full
    prepare-HasRoom p h =
        let x = store_is_full ports p in
        let (policy, w) = ask_policy ports ports.get_discard_policy p.world in
        let asked : Sized x.1 =
          if_lem (λ (y : Bool × Pass W). Sized y.1)
            (leb p.sequence.max_blocks (block_count p.sequence))
            (keeps_old ports policy, record p { world = w }) (false, p) (λ full. h) (λ room. h) in
        let at_capacity = on_sequence (λ s. record s { at_capacity = true }) x.1 in
        let refused = notify_threshold_crossed ports at_capacity in
        let still =
          notify-IsSized bound bound ports has_bound ports.get_capacity_threshold at_capacity
            asked in
        let rotated = rotate_to_next_block ports x.1 in
        if_lem (HasRoom size) (block_is_full size p.sequence)
          (if x.0 then ((false, false), refused) else rotated) ((true, false), p)
          (λ full.
            if_lem (HasRoom size) x.0 ((false, false), refused) rotated
              (λ store_full. (still, λ e. absurd (false≢true e)))
              (λ goes. rotate-HasRoom x.1 asked))
          (λ has_space. (
            h,
            λ e.
                fitting p.sequence.write_block_corrupt
                  (ltb p.sequence.max_block_size (add_size p.sequence.write_position size)) refl
                  has_space h.0,
          ))
      where
        fitting :
            (corrupt over : Bool)
            → ltb p.sequence.max_block_size (add_size p.sequence.write_position size) ≡ over
            → (corrupt || over) ≡ false
            → p.sequence.max_block_size ≤ bound
            → add_size p.sequence.write_position size ≤ bound
        fitting true over e f small = absurd (false≢true (sym f))
        fitting false over e f small =
            let below : ltb p.sequence.max_block_size (add_size p.sequence.write_position size)
                ≡ false =
              e ∙ f in
            ground arith

  pub note_record_written-Sized :
      (size : ℕ) (p : Pass W)
      → Sized p
      → add_size p.sequence.write_position size ≤ bound
      → Sized (note_record_written ports size p)
  unfolding note_record_written
  note_record_written-Sized size p h room =
      notify-IsSized bound bound ports has_bound ports.get_capacity_threshold
        (record p {
          sequence = record p.sequence {
            write_position = add_size p.sequence.write_position size;
            at_capacity = false;
          };
        })
        (h.0, (room, h.1.1))

  presence_loop-Sized :
      (rounds seq : ℕ) (last_present : Option ℕ) (p : Pass W)
      → Sized p
      → Sized (presence_loop ports rounds seq last_present p).1
  unfolding presence_loop
  presence_loop-Sized zero seq last_present p h = h
  presence_loop-Sized (suc rounds) seq last_present p h =
      let (present, w) = ports.exists_block seq p.world in
      presence_loop-Sized rounds (suc seq) (if present then some seq else last_present)
        (on_sequence (set_present seq present) (record p { world = w })) h

  found_blocks-Sized :
      (last_present : Option ℕ) (p : Pass W)
      → Sized p
      → Sized (found_blocks ports (last_present, p)).1
  unfolding found_blocks
  found_blocks-Sized none p h = h
  found_blocks-Sized (some last_present) p h = (h.0, (h.1.0, λ e. absurd (false≢true e)))

  resume_write-Sized :
      (p : Pass W) → Sized p → (resume_write ports p).0 ≡ true → Sized (resume_write ports p).1
  unfolding resume_write
  resume_write-Sized p h known =
      let (got, w) = ports.size p.sequence.write_sequence p.world in
      let s = record p.sequence { write_position = got.1 } in
      let sized : IsSized bound bound s =
        (h.0, (has_bound.size_fits p.sequence.write_sequence p.world known, h.1.1)) in
      if_lem (IsSized bound bound) (not got.0) (note_device_failure size_failed s) s
        (λ fails. noted-IsSized bound bound size_failed s sized) (λ works. sized)

  first_block-Sized : (p : Pass W) → Sized p → Sized (first_block ports p).1
  unfolding first_block
  first_block-Sized p h =
      let (acquired, w) = ports.acquire 0 p.world in
      let q : Pass W = record p { world = w } in
      let a : Pass W = if acquired then on_sequence (set_present 0 true) q else q in
      let sized : Sized a =
        if_lem Sized acquired (on_sequence (set_present 0 true) q) q (λ yes. h) (λ no. h) in
      if_lem Sized (not acquired) (on_sequence (note_device_failure open_failed) a) a
        (λ failed. noted-IsSized bound bound open_failed a.sequence sized) (λ fine. sized)

  -- What Open leaves, if it succeeds.
  pub open_sequence-Sized :
      (p : Pass W) → Sized p → (open_sequence ports p).0 ≡ true → Sized (open_sequence ports p).1
  unfolding open_sequence
  open_sequence-Sized p h ready =
      let scanned = presence_loop ports block_sequence_modulus 0 none p in
      let (found, p1) = scan_for_existing_blocks ports p in
      let sized =
        found_blocks-Sized scanned.0 scanned.1
          (presence_loop-Sized block_sequence_modulus 0 none p h) in
      let x : Bool × Pass W = if found then resume_write ports p1 else first_block ports p1 in
      let opened : Sized x.1 =
        if_lem (λ (y : Bool × Pass W). y.0 ≡ true → Sized y.1) found (resume_write ports p1)
          (first_block ports p1) (λ some_blocks. resume_write-Sized p1 sized)
          (λ none_there e. first_block-Sized p1 sized) ready in
      if_lem Sized x.0 (notify_threshold_crossed ports x.1) x.1
        (λ yes. notify-IsSized bound bound ports has_bound ports.get_capacity_threshold x.1 opened)
        (λ no. opened)
