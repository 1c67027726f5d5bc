-- ===== src/BlockSequence/Opened.antt =====
-- That Open finds the run of the blocks that a device has, or starts one.
use solid_syslog.Base.{
  ℕ, zero, suc, ◌+◌, ◌≤◌, ◌<◌, ◌≡◌, refl, sym, subst, ◌∙◌, Bool, true, false, if_lem, arith, Option,
  none, some, if◌then◌else◌,
}
use solid_syslog.BlockSequence.{
  BlockSequence, Ports, Pass, block_count, set_present, on_sequence, notify_threshold_crossed,
  start_reading_block,
}
use solid_syslog.BlockSequence.Resume.{
  presence_loop, scan_for_block_presence, found_blocks, resume_write, first_block, open_sequence,
  locate_run_boundaries,
}
use solid_syslog.BlockSequence.Distance.{set_same, set_other}
use solid_syslog.BlockSequence.Sound.{IsRun, notify-Keeps}
use solid_syslog.BlockSequence.Found.{locate_run_boundaries-Ends}

module _ {W : Type 0} (max : ℕ) (ports : Ports W) where
  -- a device that did not fail, and a run, if it has not too many blocks
  abbrev pub IsOpened : BlockSequence → Type 0
  IsOpened s = (s.device_failed ≡ false) × (block_count s ≤ max → IsRun max s)

  -- a sequence as Initialise leaves it, but for what is present
  abbrev IsFresh : BlockSequence → Type 0
  IsFresh s =
      (s.device_failed ≡ false)
      × ((s.oldest_sequence ≡ 0) × ((s.read_sequence ≡ 0) × (s.write_sequence ≡ 0)))

  -- the blocks found so far
  data Scanned (seq : ℕ) : Option ℕ × Pass W → Type 0 where
    scanned_none :
        (p : Pass W) → p.sequence.max_blocks ≡ max → IsFresh p.sequence → Scanned seq (none, p)
    scanned_last :
        (last : ℕ) (p : Pass W)
        → p.sequence.max_blocks ≡ max
        → p.sequence.device_failed ≡ false
        → last < seq
        → p.sequence.block_present last ≡ true
        → Scanned seq (some last, p)

  seen-Scanned :
      (seq : ℕ) (present : Bool) (w : W) (x : Option ℕ × Pass W)
      → Scanned seq x
      → Scanned (suc seq) (
        if present then some seq else x.0,
        on_sequence (set_present seq present) (record x.1 { world = w }),
      )
  seen-Scanned seq true w x (scanned_none p e fresh) =
      scanned_last seq (record { sequence = set_present seq true p.sequence; world = w }) e fresh.0
        (omega arith) (set_same seq true (p.sequence.block_present seq))
  seen-Scanned seq true w x (scanned_last last p e works small there) =
      scanned_last seq (record { sequence = set_present seq true p.sequence; world = w }) e works
        (omega arith) (set_same seq true (p.sequence.block_present seq))
  seen-Scanned seq false w x (scanned_none p e fresh) =
      scanned_none (record { sequence = set_present seq false p.sequence; world = w }) e fresh
  seen-Scanned seq false w x (scanned_last last p e works small there) =
      scanned_last last (record { sequence = set_present seq false p.sequence; world = w }) e works
        (omega (arith, small))
        (set_other last seq false (p.sequence.block_present last)
            (λ same. absurd (omega (arith, small, same)))
          ∙ there)

  presence_loop-Scanned :
      (rounds seq : ℕ) (last : Option ℕ) (p : Pass W)
      → Scanned seq (last, p)
      → Scanned (rounds + seq) (presence_loop ports rounds seq last p)
  unfolding presence_loop
  presence_loop-Scanned zero seq last p h = subst (λ k. Scanned k (last, p)) (omega arith) h
  presence_loop-Scanned (suc rounds) seq last p h =
      let (present, w) = ports.exists_block seq p.world in
      let q : Pass W = on_sequence (set_present seq present) (record p { world = w }) in
      let now : Option ℕ = if present then some seq else last in
      subst (λ k. Scanned k (presence_loop ports rounds (suc seq) now q)) (omega arith)
        (presence_loop-Scanned rounds (suc seq) now q (seen-Scanned seq present w (last, p) h))

  -- a run, or a sequence that has none
  data Found : Bool × Pass W → Type 0 where
    has_none : (p : Pass W) → p.sequence.max_blocks ≡ max → IsFresh p.sequence → Found (false, p)
    has_run : (p : Pass W) → IsOpened p.sequence → Found (true, p)

  found_blocks-Found : (x : Option ℕ × Pass W) → Scanned 100 x → Found (found_blocks ports x)
  unfolding found_blocks
  found_blocks-Found x (scanned_none p e fresh) = has_none p e fresh
  found_blocks-Found x (scanned_last last p e works small there) =
      let ends = locate_run_boundaries-Ends p.sequence.block_present last small there in
      let r = locate_run_boundaries p.sequence.block_present last 0 99 in
      let s = start_reading_block r.0 (record p.sequence { oldest_sequence = r.0 }) in
      has_run (record p { sequence = record s { write_sequence = r.1 } })
        (
          works,
          λ few. record {
            ceiling = e;
            read_is_oldest = refl;
            oldest_small = ends.oldest_small;
            write_small = ends.newest_small;
            oldest_present = ends.oldest_present;
            write_present = ends.newest_present;
            one_over = omega (arith, few);
          },
        )

  resume_write-IsOpened :
      (p : Pass W)
      → IsOpened p.sequence
      → (resume_write ports p).0 ≡ true
      → IsOpened (resume_write ports p).1.sequence
  unfolding resume_write
  resume_write-IsOpened p h ready = rw ready h

  first_block-IsOpened :
      (p : Pass W)
      → p.sequence.max_blocks ≡ max
      → IsFresh p.sequence
      → (first_block ports p).0 ≡ true
      → IsOpened (first_block ports p).1.sequence
  unfolding first_block
  first_block-IsOpened p e (works, (first, (reading, writing))) ready = rw ready (
    works,
    λ few. record {
      ceiling = e;
      read_is_oldest = reading ∙ sym first;
      oldest_small = omega (arith, first);
      write_small = omega (arith, writing);
      oldest_present = rw first refl;
      write_present = rw writing refl;
      one_over = omega (arith, first, writing);
    },
  )

  ready-IsOpened :
      (x : Bool × Pass W)
      → Found x
      → let (ready, p2) : Bool × Pass W =
          if x.0 then resume_write ports x.1 else first_block ports x.1 in
        ready ≡ true → IsOpened p2.sequence
  ready-IsOpened x (has_none p e fresh) ready = first_block-IsOpened p e fresh ready
  ready-IsOpened x (has_run p h) ready = resume_write-IsOpened p h ready

  pub open_sequence-IsOpened :
      (p : Pass W)
      → p.sequence.max_blocks ≡ max
      → IsFresh p.sequence
      → (open_sequence ports p).0 ≡ true
      → IsOpened (open_sequence ports p).1.sequence
  unfolding open_sequence
  open_sequence-IsOpened p e fresh ready =
      let x = found_blocks ports (scan_for_block_presence ports p) in
      let r : Bool × Pass W = if x.0 then resume_write ports x.1 else first_block ports x.1 in
      let scanned =
        found_blocks-Found (scan_for_block_presence ports p)
          (presence_loop-Scanned 100 0 none p (scanned_none p e fresh)) in
      let opened : IsOpened r.1.sequence = ready-IsOpened x scanned ready in
      if_lem (λ (q : Pass W). IsOpened q.sequence) r.0 (notify_threshold_crossed ports r.1) r.1
        (λ yes.
          notify-Keeps max ports IsOpened ports.get_capacity_threshold r.1 opened (λ b. opened))
        (λ never. opened)
