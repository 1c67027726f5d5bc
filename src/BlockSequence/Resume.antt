-- ===== src/BlockSequence/Resume.antt =====
-- How Core/Source/SolidSyslogBlockSequence.c opens: the blocks that a device has are found.
use solid_syslog.Base.{
  ℕ, zero, suc, ◌+◌, ◌-◌, ◌%◌, Bool, true, false, not, ◌==◌, ltb, Option, none, some, if◌then◌else◌,
}
use solid_syslog.BlockSequence.{
  Pass, Ports, block_sequence_modulus, on_sequence, set_present, acquire_block, note_device_failure,
  notify_threshold_crossed, start_reading_block, open_failed, size_failed,
}

-- A run of absent sequence numbers: where it starts and how many it spans.
pub record Gap : Type 0 where
  pub start : ℕ
  pub span : ℕ

abbrev pub circular_next : ℕ → ℕ
circular_next index = (index + 1) % block_sequence_modulus

abbrev pub circular_prev : ℕ → ℕ
circular_prev index = (index + block_sequence_modulus - 1) % block_sequence_modulus

-- a walk round the circle: where it stands, the gap there and the largest one
pub record Walk : Type 0 where
  pub index : ℕ
  pub current : Gap
  pub largest : Gap

-- the gap with one more absent number
abbrev pub grown : ℕ → Gap → Gap
grown index gap = record { start = if gap.span == 0 then index else gap.start; span = gap.span + 1 }

unfoldable pub walk_step : (ℕ → Bool) → Walk → Walk
walk_step present walk =
    let index = circular_next walk.index in
    let gap = grown index walk.current in
    if present index
    then record walk { index = index; current = record walk.current { span = 0 } }
    else record {
      index = index;
      current = gap;
      largest = if ltb walk.largest.span gap.span then gap else walk.largest;
    }

unfoldable pub walk_loop : ℕ → (ℕ → Bool) → Walk → Walk
walk_loop zero present walk = walk
walk_loop (suc rounds) present walk = walk_loop rounds present (walk_step present walk)

-- the oldest and the newest number, which stay as they were where every block is present
unfoldable pub locate_run_boundaries : (ℕ → Bool) → ℕ → ℕ → ℕ → ℕ × ℕ
locate_run_boundaries present last_present oldest_number newest_number =
    let gap : Gap = record { start = 0; span = 0 } in
    let walk =
      walk_loop block_sequence_modulus present
        (record { index = last_present; current = gap; largest = gap }) in
    if ltb 0 walk.largest.span
    then (
      (walk.largest.start + walk.largest.span) % block_sequence_modulus,
      circular_prev walk.largest.start,
    )
    else (oldest_number, newest_number)

module _ {W : Type 0} (ports : Ports W) where
  -- from `seq` on; the last present number so far
  unfoldable pub presence_loop : ℕ → ℕ → Option ℕ → Pass W → Option ℕ × Pass W
  presence_loop zero seq last_present p = (last_present, p)
  presence_loop (suc rounds) seq last_present p =
      let (present, w) = ports.exists_block seq p.world in
      presence_loop rounds (suc seq) (if present then some seq else last_present)
        (on_sequence (set_present seq present) (record p { world = w }))

  abbrev pub scan_for_block_presence : Pass W → Option ℕ × Pass W
  scan_for_block_presence p = presence_loop block_sequence_modulus 0 none p

  -- whether blocks were found
  unfoldable pub found_blocks : Option ℕ × Pass W → Bool × Pass W
  found_blocks (none, p) = (false, p)
  found_blocks (some last_present, p) =
      let (oldest_number, newest_number) =
        locate_run_boundaries p.sequence.block_present last_present 0
          (block_sequence_modulus - 1) in
      let s =
        start_reading_block oldest_number (record p.sequence { oldest_sequence = oldest_number }) in
      (true, record p { sequence = record s { write_sequence = newest_number } })

  abbrev pub scan_for_existing_blocks : Pass W → Bool × Pass W
  scan_for_existing_blocks p = found_blocks (scan_for_block_presence p)

  -- the size of the block that is written on
  unfoldable pub resume_write : Pass W → Bool × Pass W
  resume_write p =
      let (got, w) = ports.size p.sequence.write_sequence p.world in
      let s = record p.sequence { write_position = got.1 } in
      (
        got.0,
        record { sequence = if not got.0 then note_device_failure size_failed s else s; world = w },
      )

  unfoldable pub first_block : Pass W → Bool × Pass W
  first_block p =
      let (ready, p1) = acquire_block ports 0 p in
      (ready, if not ready then on_sequence (note_device_failure open_failed) p1 else p1)

  unfoldable pub open_sequence : Pass W → Bool × Pass W
  open_sequence p =
      let (found, p1) = scan_for_existing_blocks p in
      let resumed = resume_write p1 in
      let first = first_block p1 in
      let (ready, p2) : Bool × Pass W = if found then resumed else first in
      (ready, if ready then notify_threshold_crossed ports p2 else p2)
