-- ===== src/BlockSequence.antt =====
-- Core/Source/SolidSyslogBlockSequence.c: the blocks of a store, a run in a circle of 100 sequence
-- numbers, with the block that is written and the one that is read. The block device and the
-- callbacks of the configuration are the ports below, over a state of the world; a callback that the
-- configuration leaves NULL is `none`.
pub mod Resume
pub mod Distance
pub mod Sound
pub mod Sized
pub mod Room
pub mod Advances
pub mod Rotates
pub mod Found
pub mod Opened
pub mod Trace
mod Tests
use solid_syslog.Base.{
  ℕ, zero, suc, ◌+◌, ◌-◌, ◌*◌, ◌%◌, Bool, true, false, not, ◌&&◌, ◌||◌, ◌==◌, ltb, leb, Option,
  none, some, size_mod, add_size, if◌then◌else◌,
}
use solid_syslog.CircularBuffer.{DiscardPolicy, oldest, newest, halt}

-- the members of `enum SolidSyslogBlockStoreErrors` that are raised behind creation, less the one of
-- the threshold, whose report is a port, and its last one
pub data BlockStoreErrors : Type 0 where
  seal_failed open_failed append_failed rotate_failed dispose_failed : BlockStoreErrors
  mark_sent_failed read_failed size_failed record_rejected record_corrupt : BlockStoreErrors
  record_refused block_evicted error_max : BlockStoreErrors

pub record Ports (W : Type 0) : Type 0 where
  pub exists_block : ℕ → W → Bool × W
  pub acquire : ℕ → W → Bool × W
  pub dispose : ℕ → W → Bool × W
  -- whether the size is known, and what was put for it
  pub size : ℕ → W → (Bool × ℕ) × W
  pub get_discard_policy : Option (W → DiscardPolicy × W)
  pub get_capacity_threshold : Option (W → ℕ × W)
  pub on_threshold_crossed : Option (W → W)
  -- the report of a threshold that is crossed
  pub report : W → W

pub record BlockSequence : Type 0 where
  pub max_block_size : ℕ
  pub max_blocks : ℕ
  pub at_capacity : Bool
  pub threshold_crossed : Bool
  pub oldest_sequence : ℕ
  pub read_sequence : ℕ
  pub write_sequence : ℕ
  pub read_cursor : ℕ
  pub read_block_size : ℕ
  pub read_block_size_known : Bool
  pub write_position : ℕ
  pub write_block_corrupt : Bool
  pub device_failed : Bool
  pub evicted_unsent : Bool
  pub failed_operation : BlockStoreErrors
  -- the array of 100 flags
  pub block_present : ℕ → Bool

pub record Pass (W : Type 0) : Type 0 where
  pub sequence : BlockSequence
  pub world : W

abbrev pub block_sequence_modulus : ℕ
block_sequence_modulus = 100

abbrev pub min_max_blocks : ℕ
min_max_blocks = 2

abbrev pub max_max_blocks : ℕ
max_max_blocks = 98

abbrev pub next_sequence : ℕ → ℕ
next_sequence current = (current + 1) % block_sequence_modulus

abbrev pub block_count : BlockSequence → ℕ
block_count self =
    (self.write_sequence + block_sequence_modulus - self.oldest_sequence) % block_sequence_modulus
    + 1

abbrev pub clamp_to_range : ℕ → ℕ → ℕ → ℕ
clamp_to_range value low high =
    let raised = if ltb value low then low else value in if ltb high raised then high else raised

unfoldable pub initialise : ℕ → ℕ → BlockSequence
initialise max_block_size max_blocks = record {
  max_block_size = max_block_size;
  max_blocks = clamp_to_range max_blocks min_max_blocks max_max_blocks;
  at_capacity = false;
  threshold_crossed = false;
  oldest_sequence = 0;
  read_sequence = 0;
  write_sequence = 0;
  read_cursor = 0;
  read_block_size = 0;
  read_block_size_known = false;
  write_position = 0;
  write_block_corrupt = false;
  device_failed = false;
  evicted_unsent = false;
  failed_operation = error_max;
  block_present = λ i. false;
}

abbrev pub set_present : ℕ → Bool → BlockSequence → BlockSequence
set_present index present self = record self {
  block_present = λ i. if i == index then present else self.block_present i;
}

abbrev pub note_device_failure : BlockStoreErrors → BlockSequence → BlockSequence
note_device_failure operation self =
    if not self.device_failed
    then record self { device_failed = true; failed_operation = operation }
    else self

abbrev pub start_reading_block : ℕ → BlockSequence → BlockSequence
start_reading_block read_sequence self = record self {
  read_sequence = read_sequence;
  read_cursor = 0;
  read_block_size_known = false;
}

abbrev pub advance_write_to_new_block : ℕ → BlockSequence → BlockSequence
advance_write_to_new_block next self = record self {
  write_sequence = next;
  write_position = 0;
  write_block_corrupt = false;
}

abbrev pub block_is_full : ℕ → BlockSequence → Bool
block_is_full record_size self =
    self.write_block_corrupt || ltb self.max_block_size (add_size self.write_position record_size)

abbrev pub exceeds_max_blocks : BlockSequence → Bool
exceeds_max_blocks self = ltb self.max_blocks (block_count self)

abbrev pub read_is_behind_write : BlockSequence → Bool
read_is_behind_write self = not (self.read_sequence == self.write_sequence)

abbrev pub is_read_block_active_write : BlockSequence → Bool
is_read_block_active_write self = self.read_sequence == self.write_sequence

abbrev pub is_read_block_fully_drained : ℕ → BlockSequence → Bool
is_read_block_fully_drained read_block_size self = leb read_block_size self.read_cursor

abbrev pub has_unsent : BlockSequence → Bool
has_unsent self = read_is_behind_write self || ltb self.read_cursor self.write_position

abbrev pub total_bytes : BlockSequence → ℕ
total_bytes self = self.max_blocks * self.max_block_size % size_mod

abbrev pub used_bytes : BlockSequence → ℕ
used_bytes self =
    if self.at_capacity
    then total_bytes self
    else add_size ((block_count self - 1) * self.max_block_size) self.write_position

abbrev pub is_above_threshold : ℕ → BlockSequence → Bool
is_above_threshold threshold self = not (threshold == 0) && leb threshold (used_bytes self)

-- the loop of `NextPresentSequence`, which looks at the numbers behind `current`
unfoldable pub next_present_loop : ℕ → (ℕ → Bool) → ℕ → ℕ
next_present_loop zero present current = current
next_present_loop (suc fuel) present current =
    let next = next_sequence current in
    let rest = next_present_loop fuel present next in if present next then next else rest

unfoldable pub next_present_sequence : ℕ → BlockSequence → ℕ
next_present_sequence current self =
    next_present_loop block_sequence_modulus self.block_present current

abbrev pub set_read_cursor : ℕ → BlockSequence → BlockSequence
set_read_cursor cursor self = record self { read_cursor = cursor }

abbrev pub mark_write_block_corrupt : BlockSequence → BlockSequence
mark_write_block_corrupt self = record self { write_block_corrupt = true }

abbrev pub on_sequence : {W : Type 0} → (BlockSequence → BlockSequence) → Pass W → Pass W
on_sequence f p = record p { sequence = f p.sequence }

-- a callback that may be NULL
abbrev pub call_back : {W : Type 0} → Option (W → W) → W → W
call_back none w = w
call_back (some f) w = f w

module _ {W : Type 0} (ports : Ports W) where
  abbrev pub acquire_block : ℕ → Pass W → Bool × Pass W
  acquire_block block_index p =
      let (acquired, w) = ports.acquire block_index p.world in
      let p1 : Pass W = record p { world = w } in
      (acquired, if acquired then on_sequence (set_present block_index true) p1 else p1)

  abbrev pub dispose_block : ℕ → Pass W → Bool × Pass W
  dispose_block block_index p =
      let (disposed, w) = ports.dispose block_index p.world in
      let p1 : Pass W = record p { world = w } in
      (disposed, if disposed then on_sequence (set_present block_index false) p1 else p1)

  unfoldable pub notify_enabled : Option (W → ℕ × W) → Pass W → Pass W
  notify_enabled none p = p
  notify_enabled (some get_capacity_threshold) p =
      let (threshold, w) = get_capacity_threshold p.world in
      let p1 : Pass W = record p { world = w } in
      if not (is_above_threshold threshold p.sequence)
      then on_sequence (λ s. record s { threshold_crossed = false }) p1
      else if not p.sequence.threshold_crossed
      then record {
        sequence = record p.sequence { threshold_crossed = true };
        world = call_back ports.on_threshold_crossed (ports.report w);
      }
      else p1

  abbrev pub notify_threshold_crossed : Pass W → Pass W
  notify_threshold_crossed p = notify_enabled ports.get_capacity_threshold p

  -- the default policy is Oldest
  unfoldable pub ask_policy : Option (W → DiscardPolicy × W) → W → DiscardPolicy × W
  ask_policy none w = (oldest, w)
  ask_policy (some get_discard_policy) w = get_discard_policy w

  abbrev pub keeps_old : DiscardPolicy → Bool
  keeps_old oldest = false
  keeps_old newest = true
  keeps_old halt = true

  unfoldable pub store_is_full : Pass W → Bool × Pass W
  store_is_full p =
      let (policy, w) = ask_policy ports.get_discard_policy p.world in
      if leb p.sequence.max_blocks (block_count p.sequence)
      then (keeps_old policy, record p { world = w })
      else (false, p)

  unfoldable pub acquire_empty_block : ℕ → Pass W → Bool × Pass W
  acquire_empty_block block_index p =
      let (stale, w) = ports.exists_block block_index p.world in
      let p1 : Pass W = record p { world = w } in
      let d = dispose_block block_index p1 in
      let noted = on_sequence (note_device_failure dispose_failed) d.1 in
      let (ready, p2) : Bool × Pass W =
        if stale then (d.0, if not d.0 then noted else d.1) else (true, p1) in
      let a = acquire_block block_index p2 in
      if ready
      then (a.0, if not a.0 then on_sequence (note_device_failure rotate_failed) a.1 else a.1)
      else (false, p2)

  -- `size` of the read block: whether it is known, and what it is
  unfoldable pub read_block_size_of : Pass W → (Bool × ℕ) × Pass W
  read_block_size_of p =
      let self = p.sequence in
      let (got, w) = ports.size self.read_sequence p.world in
      let s1 = record self { read_block_size = got.1; read_block_size_known = got.0 } in
      let s2 = if not got.0 then note_device_failure size_failed s1 else s1 in
      if is_read_block_active_write self
      then ((true, self.write_position), p)
      else if self.read_block_size_known
      then ((true, self.read_block_size), p)
      else (got, record { sequence = s2; world = w })

  unfoldable pub advance_past_disposed_read_block : Pass W → Pass W
  advance_past_disposed_read_block p =
      let next = next_present_sequence p.sequence.oldest_sequence p.sequence in
      let s = start_reading_block next (record p.sequence { oldest_sequence = next }) in
      notify_threshold_crossed (record p { sequence = record s { at_capacity = false } })

  unfoldable pub dispose_read_block : Pass W → Bool × Pass W
  dispose_read_block p =
      let (disposed, p1) = dispose_block p.sequence.read_sequence p in
      (
        disposed,
        if disposed
            then advance_past_disposed_read_block p1
            else on_sequence (note_device_failure dispose_failed) p1,
      )

  abbrev pub leave_read_block : Pass W → Pass W
  leave_read_block p = (dispose_read_block p).1

  -- whether the read block changed
  unfoldable pub dispose_read_block_if_drained : Pass W → Bool × Pass W
  dispose_read_block_if_drained p =
      let (got, p1) = read_block_size_of p in
      let disposed = dispose_read_block p1 in
      if not (is_read_block_active_write p.sequence)
      then (if got.0 && is_read_block_fully_drained got.1 p1.sequence
          then disposed
          else (false, p1))
      else (false, p)

  unfoldable pub discard_oldest_block : Pass W → Bool × Pass W
  discard_oldest_block p =
      let (disposed, p1) = dispose_block p.sequence.oldest_sequence p in
      let s = record p1.sequence { evicted_unsent = true } in
      let next = next_present_sequence s.oldest_sequence s in
      if disposed
      then (
        true,
        record p1 { sequence = start_reading_block next (record s { oldest_sequence = next }) },
      )
      else (false, on_sequence (note_device_failure dispose_failed) p1)

  -- whether a block was acquired, and whether the read block changed
  unfoldable pub rotate_to_next_block : Pass W → (Bool × Bool) × Pass W
  rotate_to_next_block p =
      let next = next_sequence p.sequence.write_sequence in
      let (acquired, p1) = acquire_empty_block next p in
      let s = advance_write_to_new_block next p1.sequence in
      let (drained, p2) =
        dispose_read_block_if_drained
          (record p1 { sequence = record s { evicted_unsent = false } }) in
      let (discarded, p3) = discard_oldest_block p2 in
      if acquired
      then (if not p2.sequence.device_failed && exceeds_max_blocks p2.sequence
          then ((true, discarded || drained), p3)
          else ((true, drained), p2))
      else ((false, false), p1)

  -- whether there is space, and whether the read block changed
  unfoldable pub prepare_for_write : ℕ → Pass W → (Bool × Bool) × Pass W
  prepare_for_write record_size p =
      let (store_full, p1) = store_is_full p in
      let refused =
        notify_threshold_crossed (on_sequence (λ s. record s { at_capacity = true }) p1) in
      let rotated = rotate_to_next_block p1 in
      if block_is_full record_size p.sequence
      then (if store_full then ((false, false), refused) else rotated)
      else ((true, false), p)

  unfoldable pub note_record_written : ℕ → Pass W → Pass W
  note_record_written record_size p = notify_threshold_crossed (record p {
    sequence = record p.sequence {
      write_position = add_size p.sequence.write_position record_size;
      at_capacity = false;
    };
  })
