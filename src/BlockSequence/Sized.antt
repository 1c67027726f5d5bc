-- ===== src/BlockSequence/Sized.antt =====
-- The sizes that a sequence knows stay below a bound that the device keeps to.
use mathlib.Core.Bool.{false≢true}
use solid_syslog.Base.{ℕ, ◌≤◌, ◌≡◌, Bool, true, false, if_lem, not, ◌&&◌, Option, if◌then◌else◌}
use solid_syslog.BlockSequence.{
  BlockSequence, BlockStoreErrors, Ports, Pass, set_present, note_device_failure,
  start_reading_block, on_sequence, is_read_block_active_write, is_read_block_fully_drained,
  read_block_size_of, advance_past_disposed_read_block, dispose_block, dispose_read_block,
  dispose_read_block_if_drained, discard_oldest_block, dispose_failed, size_failed,
  acquire_empty_block, rotate_failed, notify_enabled, next_present_sequence,
}
use solid_syslog.BlockSequence.Sound.{notify-Keeps}

-- a size that the device gives is at most `bound`
pub record HasBound {W : Type 0} (ports : Ports W) (bound : ℕ) : Type 0 where
  pub size_fits :
      (block : ℕ) (w : W) → (ports.size block w).0.0 ≡ true → (ports.size block w).0.1 ≤ bound

module _ (bound top : ℕ) where
  -- what was written of the block that is written is at most `top`, the other sizes at most `bound`
  abbrev pub IsSized : BlockSequence → Type 0
  IsSized s =
      (s.max_block_size ≤ bound)
      × ((s.write_position ≤ top) × (s.read_block_size_known ≡ true → s.read_block_size ≤ bound))

  pub noted-IsSized :
      (operation : BlockStoreErrors) (s : BlockSequence)
      → IsSized s
      → IsSized (note_device_failure operation s)
  noted-IsSized operation s h =
      if_lem IsSized (not s.device_failed)
        (record s { device_failed = true; failed_operation = operation }) s (λ works. h)
        (λ failed. h)

  module _ {W : Type 0} (ports : Ports W) (has_bound : HasBound ports bound) where
    abbrev pub IsSizedPass : Pass W → Type 0
    IsSizedPass p = IsSized p.sequence

    pub notify-IsSized :
        (threshold : Option (W → ℕ × W)) (p : Pass W)
        → IsSizedPass p
        → IsSizedPass (notify_enabled ports threshold p)
    notify-IsSized threshold p h = notify-Keeps 0 ports IsSized threshold p h (λ b. h)

    pub read_block_size-IsSized :
        (p : Pass W) → IsSizedPass p → IsSizedPass (read_block_size_of ports p).1
    unfolding read_block_size_of
    read_block_size-IsSized p h =
        let self = p.sequence in
        let (got, w) = ports.size self.read_sequence p.world in
        let s1 = record self { read_block_size = got.1; read_block_size_known = got.0 } in
        let s2 = if not got.0 then note_device_failure size_failed s1 else s1 in
        let asked : (Bool × ℕ) × Pass W = (got, record { sequence = s2; world = w }) in
        let known : (Bool × ℕ) × Pass W = ((true, self.read_block_size), p) in
        let Fine : (Bool × ℕ) × Pass W → Type 0 = λ x. IsSizedPass x.1 in
        let sized : IsSized s1 = (h.0, (h.1.0, has_bound.size_fits self.read_sequence p.world)) in
        if_lem Fine (is_read_block_active_write self) ((true, self.write_position), p)
          (if self.read_block_size_known then known else asked) (λ active. h)
          (λ behind.
            if_lem Fine self.read_block_size_known known asked (λ remembered. h)
              (λ unknown.
                if_lem IsSized (not got.0) (note_device_failure size_failed s1) s1
                  (λ fails. noted-IsSized size_failed s1 sized) (λ works. sized)))

    dispose_block-IsSized :
        (block : ℕ) (p : Pass W) → IsSizedPass p → IsSizedPass (dispose_block ports block p).1
    dispose_block-IsSized block p h =
        let (disposed, w) = ports.dispose block p.world in
        let p1 : Pass W = record p { world = w } in
        if_lem IsSizedPass disposed (on_sequence (set_present block false) p1) p1 (λ gone. h)
          (λ stays. h)

    advance_past-IsSized :
        (p : Pass W) → IsSizedPass p → IsSizedPass (advance_past_disposed_read_block ports p)
    unfolding advance_past_disposed_read_block
    advance_past-IsSized p h =
        let next = next_present_sequence p.sequence.oldest_sequence p.sequence in
        let s = start_reading_block next (record p.sequence { oldest_sequence = next }) in
        notify-IsSized ports.get_capacity_threshold
          (record p { sequence = record s { at_capacity = false } })
          (h.0, (h.1.0, λ e. absurd (false≢true e)))

    pub dispose_read_block-IsSized :
        (p : Pass W) → IsSizedPass p → IsSizedPass (dispose_read_block ports p).1
    unfolding dispose_read_block
    dispose_read_block-IsSized p h =
        let d = dispose_block ports p.sequence.read_sequence p in
        let sized = dispose_block-IsSized p.sequence.read_sequence p h in
        if_lem IsSizedPass d.0 (advance_past_disposed_read_block ports d.1)
          (on_sequence (note_device_failure dispose_failed) d.1)
          (λ gone. advance_past-IsSized d.1 sized)
          (λ failed. noted-IsSized dispose_failed d.1.sequence sized)

    pub dispose_if_drained-IsSized :
        (p : Pass W) → IsSizedPass p → IsSizedPass (dispose_read_block_if_drained ports p).1
    unfolding dispose_read_block_if_drained
    dispose_if_drained-IsSized p h =
        let (got, p1) = read_block_size_of ports p in
        let disposed = dispose_read_block ports p1 in
        let sized = read_block_size-IsSized p h in
        let empty = got.0 && is_read_block_fully_drained got.1 p1.sequence in
        let Fine : Bool × Pass W → Type 0 = λ x. IsSizedPass x.1 in
        if_lem Fine (not (is_read_block_active_write p.sequence))
          (if empty then disposed else (false, p1)) (false, p)
          (λ behind.
            if_lem Fine empty disposed (false, p1) (λ yes. dispose_read_block-IsSized p1 sized)
              (λ no. sized))
          (λ active. h)

    pub discard_oldest-IsSized :
        (p : Pass W) → IsSizedPass p → IsSizedPass (discard_oldest_block ports p).1
    unfolding discard_oldest_block
    discard_oldest-IsSized p h =
        let d = dispose_block ports p.sequence.oldest_sequence p in
        let sized = dispose_block-IsSized p.sequence.oldest_sequence p h in
        let s = record d.1.sequence { evicted_unsent = true } in
        let next = next_present_sequence s.oldest_sequence s in
        let gone : Bool × Pass W = (
          true,
          record d.1 { sequence = start_reading_block next (record s { oldest_sequence = next }) },
        ) in
        if_lem (λ (x : Bool × Pass W). IsSizedPass x.1) d.0 gone
          (false, on_sequence (note_device_failure dispose_failed) d.1)
          (λ disposed. (sized.0, (sized.1.0, λ e. absurd (false≢true e))))
          (λ failed. noted-IsSized dispose_failed d.1.sequence sized)

    pub acquire_empty-IsSized :
        (block : ℕ) (p : Pass W) → IsSizedPass p → IsSizedPass (acquire_empty_block ports block p).1
    unfolding acquire_empty_block
    acquire_empty-IsSized block p h =
        let (stale, w) = ports.exists_block block p.world in
        let p1 : Pass W = record p { world = w } in
        let d = dispose_block ports block p1 in
        let sized = dispose_block-IsSized block p1 h in
        let noted = on_sequence (note_device_failure dispose_failed) d.1 in
        let x : Bool × Pass W =
          if stale then (d.0, if not d.0 then noted else d.1) else (true, p1) in
        let Fine : Bool × Pass W → Type 0 = λ y. IsSizedPass y.1 in
        let cleared : Fine x =
          if_lem Fine stale (d.0, if not d.0 then noted else d.1) (true, p1)
            (λ there.
              if_lem IsSizedPass (not d.0) noted d.1
                (λ failed. noted-IsSized dispose_failed d.1.sequence sized) (λ gone. sized))
            (λ absent. h) in
        let (acquired, v) = ports.acquire block x.1.world in
        let q : Pass W = record x.1 { world = v } in
        let a : Pass W = if acquired then on_sequence (set_present block true) q else q in
        let there : IsSizedPass a =
          if_lem IsSizedPass acquired (on_sequence (set_present block true) q) q (λ yes. cleared)
            (λ no. cleared) in
        if_lem Fine x.0
          (acquired, if not acquired then on_sequence (note_device_failure rotate_failed) a else a)
          (false, x.1)
          (λ ready.
            if_lem IsSizedPass (not acquired) (on_sequence (note_device_failure rotate_failed) a) a
              (λ failed. noted-IsSized rotate_failed a.sequence there) (λ fine. there))
          (λ failed. cleared)
