-- ===== src/BlockSequence/Trace.antt =====
-- Whole lives of a sequence of blocks: any operations of a store behind Initialise and Open.
use mathlib.Core.Bool.{false≢true}
use solid_syslog.Base.{
  ℕ, ◌≤◌, ◌<◌, ◌≡◌, refl, ap, sym, subst, ◌∙◌, Bool, true, false, if_lem, not-true, leb, add_size,
  ◌==◌, ==_iff, arith, List, [], ◌∷◌, if◌then◌else◌,
}
use solid_syslog.BlockSequence.{
  BlockSequence, Ports, Pass, initialise, clamp_to_range, block_count, set_read_cursor,
  mark_write_block_corrupt, size_failed, on_sequence, read_is_behind_write, read_block_size_of,
  leave_read_block, dispose_read_block_if_drained, prepare_for_write, note_record_written,
  store_is_full, block_is_full, rotate_to_next_block, notify_threshold_crossed, ask_policy,
  keeps_old,
}
use solid_syslog.BlockSequence.Resume.{open_sequence}
use solid_syslog.BlockSequence.Sound.{
  IsRun, IsSound, noted-IsSound, notify-IsSound, read_block_size-Keeps, dispose_if_drained-Keeps,
  dispose_read_block-IsSound,
}
use solid_syslog.BlockSequence.Rotates.{rotate-IsSound}
use solid_syslog.BlockSequence.Opened.{open_sequence-IsOpened}

-- what a store asks of its sequence
pub data Operation : Type 0 where
  prepares : ℕ → Operation
  notes_written : ℕ → Operation
  marks_corrupt : Operation
  sets_cursor : ℕ → Operation
  reads_size : Operation
  disposes_drained : Operation
  leaves : Operation

module _ {W : Type 0} (ports : Ports W) where
  -- A write is not prepared once the device failed, and the block that is written is not left.
  unfoldable pub act : Operation → Pass W → Pass W
  act (prepares record_size) p =
      let prepared = prepare_for_write ports record_size p in
      if p.sequence.device_failed then p else prepared.1
  act (notes_written record_size) p = note_record_written ports record_size p
  act marks_corrupt p = on_sequence mark_write_block_corrupt p
  act (sets_cursor cursor) p = on_sequence (set_read_cursor cursor) p
  act reads_size p = (read_block_size_of ports p).1
  act disposes_drained p = (dispose_read_block_if_drained ports p).1
  act leaves p =
      let left = leave_read_block ports p in if read_is_behind_write p.sequence then left else p

  unfoldable pub act_all : List Operation → Pass W → Pass W
  act_all [] p = p
  act_all (o ∷ os) p = act_all os (act o p)

  module _ (max : ℕ) (some_block : 0 < max) (low : max ≤ 98) where
    store_is_full-same : (p : Pass W) → (store_is_full ports p).1.sequence ≡ p.sequence
    unfolding store_is_full
    store_is_full-same p =
        let (policy, w) = ask_policy ports ports.get_discard_policy p.world in
        let asked : Bool × Pass W = (keeps_old ports policy, record p { world = w }) in
        if_lem (λ (x : Bool × Pass W). x.1.sequence ≡ p.sequence)
          (leb p.sequence.max_blocks (block_count p.sequence)) asked (false, p) (λ full. refl)
          (λ room. refl)

    pub prepare-IsSound :
        (record_size : ℕ) (p : Pass W)
        → IsSound max p.sequence
        → p.sequence.device_failed ≡ false
        → IsSound max (prepare_for_write ports record_size p).1.sequence
    unfolding prepare_for_write
    prepare-IsSound record_size p s works =
        let (store_full, p1) = store_is_full ports p in
        let refused =
          notify_threshold_crossed ports (on_sequence (λ t. record t { at_capacity = true }) p1) in
        let rotated = rotate_to_next_block ports p1 in
        let answer : (Bool × Bool) × Pass W =
          if store_full then ((false, false), refused) else rotated in
        let same = store_is_full-same p in
        let s1 : IsSound max p1.sequence = subst (IsSound max) (sym same) s in
        if_lem (λ (x : (Bool × Bool) × Pass W). IsSound max x.1.sequence)
          (block_is_full record_size p.sequence) answer ((true, false), p)
          (λ full.
            if_lem (λ (x : (Bool × Bool) × Pass W). IsSound max x.1.sequence) store_full
              ((false, false), refused) rotated
              (λ no_room.
                notify-IsSound max ports (on_sequence (λ t. record t { at_capacity = true }) p1) s1)
              (λ room.
                rotate-IsSound max ports p1 some_block low s1
                  (ap (λ (t : BlockSequence). t.device_failed) same ∙ works)))
          (λ fits. s)

    act-IsSound :
        (o : Operation) (p : Pass W) → IsSound max p.sequence → IsSound max (act o p).sequence
    unfolding act note_record_written
    act-IsSound (prepares record_size) p s =
        if_lem (λ (q : Pass W). IsSound max q.sequence) p.sequence.device_failed p
          (prepare_for_write ports record_size p).1 (λ failed. s)
          (λ works. prepare-IsSound record_size p s works)
    act-IsSound (notes_written record_size) p s =
        notify-IsSound max ports
          (record p {
            sequence = record p.sequence {
              write_position = add_size p.sequence.write_position record_size;
              at_capacity = false;
            };
          })
          s
    act-IsSound marks_corrupt p s = s
    act-IsSound (sets_cursor cursor) p s = s
    act-IsSound reads_size p s = read_block_size-Keeps max ports (IsSound max) p s (λ size known.
        let t = record p.sequence { read_block_size = size; read_block_size_known = known } in
        (s, noted-IsSound max size_failed t s.0))
    act-IsSound disposes_drained p s =
        dispose_if_drained-Keeps max ports (IsSound max) p s s.0 (λ size known. s) (λ t h. h)
    act-IsSound leaves p s =
        if_lem (λ (q : Pass W). IsSound max q.sequence) (read_is_behind_write p.sequence)
          (leave_read_block ports p) p
          (λ behind. dispose_read_block-IsSound max ports p s.0 (λ same. absurd (
            false≢true (
              sym (not-true (p.sequence.read_sequence == p.sequence.write_sequence) behind)
              ∙ (==_iff p.sequence.read_sequence p.sequence.write_sequence).1 same))))
          (λ writing. s)

    act_all-IsSound :
        (os : List Operation) (p : Pass W)
        → IsSound max p.sequence
        → IsSound max (act_all os p).sequence
    unfolding act_all
    act_all-IsSound [] p s = s
    act_all-IsSound (o ∷ os) p s = act_all-IsSound os (act o p) (act-IsSound o p s)

  -- Behind an Open that succeeds and finds no more blocks than are allowed, whatever the store asks
  -- for and the device answers, the oldest block is the one that is read, it and the one that is
  -- written are present, and there are no more blocks than allowed while the device works, and at
  -- most one more once it failed.
  pub sequence-IsSound :
      (max_block_size max_blocks : ℕ) (os : List Operation) (w : W)
      → let max = clamp_to_range max_blocks 2 98 in
        let o =
          open_sequence ports
            (record { sequence = initialise max_block_size max_blocks; world = w }) in
        o.0 ≡ true → block_count o.1.sequence ≤ max → IsSound max (act_all os o.1).sequence
  unfolding initialise
  sequence-IsSound max_block_size max_blocks os w ready few =
      let max = clamp_to_range max_blocks 2 98 in
      let p : Pass W = record { sequence = initialise max_block_size max_blocks; world = w } in
      let o = open_sequence ports p in
      let run : IsRun max o.1.sequence =
        (open_sequence-IsOpened max ports p refl (refl, (refl, (refl, refl))) ready).1 few in
      act_all-IsSound max (ground arith) (ground arith) os o.1 (run, λ works. few)
