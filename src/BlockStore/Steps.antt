-- ===== src/BlockStore/Steps.antt =====
-- The steps of a read of the store: past a record, a block, or the rest of one.
use mathlib.Core.Bool.{false≢true}
use solid_syslog.Base.{ℕ, ◌≡◌, sym, ◌∙◌, Bool, true, false, if_lem, not, [], if◌then◌else◌}
use solid_syslog.Base.{not-true, ◌==◌, ==_iff}
use solid_syslog.RecordStore.{forget_last_read, step_past_last_read, mark_last_read_as_sent}
use solid_syslog.BlockSequence.{
  BlockSequence, BlockStoreErrors, append_failed, mark_sent_failed, read_failed, size_failed,
  block_evicted, record_refused, record_rejected, record_corrupt, seal_failed, set_read_cursor,
  mark_write_block_corrupt, read_is_behind_write, leave_read_block, note_record_written,
  prepare_for_write, read_block_size_of, dispose_read_block_if_drained, note_device_failure,
}
use solid_syslog.BlockSequence.Sound.{
  IsSound, noted-IsSound, read_block_size-Keeps, dispose_read_block-IsSound,
}
use solid_syslog.RecordStore.{
  AppendResult, append_succeeded, append_seal_failed, append_device_failed, ReadResult, succeeded,
  end_of_data, corrupt, rejected, finished_with, could_not_open, device_failed, MarkResult,
  mark_succeeded, mark_nothing_read, mark_device_failed, record_size,
}
use solid_syslog.BlockStore.{
  StorePorts, StorePass, by_sequence, by_records, to_sequence, on_blocks, freeze_if_device_failed,
  report_loss, forget_read, read_next_block_if_behind, abandon_rest_of_read_block,
  step_past_current, step_past, read_current,
}
use solid_syslog.RecordStore
use solid_syslog.BlockSequence
use solid_syslog.BlockStore.Live.{
  Unfrozen, Works, Checked, checked, check_froze, Stepped, stepped, step_froze, IsRead, read_works,
  read_failing, freeze_if-Checked, report_loss-Keeps,
}

module _ {W : Type 0} (max max_message_size : ℕ) (ports : StorePorts W) where
  -- whether the block was left
  left-Stepped :
      {p : StorePass W} (x : Bool × StorePass W) → Checked max p x → Stepped max (not x.0, x.1)
  left-Stepped {p} x (checked h) = stepped true p h
  left-Stepped x (check_froze q h failed) = step_froze q h failed

  read_next_block-Stepped :
      (p : StorePass W)
      → Works max p
      → Stepped max (read_next_block_if_behind max_message_size ports p)
  unfolding read_next_block_if_behind forget_last_read
  read_next_block-Stepped p ((not_frozen, (sound, none_told)), works) =
      let left =
        forget_read max_message_size ports (to_sequence (leave_read_block ports.block_ports) p) in
      let x = freeze_if_device_failed max_message_size ports left in
      if_lem (Stepped max) (read_is_behind_write p.sequence) (not x.0, x.1) (false, p)
        (λ behind.
          let apart = λ (same : p.sequence.read_sequence ≡ p.sequence.write_sequence). absurd (
            false≢true (
              sym (not-true (p.sequence.read_sequence == p.sequence.write_sequence) behind)
              ∙ (==_iff p.sequence.read_sequence p.sequence.write_sequence).1 same)) in
          let still =
            dispose_read_block-IsSound max ports.block_ports
              (record { sequence = p.sequence; world = p.world }) sound.0 apart in
          left-Stepped x
            (freeze_if-Checked max max_message_size ports left (not_frozen, (still, none_told))))
        (λ writing. stepped false p ((not_frozen, (sound, none_told)), works))

  pub abandon-Stepped :
      (p : StorePass W)
      → Works max p
      → Stepped max (abandon_rest_of_read_block max_message_size ports p)
  unfolding abandon_rest_of_read_block
  abandon-Stepped p h =
      closes (read_next_block_if_behind max_message_size ports p) (read_next_block-Stepped p h)
    where
      closes :
          (x : Bool × StorePass W)
          → Stepped max x
          → let p2 = report_loss max_message_size ports record_corrupt x.1 in
            let closed =
              on_blocks (λ s. mark_write_block_corrupt (set_read_cursor s.write_position s)) p2 in
            Stepped max (
              x.0,
              if not x.1.sequence.device_failed then (if not x.0 then closed else p2) else x.1,
            )
      closes x (stepped b q h) =
          let p2 = report_loss max_message_size ports record_corrupt q in
          let closed =
            on_blocks (λ s. mark_write_block_corrupt (set_read_cursor s.write_position s)) p2 in
          let still =
            report_loss-Keeps max max_message_size ports (Works max) record_corrupt q h h in
          if_lem (λ r. Stepped max (b, r)) (not q.sequence.device_failed)
            (if not b then closed else p2) q
            (λ works.
              if_lem (λ r. Stepped max (b, r)) (not b) closed p2 (λ ends. stepped b closed still)
                (λ moved. stepped b p2 still))
            (λ fails. stepped b q h)
      closes x (step_froze q h failed) =
          let p2 = report_loss max_message_size ports record_corrupt q in
          let closed =
            on_blocks (λ s. mark_write_block_corrupt (set_read_cursor s.write_position s)) p2 in
          if_lem (λ r. Stepped max (false, r)) (not q.sequence.device_failed) closed q
            (λ works. absurd (false≢true (sym (not-true q.sequence.device_failed works) ∙ failed)))
            (λ fails. step_froze q h failed)

  step_past_current-Stepped :
      (p : StorePass W) → Works max p → Stepped max (step_past_current max_message_size ports p)
  unfolding step_past_current step_past_last_read
  step_past_current-Stepped p h = stepped true (step_past_current max_message_size ports p).1 h

  pub step_past-Stepped :
      (r : ReadResult) (p : StorePass W)
      → Works max p
      → Stepped max (step_past max_message_size ports r p)
  unfolding step_past
  step_past-Stepped rejected p h =
      step_past_current-Stepped (report_loss max_message_size ports record_rejected p)
        (report_loss-Keeps max max_message_size ports (Works max) record_rejected p h h)
  step_past-Stepped finished_with p h = step_past_current-Stepped p h
  step_past-Stepped end_of_data p h = read_next_block-Stepped p h
  step_past-Stepped corrupt p h = abandon-Stepped p h
  step_past-Stepped succeeded p h = stepped false p h
  step_past-Stepped could_not_open p h = stepped false p h
  step_past-Stepped device_failed p h = stepped false p h

  size_known-works :
      (p : StorePass W)
      → p.sequence.device_failed ≡ false
      → let x =
          read_block_size_of ports.block_ports
            (record { sequence = p.sequence; world = p.world }) in
        x.0.0 ≡ true → x.1.sequence.device_failed ≡ false
  unfolding read_block_size_of
  size_known-works p works =
      let (got, w) = ports.block_ports.size p.sequence.read_sequence p.world in
      let s1 = record p.sequence { read_block_size = got.1; read_block_size_known = got.0 } in
      let asked : (Bool × ℕ) × BlockSequence.Pass W = (
        got,
        record {
          sequence = if not got.0 then note_device_failure size_failed s1 else s1;
          world = w;
        },
      ) in
      let q : BlockSequence.Pass W = record { sequence = p.sequence; world = p.world } in
      let known : (Bool × ℕ) × BlockSequence.Pass W = ((true, p.sequence.read_block_size), q) in
      let Fine : (Bool × ℕ) × BlockSequence.Pass W → Type 0 =
        λ x. x.0.0 ≡ true → x.1.sequence.device_failed ≡ false in
      if_lem Fine (p.sequence.read_sequence == p.sequence.write_sequence)
        ((true, p.sequence.write_position), q)
        (if p.sequence.read_block_size_known then known else asked) (λ active e. works)
        (λ behind.
          if_lem Fine p.sequence.read_block_size_known known asked (λ remembered e. works)
            (λ unknown e. fails_not got.0 e))
    where
      fails_not :
          (b : Bool)
          → b ≡ true
          → (if not b
              then note_device_failure size_failed (record p.sequence {
                read_block_size = (ports.block_ports.size p.sequence.read_sequence p.world).0.1;
                read_block_size_known = b;
              })
              else record p.sequence {
                read_block_size = (ports.block_ports.size p.sequence.read_sequence p.world).0.1;
                read_block_size_known = b;
              }).device_failed
            ≡ false
      fails_not true e = works
      fails_not false e = absurd (false≢true e)

  -- A look at the size of the read block leaves a store that works, if the size is known.
  pub size_read-Works :
      (p : StorePass W)
      → Works max p
      → let sized = by_sequence (read_block_size_of ports.block_ports) p in
        Unfrozen max sized.1 × (sized.0.0 ≡ true → sized.1.sequence.device_failed ≡ false)
  size_read-Works p ((not_frozen, (sound, none_told)), works) = (
    (
      not_frozen,
      (
        read_block_size-Keeps max ports.block_ports (IsSound max)
            (record { sequence = p.sequence; world = p.world }) sound
            (λ size known.
              let t = record p.sequence { read_block_size = size; read_block_size_known = known } in
              (sound, noted-IsSound max size_failed t sound.0)),
        none_told,
      ),
    ),
    size_known-works p works,
  )

  pub read_current-IsRead :
      (max_size : ℕ) (p : StorePass W)
      → Works max p
      → IsRead max (read_current max_message_size ports max_size p)
  unfolding read_current
  read_current-IsRead max_size p h =
      let sized = by_sequence (read_block_size_of ports.block_ports) p in
      let r =
        by_records
          (RecordStore.read max_message_size ports.device ports.policy
            sized.1.sequence.read_sequence sized.1.sequence.read_cursor sized.0.1 max_size)
          sized.1 in
      let (still, works) = size_read-Works p h in
      if_lem (IsRead max) sized.0.0 r ((device_failed, []), sized.1)
        (λ known. read_works r.0 r.1 (still, works known))
        (λ unknown. read_failing [] sized.1 still)
