-- ===== src/BlockStore/Sized.antt =====
-- The sizes that a store knows stay below a bound that the device keeps to, whatever is asked of it.
use solid_syslog.Base.{
  ℕ, zero, suc, ◌+◌, ◌%◌, ◌^◌, ◌≤◌, ◌≡◌, refl, sym, Bool, true, false, if_lem, not, ◌&&◌, ltb, [],
  Bytes, arith, length, add_size, if◌then◌else◌,
}
use solid_syslog.Senders.{severity_error, severity_warning}
use solid_syslog.Service.{StoreWriteResult, not_retained}
use solid_syslog.RecordStore.{
  ReadResult, succeeded, end_of_data, corrupt, rejected, finished_with, could_not_open,
  device_failed, AppendResult, append_succeeded, append_seal_failed, append_device_failed,
  MarkResult, mark_succeeded, mark_nothing_read, mark_device_failed, ScanResult, scan_clean,
  scan_corrupt, scan_device_failed, record_size, forget_last_read, step_past_last_read,
  mark_last_read_as_sent,
}
use solid_syslog.BlockSequence.{
  BlockSequence, read_failed, record_rejected, record_corrupt, record_refused, seal_failed,
  block_evicted, set_read_cursor, mark_write_block_corrupt, read_is_behind_write, leave_read_block,
  has_unsent, prepare_for_write, read_block_size_of, dispose_read_block_if_drained,
}
use solid_syslog.BlockSequence.Sized.{
  HasBound, IsSized, dispose_read_block-IsSized, dispose_if_drained-IsSized,
  read_block_size-IsSized,
}
use solid_syslog.BlockSequence.Room.{prepare-HasRoom, note_record_written-Sized}
use solid_syslog.BlockStore.{
  StorePorts, StorePass, by_sequence, by_records, to_sequence, on_blocks, on_store, report, freeze,
  freeze_if_device_failed, report_refusal, report_eviction, report_seal_failed, report_loss,
  judge_append, store_record, forget_read, read_next_block_if_behind, abandon_rest_of_read_block,
  step_past_current, step_past, read_current, read_loop, judge_read, read_next_unsent, judge_mark,
  mark_sent, is_read_succeeded, is_read_failed, store_records_lost, store_write_failed,
}
use solid_syslog.BlockStore.Live.{report_loss-Keeps}
use solid_syslog.RecordStore

module _ {W : Type 0} (max_message_size bound : ℕ) (ports : StorePorts W)
    (has_bound : HasBound ports.block_ports bound)
    (wide : 65540 + ports.policy.trailer_size ≤ bound) where
  abbrev pub Sized : StorePass W → Type 0
  Sized p = IsSized bound bound p.sequence

  -- of an operation that answers something
  abbrev pub SizedBy : {A : Type 0} → A × StorePass W → Type 0
  SizedBy x = Sized x.1

  -- the sequence is not changed
  freeze_if-Keeps :
      (P : BlockSequence → Type 0) (p : StorePass W)
      → P p.sequence
      → P (freeze_if_device_failed max_message_size ports p).1.sequence
  unfolding freeze_if_device_failed freeze
  freeze_if-Keeps P p h =
      if_lem (λ (q : StorePass W). P q.sequence) p.sequence.device_failed
        (freeze max_message_size ports p.sequence.failed_operation p) p (λ failed. h) (λ fine. h)

  freeze_if-Sized :
      (p : StorePass W) → Sized p → SizedBy (freeze_if_device_failed max_message_size ports p)
  freeze_if-Sized p h = freeze_if-Keeps (IsSized bound bound) p h

  report_eviction-Keeps :
      (P : BlockSequence → Type 0) (p : StorePass W)
      → P p.sequence
      → P (report_eviction max_message_size ports p).sequence
  unfolding report_eviction
  report_eviction-Keeps P p h =
      let Fine : StorePass W → Type 0 = λ q. P q.sequence in
      let told : StorePass W =
        on_store (λ s. record s { eviction_reported = true })
          (report max_message_size ports severity_warning store_records_lost block_evicted p) in
      if_lem Fine (not p.sequence.evicted_unsent)
        (on_store (λ s. record s { eviction_reported = false }) p)
        (if not p.block_store.eviction_reported then told else p) (λ none_lost. h)
        (λ some_lost.
          if_lem Fine (not p.block_store.eviction_reported) told p (λ first. h) (λ again. h))

  judge_append-Sized :
      (r : AppendResult) (size : ℕ) (p : StorePass W)
      → Sized p
      → add_size p.sequence.write_position size ≤ bound
      → SizedBy (judge_append max_message_size ports r size p)
  unfolding judge_append report_seal_failed freeze
  judge_append-Sized append_succeeded size p h room =
      note_record_written-Sized bound ports.block_ports has_bound size
        (record { sequence = p.sequence; world = p.world }) h room
  judge_append-Sized append_device_failed size p h room = h
  judge_append-Sized append_seal_failed size p h room =
      if_lem Sized (not p.block_store.seal_failure_reported)
        (on_store (λ s. record s { seal_failure_reported = true })
          (report max_message_size ports severity_error store_write_failed seal_failed p))
        p (λ first. h) (λ again. h)

  pub store_record-Sized :
      (message : Bytes) (p : StorePass W)
      → Sized p
      → SizedBy (store_record max_message_size ports message p)
  unfolding store_record report_refusal forget_last_read
  store_record-Sized message p h =
      let size = record_size max_message_size ports.device ports.policy (length message % 2 ^ 16) in
      let prepared = by_sequence (prepare_for_write ports.block_ports size) p in
      let x = freeze_if_device_failed max_message_size ports prepared.1 in
      let p3 = report_eviction max_message_size ports x.1 in
      let forgotten : StorePass W =
        if prepared.0.1 then forget_read max_message_size ports p3 else p3 in
      let a =
        by_records
          (RecordStore.append max_message_size ports.device ports.policy
            forgotten.sequence.write_sequence message)
          forgotten in
      let refused : StoreWriteResult × StorePass W =
        (not_retained, report_refusal max_message_size ports x.1) in
      let appended = judge_append max_message_size ports a.0 size a.1 in
      let Roomy : BlockSequence → Type 0 = λ s.
        IsSized bound bound s × (prepared.0.0 ≡ true → add_size s.write_position size ≤ bound) in
      let roomy : Roomy prepared.1.sequence =
        prepare-HasRoom bound ports.block_ports has_bound size (omega (arith, wide))
          (record { sequence = p.sequence; world = p.world }) h in
      let looked : Roomy x.1.sequence = freeze_if-Keeps Roomy prepared.1 roomy in
      let ready : Roomy forgotten.sequence =
        if_lem (λ (q : StorePass W). Roomy q.sequence) prepared.0.1
          (forget_read max_message_size ports p3) p3
          (λ changed. report_eviction-Keeps Roomy x.1 looked)
          (λ same. report_eviction-Keeps Roomy x.1 looked) in
      let Fine : StoreWriteResult × StorePass W → Type 0 = λ y. SizedBy y in
      if_lem Fine x.0 (not_retained, x.1) (if not prepared.0.0 then refused else appended)
        (λ frozen. looked.0)
        (λ works.
          if_lem Fine (not prepared.0.0) refused appended
            (λ no_room.
              if_lem Sized (not x.1.block_store.refusal_reported)
                (on_store (λ s. record s { refusal_reported = true })
                  (report max_message_size ports severity_warning store_records_lost record_refused
                    x.1))
                x.1 (λ first. looked.0) (λ again. looked.0))
            (λ room.
              judge_append-Sized a.0 size a.1 ready.0 (ready.1 (was_true prepared.0.0 room))))
    where
      was_true : (b : Bool) → not b ≡ false → b ≡ true
      was_true true e = refl
      was_true false e = sym e

  read_next_block-Sized :
      (p : StorePass W) → Sized p → SizedBy (read_next_block_if_behind max_message_size ports p)
  unfolding read_next_block_if_behind forget_last_read
  read_next_block-Sized p h =
      let left =
        forget_read max_message_size ports (to_sequence (leave_read_block ports.block_ports) p) in
      let x = freeze_if_device_failed max_message_size ports left in
      let still =
        dispose_read_block-IsSized bound bound ports.block_ports has_bound
          (record { sequence = p.sequence; world = p.world }) h in
      if_lem (λ (y : Bool × StorePass W). SizedBy y) (read_is_behind_write p.sequence)
        (not x.0, x.1) (false, p) (λ behind. freeze_if-Sized left still) (λ writing. h)

  pub abandon-Sized :
      (p : StorePass W) → Sized p → SizedBy (abandon_rest_of_read_block max_message_size ports p)
  unfolding abandon_rest_of_read_block
  abandon-Sized p h =
      let x = read_next_block_if_behind max_message_size ports p in
      let p2 = report_loss max_message_size ports record_corrupt x.1 in
      let closed =
        on_blocks (λ s. mark_write_block_corrupt (set_read_cursor s.write_position s)) p2 in
      let left = read_next_block-Sized p h in
      let told = report_loss-Keeps 0 max_message_size ports Sized record_corrupt x.1 left left in
      if_lem Sized (not x.1.sequence.device_failed) (if not x.0 then closed else p2) x.1
        (λ works. if_lem Sized (not x.0) closed p2 (λ stays. told) (λ goes. told)) (λ fails. left)

  step_past_current-Sized :
      (p : StorePass W) → Sized p → SizedBy (step_past_current max_message_size ports p)
  unfolding step_past_current step_past_last_read
  step_past_current-Sized p h = h

  step_past-Sized :
      (r : ReadResult) (p : StorePass W) → Sized p → SizedBy (step_past max_message_size ports r p)
  unfolding step_past
  step_past-Sized rejected p h =
      step_past_current-Sized (report_loss max_message_size ports record_rejected p)
        (report_loss-Keeps 0 max_message_size ports Sized record_rejected p h h)
  step_past-Sized finished_with p h = step_past_current-Sized p h
  step_past-Sized end_of_data p h = read_next_block-Sized p h
  step_past-Sized corrupt p h = abandon-Sized p h
  step_past-Sized succeeded p h = h
  step_past-Sized could_not_open p h = h
  step_past-Sized device_failed p h = h

  read_current-Sized :
      (max_size : ℕ) (p : StorePass W)
      → Sized p
      → SizedBy (read_current max_message_size ports max_size p)
  unfolding read_current
  read_current-Sized max_size p h =
      let x = by_sequence (read_block_size_of ports.block_ports) p in
      let r =
        by_records
          (RecordStore.read max_message_size ports.device ports.policy x.1.sequence.read_sequence
            x.1.sequence.read_cursor x.0.1 max_size)
          x.1 in
      let sized =
        read_block_size-IsSized bound bound ports.block_ports has_bound
          (record { sequence = p.sequence; world = p.world }) h in
      if_lem (λ (y : (ReadResult × Bytes) × StorePass W). SizedBy y) x.0.0 r
        ((device_failed, []), x.1) (λ known. sized) (λ unknown. sized)

  read_loop-Sized :
      (fuel max_size : ℕ) (r : ReadResult × Bytes) (p : StorePass W)
      → Sized p
      → SizedBy (read_loop max_message_size ports fuel max_size r p)
  unfolding read_loop
  read_loop-Sized zero max_size r p h = h
  read_loop-Sized (suc fuel) max_size r p h =
      let t = step_past max_message_size ports r.0 p in
      let again = read_current max_message_size ports max_size t.1 in
      let stepped = step_past-Sized r.0 p h in
      if_lem (λ (y : (ReadResult × Bytes) × StorePass W). SizedBy y) t.0
        (read_loop max_message_size ports fuel max_size again.0 again.1) (r, t.1)
        (λ goes.
          read_loop-Sized fuel max_size again.0 again.1 (read_current-Sized max_size t.1 stepped))
        (λ ends. stepped)

  judge_read-Sized :
      (r : ReadResult) (p : StorePass W) → Sized p → Sized (judge_read max_message_size ports r p)
  unfolding judge_read freeze
  judge_read-Sized r p h =
      let x = freeze_if_device_failed max_message_size ports p in
      let frozen : StorePass W =
        if not x.0 then freeze max_message_size ports read_failed x.1 else x.1 in
      let looked = freeze_if-Sized p h in
      if_lem Sized (is_read_succeeded r) (on_store (λ s. record s { loss_reported = false }) p)
        (if is_read_failed r then frozen else p) (λ fine. h)
        (λ other.
          if_lem Sized (is_read_failed r) frozen p
            (λ failed.
              if_lem Sized (not x.0) (freeze max_message_size ports read_failed x.1) x.1
                (λ first. looked) (λ again. looked))
            (λ rest. h))

  pub read_next_unsent-Sized :
      (fuel max_size : ℕ) (p : StorePass W)
      → Sized p
      → SizedBy (read_next_unsent max_message_size ports fuel max_size p)
  unfolding read_next_unsent
  read_next_unsent-Sized fuel max_size p h =
      let first = read_current max_message_size ports max_size p in
      let x = read_loop max_message_size ports fuel max_size first.0 first.1 in
      if_lem (λ (y : (Bool × Bytes) × StorePass W). SizedBy y) (has_unsent p.sequence)
        ((ltb 0 (length x.0.1), x.0.1), judge_read max_message_size ports x.0.0 x.1)
        ((false, []), p)
        (λ some_unsent.
          judge_read-Sized x.0.0 x.1
            (read_loop-Sized fuel max_size first.0 first.1 (read_current-Sized max_size p h)))
        (λ none_unsent. h)

  judge_mark-Sized :
      (r : MarkResult) (next_cursor : ℕ) (p : StorePass W)
      → Sized p
      → Sized (judge_mark max_message_size ports r next_cursor p)
  unfolding judge_mark freeze forget_last_read
  judge_mark-Sized mark_device_failed next_cursor p h = h
  judge_mark-Sized mark_nothing_read next_cursor p h = h
  judge_mark-Sized mark_succeeded next_cursor p h =
      let moved = on_blocks (set_read_cursor next_cursor) p in
      let d = by_sequence (dispose_read_block_if_drained ports.block_ports) moved in
      let x = freeze_if_device_failed max_message_size ports d.1 in
      let still = freeze_if-Sized d.1 (
        dispose_if_drained-IsSized bound bound ports.block_ports has_bound
          (record { sequence = moved.sequence; world = moved.world }) h) in
      if_lem Sized (not x.0 && d.0) (forget_read max_message_size ports x.1) x.1 (λ gone. still)
        (λ stays. still)

  pub mark_sent-Sized : (p : StorePass W) → Sized p → Sized (mark_sent max_message_size ports p)
  unfolding mark_sent
  mark_sent-Sized p h =
      let m = by_records (mark_last_read_as_sent max_message_size ports.device ports.policy 0) p in
      judge_mark-Sized m.0.0 m.0.1 m.1 h
