-- ===== src/BlockStore/Trusted.antt =====
-- Whether a store that is frozen or not agrees with its device: what is written.
pub mod Reads
pub mod Start
use mathlib.Core.Bool.{false≢true}
use solid_syslog.Base.{
  ℕ, zero, suc, ◌≡◌, ◌⊎◌, inl, inr, refl, ap, sym, ◌∙◌, Bool, true, false, Bool-cases, if_lem, not,
  ◌&&◌, and_true, ltb, List, [], ◌∷◌, Bytes, length, if◌then◌else◌, ◌%◌, ◌^◌,
}
use solid_syslog.Senders.{severity_error, severity_warning}
use solid_syslog.Service.{StoreWriteResult, not_retained}
use solid_syslog.RecordStore.{
  Call, ReadResult, succeeded, end_of_data, corrupt, rejected, finished_with, could_not_open,
  device_failed, AppendResult, append_succeeded, append_seal_failed, append_device_failed,
  MarkResult, mark_succeeded, mark_nothing_read, mark_device_failed, ScanResult, scan_clean,
  scan_corrupt, scan_device_failed, record_size, forget_last_read, step_past_last_read,
  mark_last_read_as_sent,
}
use solid_syslog.RecordStore.Scan.{is_device_failed, find_first_unsent, scan_to_end}
use solid_syslog.BlockSequence.{
  BlockSequence, BlockStoreErrors, read_failed, size_failed, record_rejected, record_corrupt,
  record_refused, seal_failed, open_failed, block_evicted, append_failed, mark_sent_failed,
  set_read_cursor, mark_write_block_corrupt, read_is_behind_write, leave_read_block, has_unsent,
  prepare_for_write, read_block_size_of, dispose_read_block_if_drained, note_record_written,
  note_device_failure, is_read_block_active_write,
}
use solid_syslog.BlockSequence.Resume.{
  open_sequence, scan_for_block_presence, scan_for_existing_blocks, resume_write, first_block,
}
use solid_syslog.BlockStore.{
  BlockStore, StorePorts, StorePass, by_sequence, by_records, to_sequence, on_blocks, on_store,
  report, freeze, freeze_if_device_failed, report_refusal, report_eviction, report_seal_failed,
  report_loss, judge_append, store_record, write, forget_read, read_current,
  read_next_block_if_behind, abandon_rest_of_read_block, step_past_current, step_past, read_loop,
  judge_read, read_next_unsent, judge_mark, mark_sent, is_read_succeeded, is_read_failed,
  is_scan_failed, is_scan_corrupt, scan_read_block, judge_write_block, check_write_block,
  resume_loop, resume_from_existing_block, store_records_lost, store_write_failed,
  store_record_discarded,
}
use solid_syslog.BlockStore.Failures.{
  any_failed, is_append_failed, is_mark_failed, read-Told, append-Told, mark-Told,
}
use solid_syslog.BlockStore.Failures.Scans.{find_first_unsent-Told, scan_to_end-Told}
use solid_syslog.BlockStore.Trace.{StoreOperation, writes, reads_next, marks_sent, ask, ask_all}
use solid_syslog.BlockStore.Live.{report_loss-Keeps}
use solid_syslog.BlockStore
use solid_syslog.BlockSequence
use solid_syslog.RecordStore

-- A call of the device has failed, of the records or, as the sequence noted, of the blocks.
abbrev pub HasFailed : {W : Type 0} → StorePass W → Type 0
HasFailed p = (any_failed p.calls ≡ true) ⊎ (p.sequence.device_failed ≡ true)

-- the store goes on, and no call for its records has failed
abbrev pub Untroubled : {W : Type 0} → StorePass W → Type 0
Untroubled p = (p.block_store.frozen ≡ false) × (any_failed p.calls ≡ false)

-- it froze, and for a reason
abbrev pub Halted : {W : Type 0} → StorePass W → Type 0
Halted p = (p.block_store.frozen ≡ true) × HasFailed p

abbrev pub Trusted : {W : Type 0} → StorePass W → Type 0
Trusted p = Untroubled p ⊎ Halted p

-- the pass of the record store within the one of the store
abbrev pub records_of : {W : Type 0} → StorePass W → RecordStore.Pass W
records_of p = record { store = p.records; world = p.world; calls = p.calls }

module _ {W : Type 0} (max_message_size : ℕ) (ports : StorePorts W) where
  -- of an operation that answers something
  abbrev pub TrustedBy : {A : Type 0} → A × StorePass W → Type 0
  TrustedBy x = Trusted x.1

  pub freeze_if-Trusted :
      (p : StorePass W) → Trusted p → TrustedBy (freeze_if_device_failed max_message_size ports p)
  unfolding freeze_if_device_failed freeze
  freeze_if-Trusted p h =
      if_lem Trusted p.sequence.device_failed
        (freeze max_message_size ports p.sequence.failed_operation p) p
        (λ failed. inr (refl, inr failed)) (λ fine. h)

  -- the look at the device: what it finds, and what holds if it finds nothing
  freeze_if-Untroubled :
      (p : StorePass W)
      → Untroubled p
      → let x = freeze_if_device_failed max_message_size ports p in x.0 ≡ false → Untroubled x.1
  unfolding freeze_if_device_failed freeze
  freeze_if-Untroubled p h works =
      if_lem Untroubled p.sequence.device_failed
        (freeze max_message_size ports p.sequence.failed_operation p) p
        (λ failed. absurd (false≢true (sym works ∙ failed))) (λ fine. h)

  report_refusal-Untroubled :
      (p : StorePass W) → Untroubled p → Untroubled (report_refusal max_message_size ports p)
  unfolding report_refusal
  report_refusal-Untroubled p h =
      if_lem Untroubled (not p.block_store.refusal_reported)
        (on_store (λ s. record s { refusal_reported = true })
          (report max_message_size ports severity_warning store_records_lost record_refused p))
        p (λ first. h) (λ again. h)

  report_eviction-Untroubled :
      (p : StorePass W) → Untroubled p → Untroubled (report_eviction max_message_size ports p)
  unfolding report_eviction
  report_eviction-Untroubled p h =
      let told : StorePass W =
        on_store (λ s. record s { eviction_reported = true })
          (report max_message_size ports severity_warning store_records_lost block_evicted p) in
      if_lem Untroubled (not p.sequence.evicted_unsent)
        (on_store (λ s. record s { eviction_reported = false }) p)
        (if not p.block_store.eviction_reported then told else p) (λ none_lost. h)
        (λ some_lost.
          if_lem Untroubled (not p.block_store.eviction_reported) told p (λ first. h) (λ again. h))

  judge_append-Trusted :
      (r : AppendResult) (size : ℕ) (p : StorePass W)
      → p.block_store.frozen ≡ false
      → any_failed p.calls ≡ is_append_failed r
      → TrustedBy (judge_append max_message_size ports r size p)
  unfolding judge_append report_seal_failed freeze
  judge_append-Trusted append_succeeded size p works told = inl (works, told)
  judge_append-Trusted append_device_failed size p works told = inr (refl, inl told)
  judge_append-Trusted append_seal_failed size p works told =
      if_lem Trusted (not p.block_store.seal_failure_reported)
        (on_store (λ s. record s { seal_failure_reported = true })
          (report max_message_size ports severity_error store_write_failed seal_failed p))
        p (λ first. inl (works, told)) (λ again. inl (works, told))

  pub store_record-Trusted :
      (message : Bytes) (p : StorePass W)
      → Untroubled p
      → TrustedBy (store_record max_message_size ports message p)
  unfolding store_record forget_last_read
  store_record-Trusted message p h =
      let size = record_size max_message_size ports.device ports.policy (length message % 2 ^ 16) in
      let prepared = by_sequence (prepare_for_write ports.block_ports size) p in
      let x = freeze_if_device_failed max_message_size ports prepared.1 in
      let p3 = report_eviction max_message_size ports x.1 in
      let forgotten : StorePass W =
        if prepared.0.1 then forget_read max_message_size ports p3 else p3 in
      let a =
        by_records
          (RecordStore.append max_message_size ports.device ports.policy
            forgotten.sequence.write_sequence message)
          forgotten in
      let refused : StoreWriteResult × StorePass W =
        (not_retained, report_refusal max_message_size ports x.1) in
      let appended = judge_append max_message_size ports a.0 size a.1 in
      let Fine : StoreWriteResult × StorePass W → Type 0 = λ y. TrustedBy y in
      if_lem Fine x.0 (not_retained, x.1) (if not prepared.0.0 then refused else appended)
        (λ frozen. freeze_if-Trusted prepared.1 (inl h))
        (λ works.
          let looked = freeze_if-Untroubled prepared.1 h works in
          let told = report_eviction-Untroubled x.1 looked in
          let ready : Untroubled forgotten =
            if_lem Untroubled prepared.0.1 (forget_read max_message_size ports p3) p3
              (λ changed. told) (λ same. told) in
          if_lem Fine (not prepared.0.0) refused appended
            (λ no_room. inl (report_refusal-Untroubled x.1 looked))
            (λ room. judge_append-Trusted a.0 size a.1 ready.0 (
              append-Told max_message_size ports.device ports.policy
                forgotten.sequence.write_sequence 0 message (records_of forgotten) ready.1)))
