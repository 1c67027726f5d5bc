-- ===== src/BlockStore.antt =====
-- Core/Source/SolidSyslogBlockStore.c: a store over the records of RecordStore and the blocks of
-- BlockSequence. The block device, the policy, the callbacks and the error handler are ports over a
-- state of the world, which both parts share; a store that froze has the vtable of the NullStore
-- (Core/Source/SolidSyslogNullStore.c).
pub mod Failures
pub mod Trusted
pub mod Live
pub mod Sized
pub mod Steps
pub mod Trace
pub mod Resumed
pub mod Started
pub mod Leaves
pub mod Rounds
pub mod Ends
pub mod Settled
pub mod Loops
pub mod Drained
pub mod Answers
pub mod Noted
pub mod RoundTrip
mod Tests
use solid_syslog.Base.{
  ℕ, zero, suc, ◌%◌, ◌^◌, Bool, true, false, not, ◌&&◌, ltb, List, [], ◌∷◌, Bytes, length,
  if◌then◌else◌,
}
use solid_syslog.Senders.{severity_error, severity_warning}
use solid_syslog.Service.{StoreWriteResult, not_retained, kept, lost}
use solid_syslog.BlockSequence.{
  BlockSequence, BlockStoreErrors, seal_failed, append_failed, mark_sent_failed, read_failed,
  size_failed, record_rejected, record_corrupt, record_refused, block_evicted, set_read_cursor,
  mark_write_block_corrupt, read_is_behind_write, has_unsent, total_bytes, used_bytes,
  prepare_for_write, note_record_written, read_block_size_of, leave_read_block,
  dispose_read_block_if_drained,
}
use solid_syslog.BlockSequence.Resume.{open_sequence}
use solid_syslog.RecordStore.{
  BlockDevice, SecurityPolicy, RecordStore, ReadResult, succeeded, end_of_data, corrupt, rejected,
  finished_with, could_not_open, device_failed, AppendResult, append_succeeded, append_seal_failed,
  append_device_failed, MarkResult, mark_succeeded, mark_nothing_read, mark_device_failed,
  ScanResult, scan_clean, scan_corrupt, scan_device_failed, record_size, forget_last_read,
  step_past_last_read, mark_last_read_as_sent,
}
use solid_syslog.RecordStore.Scan.{Scan, find_first_unsent, scan_to_end}
use solid_syslog.BlockSequence
use solid_syslog.RecordStore

-- the categories of Core/Interface/SolidSyslogStoreCategories.h that the store raises
pub data StoreCategory : Type 0 where
  store_frozen store_records_lost store_write_failed store_record_discarded : StoreCategory

-- what `BlockStore_Report` is called with
pub record StoreReport : Type 0 where
  pub severity : ℕ
  pub category : StoreCategory
  pub code : BlockStoreErrors

-- `block_ports` are the same device and the callbacks, for the sequence
pub record StorePorts (W : Type 0) : Type 0 where
  pub device : BlockDevice W
  pub policy : SecurityPolicy W
  pub block_ports : BlockSequence.Ports W
  pub raise : StoreReport → W → W

-- `frozen` says that the vtable is the one of the NullStore.
pub record BlockStore : Type 0 where
  pub frozen : Bool
  pub loss_reported : Bool
  pub refusal_reported : Bool
  pub eviction_reported : Bool
  pub seal_failure_reported : Bool

-- the store with its two parts; the calls are those of the record store
pub record StorePass (W : Type 0) : Type 0 where
  pub block_store : BlockStore
  pub records : RecordStore
  pub sequence : BlockSequence
  pub world : W
  pub calls : List RecordStore.Call
  pub reports : List StoreReport

abbrev pub on_store : {W : Type 0} → (BlockStore → BlockStore) → StorePass W → StorePass W
on_store f p = record p { block_store = f p.block_store }

-- an operation of the record store
abbrev pub by_records :
    {W : Type 0} {A : Type 0}
    → (RecordStore.Pass W → A × RecordStore.Pass W)
    → StorePass W
    → A × StorePass W
by_records operation p =
    let (answer, q) = operation (record { store = p.records; world = p.world; calls = p.calls }) in
    (answer, record p { records = q.store; world = q.world; calls = q.calls })

-- an operation of the block sequence
abbrev pub by_sequence :
    {W : Type 0} {A : Type 0}
    → (BlockSequence.Pass W → A × BlockSequence.Pass W)
    → StorePass W
    → A × StorePass W
by_sequence operation p =
    let (answer, q) = operation (record { sequence = p.sequence; world = p.world }) in
    (answer, record p { sequence = q.sequence; world = q.world })

abbrev pub to_sequence :
    {W : Type 0} → (BlockSequence.Pass W → BlockSequence.Pass W) → StorePass W → StorePass W
to_sequence operation p =
    let q = operation (record { sequence = p.sequence; world = p.world }) in
    record p { sequence = q.sequence; world = q.world }

abbrev pub on_blocks : {W : Type 0} → (BlockSequence → BlockSequence) → StorePass W → StorePass W
on_blocks f p = record p { sequence = f p.sequence }

abbrev pub is_scan_corrupt : ScanResult → Bool
is_scan_corrupt scan_clean = false
is_scan_corrupt scan_corrupt = true
is_scan_corrupt scan_device_failed = false

abbrev pub is_scan_failed : ScanResult → Bool
is_scan_failed scan_clean = false
is_scan_failed scan_corrupt = false
is_scan_failed scan_device_failed = true

abbrev pub is_read_succeeded : ReadResult → Bool
is_read_succeeded succeeded = true
is_read_succeeded end_of_data = false
is_read_succeeded corrupt = false
is_read_succeeded rejected = false
is_read_succeeded finished_with = false
is_read_succeeded could_not_open = false
is_read_succeeded device_failed = false

abbrev pub is_read_failed : ReadResult → Bool
is_read_failed succeeded = false
is_read_failed end_of_data = false
is_read_failed corrupt = false
is_read_failed rejected = false
is_read_failed finished_with = false
is_read_failed could_not_open = false
is_read_failed device_failed = true

-- `max_message_size` is the tunable SOLIDSYSLOG_MAX_MESSAGE_SIZE.
module _ {W : Type 0} (max_message_size : ℕ) (ports : StorePorts W) where
  abbrev pub report : ℕ → StoreCategory → BlockStoreErrors → StorePass W → StorePass W
  report severity category code p =
      let r : StoreReport = record { severity = severity; category = category; code = code } in
      record p { world = ports.raise r p.world; reports = r ∷ p.reports }

  unfoldable pub freeze : BlockStoreErrors → StorePass W → StorePass W
  freeze failed_operation p =
      on_store (λ s. record s { frozen = true })
        (report severity_error store_frozen failed_operation p)

  -- whether it failed
  unfoldable pub freeze_if_device_failed : StorePass W → Bool × StorePass W
  freeze_if_device_failed p =
      let failed = p.sequence.device_failed in
      (failed, if failed then freeze p.sequence.failed_operation p else p)

  unfoldable pub report_refusal : StorePass W → StorePass W
  report_refusal p =
      if not p.block_store.refusal_reported
      then on_store (λ s. record s { refusal_reported = true })
          (report severity_warning store_records_lost record_refused p)
      else p

  unfoldable pub report_eviction : StorePass W → StorePass W
  report_eviction p =
      if not p.sequence.evicted_unsent
      then on_store (λ s. record s { eviction_reported = false }) p
      else if not p.block_store.eviction_reported
      then on_store (λ s. record s { eviction_reported = true })
          (report severity_warning store_records_lost block_evicted p)
      else p

  unfoldable pub report_seal_failed : StorePass W → StorePass W
  report_seal_failed p =
      if not p.block_store.seal_failure_reported
      then on_store (λ s. record s { seal_failure_reported = true })
          (report severity_error store_write_failed seal_failed p)
      else p

  unfoldable pub report_loss : BlockStoreErrors → StorePass W → StorePass W
  report_loss fault p =
      if not p.block_store.loss_reported
      then on_store (λ s. record s { loss_reported = true })
          (report severity_error store_record_discarded fault p)
      else p

  -- what becomes of a record that was appended, or not
  unfoldable pub judge_append : AppendResult → ℕ → StorePass W → StoreWriteResult × StorePass W
  judge_append append_succeeded record_bytes p = (
    kept,
    on_store (λ s. record s { refusal_reported = false; seal_failure_reported = false })
        (to_sequence (note_record_written ports.block_ports record_bytes) p),
  )
  judge_append append_device_failed record_bytes p = (not_retained, freeze append_failed p)
  judge_append append_seal_failed record_bytes p = (lost, report_seal_failed p)

  unfoldable pub store_record : Bytes → StorePass W → StoreWriteResult × StorePass W
  store_record message p =
      let record_bytes =
        record_size max_message_size ports.device ports.policy (length message % 2 ^ 16) in
      let (prepared, p1) = by_sequence (prepare_for_write ports.block_ports record_bytes) p in
      let (frozen, p2) = freeze_if_device_failed p1 in
      let p3 = report_eviction p2 in
      let forgotten : StorePass W =
        if prepared.1
        then (by_records
            (λ q. (true, forget_last_read max_message_size ports.device ports.policy q)) p3).1
        else p3 in
      let (appended, p4) =
        by_records
          (RecordStore.append max_message_size ports.device ports.policy
            forgotten.sequence.write_sequence message)
          forgotten in
      if frozen
      then (not_retained, p2)
      else if not prepared.0
      then (not_retained, report_refusal p2)
      else judge_append appended record_bytes p4

  -- `data` is the record's bytes.
  unfoldable pub write : Bytes → StorePass W → StoreWriteResult × StorePass W
  write message p =
      let stored = store_record message p in
      if ltb 0 (length message) then stored else (not_retained, p)

  abbrev pub forget_read : StorePass W → StorePass W
  forget_read p =
      (by_records (λ q. (true, forget_last_read max_message_size ports.device ports.policy q)) p).1

  -- the result of the read, and the bytes for the caller
  unfoldable pub read_current : ℕ → StorePass W → (ReadResult × Bytes) × StorePass W
  read_current max_size p =
      let (got, p1) = by_sequence (read_block_size_of ports.block_ports) p in
      let r =
        by_records
          (RecordStore.read max_message_size ports.device ports.policy p1.sequence.read_sequence
            p1.sequence.read_cursor got.1 max_size)
          p1 in
      if got.0 then r else ((device_failed, []), p1)

  unfoldable pub read_next_block_if_behind : StorePass W → Bool × StorePass W
  read_next_block_if_behind p =
      let left = forget_read (to_sequence (leave_read_block ports.block_ports) p) in
      let (failed, p1) = freeze_if_device_failed left in
      if read_is_behind_write p.sequence then (not failed, p1) else (false, p)

  unfoldable pub abandon_rest_of_read_block : StorePass W → Bool × StorePass W
  abandon_rest_of_read_block p =
      let (moved_on, p1) = read_next_block_if_behind p in
      let p2 = report_loss record_corrupt p1 in
      let closed =
        on_blocks (λ s. mark_write_block_corrupt (set_read_cursor s.write_position s)) p2 in
      (
        moved_on,
        if not p1.sequence.device_failed then (if not moved_on then closed else p2) else p1,
      )

  unfoldable pub step_past_current : StorePass W → Bool × StorePass W
  step_past_current p =
      let (cursor, p1) =
        by_records (step_past_last_read max_message_size ports.device ports.policy) p in
      (true, on_blocks (set_read_cursor cursor) p1)

  abbrev pub step_past_rejected : StorePass W → Bool × StorePass W
  step_past_rejected p = step_past_current (report_loss record_rejected p)

  unfoldable pub step_past : ReadResult → StorePass W → Bool × StorePass W
  step_past rejected p = step_past_rejected p
  step_past finished_with p = step_past_current p
  step_past end_of_data p = read_next_block_if_behind p
  step_past corrupt p = abandon_rest_of_read_block p
  step_past succeeded p = (false, p)
  step_past could_not_open p = (false, p)
  step_past device_failed p = (false, p)

  -- the loop of `ReadNextUnsent`
  unfoldable pub read_loop :
      ℕ → ℕ → ReadResult × Bytes → StorePass W → (ReadResult × Bytes) × StorePass W
  read_loop zero max_size result p = (result, p)
  read_loop (suc fuel) max_size result p =
      let (stepped, p1) = step_past result.0 p in
      let (again, p2) = read_current max_size p1 in
      let rest = read_loop fuel max_size again p2 in if stepped then rest else (result, p1)

  -- what the last read means for the store
  unfoldable pub judge_read : ReadResult → StorePass W → StorePass W
  judge_read result p =
      let (failed, p1) = freeze_if_device_failed p in
      if is_read_succeeded result
      then on_store (λ s. record s { loss_reported = false }) p
      else if is_read_failed result
      then (if not failed then freeze read_failed p1 else p1)
      else p

  -- whether there is a record, and its bytes
  unfoldable pub read_next_unsent : ℕ → ℕ → StorePass W → (Bool × Bytes) × StorePass W
  read_next_unsent fuel max_size p =
      let (first, p1) = read_current max_size p in
      let (result, p2) = read_loop fuel max_size first p1 in
      if has_unsent p.sequence
      then ((ltb 0 (length result.1), result.1), judge_read result.0 p2)
      else ((false, []), p)

  unfoldable pub judge_mark : MarkResult → ℕ → StorePass W → StorePass W
  judge_mark mark_device_failed next_cursor p = freeze mark_sent_failed p
  judge_mark mark_succeeded next_cursor p =
      let moved = on_blocks (set_read_cursor next_cursor) p in
      let (changed, p1) = by_sequence (dispose_read_block_if_drained ports.block_ports) moved in
      let (failed, p2) = freeze_if_device_failed p1 in
      if not failed && changed then forget_read p2 else p2
  judge_mark mark_nothing_read next_cursor p = p

  unfoldable pub mark_sent : StorePass W → StorePass W
  mark_sent p =
      let (marked, p1) =
        by_records (mark_last_read_as_sent max_message_size ports.device ports.policy 0) p in
      judge_mark marked.0 marked.1 p1

  unfoldable pub scan_read_block : StorePass W → ScanResult × StorePass W
  scan_read_block p =
      let (got, p1) = by_sequence (read_block_size_of ports.block_ports) p in
      let (found, p2) =
        by_records
          (find_first_unsent max_message_size ports.device ports.policy p1.sequence.read_sequence
            got.1)
          p1 in
      let p3 = on_blocks (set_read_cursor found.cursor) p2 in
      if got.0
      then (found.scanned, if is_scan_failed found.scanned then freeze read_failed p3 else p3)
      else (scan_device_failed, freeze size_failed p1)

  unfoldable pub judge_write_block : ScanResult → StorePass W → StorePass W
  judge_write_block scan_device_failed p = freeze read_failed p
  judge_write_block scan_corrupt p = on_blocks mark_write_block_corrupt p
  judge_write_block scan_clean p = p

  unfoldable pub check_write_block : StorePass W → StorePass W
  check_write_block p =
      let s = p.sequence in
      let from = if read_is_behind_write s then 0 else s.read_cursor in
      let (scanned, p1) =
        by_records
          (scan_to_end max_message_size ports.device ports.policy s.write_sequence from
            s.write_position)
          p in
      judge_write_block scanned p1

  -- the loop over the blocks that are corrupt
  unfoldable pub resume_loop : ℕ → ScanResult → StorePass W → ScanResult × StorePass W
  resume_loop zero scanned p = (scanned, p)
  resume_loop (suc fuel) scanned p =
      let (moved, p1) = abandon_rest_of_read_block p in
      let (again, p2) = scan_read_block p1 in
      let rest = resume_loop fuel again p2 in
      if is_scan_corrupt scanned then (if moved then rest else (scanned, p1)) else (scanned, p)

  unfoldable pub resume_from_existing_block : StorePass W → StorePass W
  resume_from_existing_block p =
      let (first, p1) = scan_read_block p in
      let (scanned, p2) = resume_loop 100 first p1 in
      if not (is_scan_failed scanned) && not p2.sequence.device_failed
      then check_write_block p2
      else p2

  unfoldable pub initialise : StorePass W → StorePass W
  initialise p =
      let fresh : BlockStore = record {
        frozen = false;
        loss_reported = false;
        refusal_reported = false;
        eviction_reported = false;
        seal_failure_reported = false;
      } in
      let (opened, p1) =
        by_sequence (open_sequence ports.block_ports) (record p { block_store = fresh }) in
      if opened then resume_from_existing_block p1 else freeze p1.sequence.failed_operation p1

  -- The calls through the vtable; the NullStore keeps nothing and has nothing.
  abbrev pub store_write : Bytes → StorePass W → StoreWriteResult × StorePass W
  store_write message p = if p.block_store.frozen then (not_retained, p) else write message p

  abbrev pub store_read_next_unsent : ℕ → ℕ → StorePass W → (Bool × Bytes) × StorePass W
  store_read_next_unsent fuel max_size p =
      if p.block_store.frozen then ((false, []), p) else read_next_unsent fuel max_size p

  abbrev pub store_mark_sent : StorePass W → StorePass W
  store_mark_sent p = if p.block_store.frozen then p else mark_sent p

  abbrev pub store_has_unsent : StorePass W → Bool
  store_has_unsent p = if p.block_store.frozen then false else has_unsent p.sequence

  abbrev pub store_total_bytes : StorePass W → ℕ
  store_total_bytes p = if p.block_store.frozen then 0 else total_bytes p.sequence

  abbrev pub store_used_bytes : StorePass W → ℕ
  store_used_bytes p = if p.block_store.frozen then 0 else used_bytes p.sequence

  abbrev pub store_is_transient : StorePass W → Bool
  store_is_transient p = p.block_store.frozen
