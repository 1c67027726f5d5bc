-- ===== src/BlockStore/Trusted/Start.antt =====
-- Whether a store that is frozen or not agrees with its device: what Initialise leaves, and what comes
-- of it.
use mathlib.Core.Bool.{false≢true}
use solid_syslog.Base.{
  ℕ, zero, suc, ◌≡◌, ◌⊎◌, inl, inr, refl, ap, sym, ◌∙◌, Bool, true, false, if_lem, not, ◌&&◌,
  and_true, ltb, List, [], ◌∷◌, Bytes, length, if◌then◌else◌,
}
use solid_syslog.Service.{StoreWriteResult, not_retained}
use solid_syslog.RecordStore.{ScanResult, scan_clean, scan_corrupt, scan_device_failed}
use solid_syslog.RecordStore.Scan.{find_first_unsent, scan_to_end}
use solid_syslog.BlockSequence.{
  BlockSequence, BlockStoreErrors, read_failed, size_failed, record_rejected, record_corrupt,
  record_refused, seal_failed, open_failed, block_evicted, append_failed, mark_sent_failed,
  set_read_cursor, mark_write_block_corrupt, read_is_behind_write, leave_read_block, has_unsent,
  prepare_for_write, read_block_size_of, dispose_read_block_if_drained, note_record_written,
  acquire_block, notify_threshold_crossed, note_device_failure, is_read_block_active_write,
}
use solid_syslog.BlockSequence.Resume.{
  open_sequence, scan_for_existing_blocks, resume_write, first_block,
}
use solid_syslog.BlockStore.{
  BlockStore, StorePorts, StorePass, by_sequence, by_records, to_sequence, on_blocks, on_store,
  report, freeze, freeze_if_device_failed, report_refusal, report_eviction, report_seal_failed,
  report_loss, judge_append, store_record, write, forget_read, read_current,
  read_next_block_if_behind, abandon_rest_of_read_block, step_past_current, step_past, read_loop,
  judge_read, read_next_unsent, judge_mark, mark_sent, is_read_succeeded, is_read_failed,
  is_scan_failed, is_scan_corrupt, scan_read_block, judge_write_block, check_write_block,
  resume_loop, resume_from_existing_block, store_records_lost, store_write_failed,
  store_record_discarded,
}
use solid_syslog.BlockStore.Failures.{any_failed}
use solid_syslog.BlockStore.Failures.Scans.{find_first_unsent-Told, scan_to_end-Told}
use solid_syslog.BlockStore.Trace.{StoreOperation, writes, reads_next, marks_sent, ask, ask_all}
use solid_syslog.BlockStore
use solid_syslog.BlockSequence
use solid_syslog.BlockStore.Trusted.{Untroubled, Halted, Trusted, records_of, store_record-Trusted}
use solid_syslog.BlockStore.Trusted.Reads.{
  noted-failed, noted_unless-failed, size_read-HasFailed, abandon-Stepped, read_next_unsent-Trusted,
  mark_sent-Trusted,
}

-- An Open that does not succeed met a failure, which the sequence noted.
open_sequence-HasFailed :
    {W : Type 0} (ports : BlockSequence.Ports W) (p : BlockSequence.Pass W)
    → let x = open_sequence ports p in x.0 ≡ false → x.1.sequence.device_failed ≡ true
unfolding open_sequence resume_write first_block
open_sequence-HasFailed {W} ports p unready =
    let f = scan_for_existing_blocks ports p in
    let resumed = resume_write ports f.1 in
    let first = first_block ports f.1 in
    let sized = ports.size f.1.sequence.write_sequence f.1.world in
    let acquired = acquire_block ports 0 f.1 in
    let opened : Bool × BlockSequence.Pass W = if f.0 then resumed else first in
    let failed : opened.0 ≡ false → opened.1.sequence.device_failed ≡ true =
      if_lem (λ (x : Bool × BlockSequence.Pass W). x.0 ≡ false → x.1.sequence.device_failed ≡ true)
        f.0 resumed first
        (λ found e.
          noted_unless-failed sized.0.0 size_failed
            (record f.1.sequence { write_position = sized.0.1 }) e)
        (λ none_found e.
          if_lem (λ (q : BlockSequence.Pass W). q.sequence.device_failed ≡ true) (not acquired.0)
            (record acquired.1 { sequence = note_device_failure open_failed acquired.1.sequence })
            acquired.1 (λ noted. noted-failed open_failed acquired.1.sequence)
            (λ ready. absurd (false≢true (sym ready ∙ ap not e)))) in
    if_lem (λ (q : BlockSequence.Pass W). q.sequence.device_failed ≡ true) opened.0
      (notify_threshold_crossed ports opened.1) opened.1
      (λ ready. absurd (false≢true (sym unready ∙ ready))) (λ bad. failed bad)

module _ {W : Type 0} (max_message_size : ℕ) (ports : StorePorts W) where
  -- the outcome of a scan of the read block
  abbrev Scanned : ScanResult × StorePass W → Type 0
  Scanned x =
      ((is_scan_failed x.0 ≡ false) × Untroubled x.1) ⊎ ((is_scan_failed x.0 ≡ true) × Halted x.1)

  scan_read_block-Scanned :
      (p : StorePass W) → Untroubled p → Scanned (scan_read_block max_message_size ports p)
  unfolding scan_read_block freeze
  scan_read_block-Scanned p h =
      let x = by_sequence (read_block_size_of ports.block_ports) p in
      let found =
        by_records
          (find_first_unsent max_message_size ports.device ports.policy x.1.sequence.read_sequence
            x.0.1)
          x.1 in
      let q = on_blocks (set_read_cursor found.0.cursor) found.1 in
      let failed = freeze max_message_size ports read_failed q in
      let r = found.0.scanned in
      let known : ScanResult × StorePass W = (r, if is_scan_failed r then failed else q) in
      let told =
        find_first_unsent-Told max_message_size ports.device ports.policy x.1.sequence.read_sequence
          x.0.1 (records_of x.1) h.1 in
      if_lem Scanned x.0.0 known (scan_device_failed, freeze max_message_size ports size_failed x.1)
        (λ ok.
          if_lem (λ (y : StorePass W). Scanned (r, y)) (is_scan_failed r) failed q
            (λ bad. inr (bad, (refl, inl (told ∙ bad)))) (λ fine. inl (fine, (h.0, told ∙ fine))))
        (λ bad. inr (
          refl,
          (
            refl,
            inr (
                size_read-HasFailed ports.block_ports
                  (record { sequence = p.sequence; world = p.world }) bad),
          ),
        ))

  -- and of the scans; a store that an abandoned block froze has a failure noted in its sequence
  abbrev AreScanned : ScanResult × StorePass W → Type 0
  AreScanned x =
      Untroubled x.1
      ⊎ (Halted x.1 × ((is_scan_failed x.0 ≡ true) ⊎ (x.1.sequence.device_failed ≡ true)))

  failed_not_corrupt :
      (r : ScanResult) → is_scan_failed r ≡ true → is_scan_corrupt r ≡ true → false ≡ true
  failed_not_corrupt scan_clean e f = e
  failed_not_corrupt scan_corrupt e f = e
  failed_not_corrupt scan_device_failed e f = f

  resume_loop-AreScanned :
      (fuel : ℕ) (r : ScanResult) (p : StorePass W)
      → Scanned (r, p)
      → AreScanned (resume_loop max_message_size ports fuel r p)
  unfolding resume_loop
  resume_loop-AreScanned zero r p (inl h) = inl h.1
  resume_loop-AreScanned zero r p (inr h) = inr (h.1, inl h.0)
  resume_loop-AreScanned (suc fuel) r p (inr h) =
      let moved = abandon_rest_of_read_block max_message_size ports p in
      let again = scan_read_block max_message_size ports moved.1 in
      let rest = resume_loop max_message_size ports fuel again.0 again.1 in
      if_lem AreScanned (is_scan_corrupt r) (if moved.0 then rest else (r, moved.1)) (r, p)
        (λ damaged. absurd (false≢true (failed_not_corrupt r h.0 damaged)))
        (λ other. inr (h.1, inl h.0))
  resume_loop-AreScanned (suc fuel) r p (inl h) =
      let moved = abandon_rest_of_read_block max_message_size ports p in
      let again = scan_read_block max_message_size ports moved.1 in
      let rest = resume_loop max_message_size ports fuel again.0 again.1 in
      if_lem AreScanned (is_scan_corrupt r) (if moved.0 then rest else (r, moved.1)) (r, p)
        (λ damaged. elim (abandon-Stepped max_message_size ports p h.1) [
          | inl still ↦
              if_lem AreScanned moved.0 rest (r, moved.1)
                (λ goes.
                  resume_loop-AreScanned fuel again.0 again.1
                    (scan_read_block-Scanned moved.1 still))
                (λ stays. inl still)
          | inr stopped ↦
              if_lem AreScanned moved.0 rest (r, moved.1)
                (λ goes. absurd (false≢true (sym stopped.0 ∙ goes)))
                (λ stays. inr ((stopped.1.0, inr stopped.1.1), inr stopped.1.1))
        ])
        (λ other. inl h.1)

  judge_write_block-Trusted :
      (r : ScanResult) (p : StorePass W)
      → p.block_store.frozen ≡ false
      → any_failed p.calls ≡ is_scan_failed r
      → Trusted (judge_write_block max_message_size ports r p)
  unfolding judge_write_block freeze
  judge_write_block-Trusted scan_device_failed p works told = inr (refl, inl told)
  judge_write_block-Trusted scan_corrupt p works told = inl (works, told)
  judge_write_block-Trusted scan_clean p works told = inl (works, told)

  check_write_block-Trusted :
      (p : StorePass W) → Untroubled p → Trusted (check_write_block max_message_size ports p)
  unfolding check_write_block
  check_write_block-Trusted p h =
      let s = p.sequence in
      let from = if read_is_behind_write s then 0 else s.read_cursor in
      let x =
        by_records
          (scan_to_end max_message_size ports.device ports.policy s.write_sequence from
            s.write_position)
          p in
      judge_write_block-Trusted x.0 x.1 h.0 (
        scan_to_end-Told max_message_size ports.device ports.policy s.write_sequence
          s.write_position from (records_of p) h.1)

  -- the scans that froze the store are not followed by the one of the write block
  checks_on :
      (r : ScanResult) (q : StorePass W)
      → AreScanned (r, q)
      → Trusted (
          if not (is_scan_failed r) && not q.sequence.device_failed
          then check_write_block max_message_size ports q
          else q)
  checks_on r q (inl h) =
      if_lem Trusted (not (is_scan_failed r) && not q.sequence.device_failed)
        (check_write_block max_message_size ports q) q (λ fine. check_write_block-Trusted q h)
        (λ failed. inl h)
  checks_on r q (inr (h, why)) =
      if_lem Trusted (not (is_scan_failed r) && not q.sequence.device_failed)
        (check_write_block max_message_size ports q) q (λ fine. absurd (contradiction fine why))
        (λ failed. inr h)
    where
      contradiction :
          (not (is_scan_failed r) && not q.sequence.device_failed) ≡ true
          → (is_scan_failed r ≡ true) ⊎ (q.sequence.device_failed ≡ true)
          → ⊥
      contradiction fine (inl e) = false≢true (
          sym (ap not e)
          ∙ (and_true (not (is_scan_failed r)) (not q.sequence.device_failed) fine).0)
      contradiction fine (inr e) = false≢true (
          sym (ap not e)
          ∙ (and_true (not (is_scan_failed r)) (not q.sequence.device_failed) fine).1)

  pub initialise-Trusted :
      (p : StorePass W) → p.calls ≡ [] → Trusted (BlockStore.initialise max_message_size ports p)
  unfolding BlockStore.initialise resume_from_existing_block freeze
  initialise-Trusted p none_yet =
      let opened = by_sequence (open_sequence ports.block_ports) (on_store fresh p) in
      let first = scan_read_block max_message_size ports opened.1 in
      let x = resume_loop max_message_size ports 100 first.0 first.1 in
      if_lem Trusted opened.0 (resume_from_existing_block max_message_size ports opened.1)
        (freeze max_message_size ports opened.1.sequence.failed_operation opened.1)
        (λ ready. checks_on x.0 x.1 (
          resume_loop-AreScanned 100 first.0 first.1
            (scan_read_block-Scanned opened.1 (refl, ap any_failed none_yet))))
        (λ failed. inr (
          refl,
          inr (
              open_sequence-HasFailed ports.block_ports
                (record { sequence = p.sequence; world = p.world }) failed),
        ))
    where
      fresh : BlockStore → BlockStore
      fresh s = record {
        frozen = false;
        loss_reported = false;
        refusal_reported = false;
        eviction_reported = false;
        seal_failure_reported = false;
      }

  -- a store that is asked is one that is not frozen
  working : (p : StorePass W) → Trusted p → p.block_store.frozen ≡ false → Untroubled p
  working p (inl h) works = h
  working p (inr h) works = absurd (false≢true (sym works ∙ h.0))

  ask-Trusted :
      (max : ℕ) (o : StoreOperation) (p : StorePass W)
      → Trusted p
      → Trusted (ask max max_message_size ports o p)
  unfolding ask write
  ask-Trusted max (writes message) p h =
      let stored = store_record max_message_size ports message p in
      let Fine : StoreWriteResult × StorePass W → Type 0 = λ y. Trusted y.1 in
      if_lem Fine p.block_store.frozen (not_retained, p)
        (if ltb 0 (length message) then stored else (not_retained, p)) (λ frozen. h)
        (λ works.
          if_lem Fine (ltb 0 (length message)) stored (not_retained, p)
            (λ some_bytes.
              store_record-Trusted max_message_size ports message p (working p h works))
            (λ no_bytes. h))
  ask-Trusted max (reads_next fuel max_size) p h =
      if_lem (λ (y : (Bool × Bytes) × StorePass W). Trusted y.1) p.block_store.frozen
        ((false, []), p) (read_next_unsent max_message_size ports fuel max_size p) (λ frozen. h)
        (λ works.
          read_next_unsent-Trusted max_message_size ports fuel max_size p (working p h works))
  ask-Trusted max marks_sent p h =
      if_lem Trusted p.block_store.frozen p (mark_sent max_message_size ports p) (λ frozen. h)
        (λ works. mark_sent-Trusted max_message_size ports p (working p h works))

  pub ask_all-Trusted :
      (max : ℕ) (os : List StoreOperation) (p : StorePass W)
      → Trusted p
      → Trusted (ask_all max max_message_size ports os p)
  unfolding ask_all
  ask_all-Trusted max [] p h = h
  ask_all-Trusted max (o ∷ os) p h =
      ask_all-Trusted max os (ask max max_message_size ports o p) (ask-Trusted max o p h)
