-- ===== src/BlockStore/Settled.antt =====
-- The store froze, or the sizes that it knows are bounded, whatever was asked of it.
use mathlib.Core.Bool.{false≢true}
use solid_syslog.Base.{
  ℕ, ◌+◌, ◌≤◌, ◌≡◌, ◌⊎◌, inl, inr, refl, sym, ◌∙◌, Bool, true, false, if_lem, not, ◌&&◌, ltb, List,
  [], ◌∷◌, Bytes, length, if◌then◌else◌, zero, suc,
}
use solid_syslog.RecordStore.{ScanResult, scan_clean, scan_corrupt, scan_device_failed}
use solid_syslog.RecordStore.Scan.{find_first_unsent, scan_to_end}
use solid_syslog.BlockSequence.{
  read_failed, size_failed, set_read_cursor, read_block_size_of, read_is_behind_write,
}
use solid_syslog.BlockSequence.Resume.{open_sequence}
use solid_syslog.BlockSequence.Sized.{HasBound, read_block_size-IsSized}
use solid_syslog.BlockSequence.Room.{open_sequence-Sized}
use solid_syslog.BlockStore.{
  BlockStore, StorePorts, StorePass, by_sequence, by_records, on_blocks, on_store, freeze,
  is_scan_failed, is_scan_corrupt, scan_read_block, abandon_rest_of_read_block, judge_write_block,
  check_write_block, resume_loop, resume_from_existing_block, write, store_record, store_write,
  store_read_next_unsent, store_mark_sent, read_next_unsent, mark_sent,
}
use solid_syslog.Service.{StoreWriteResult, not_retained}
use solid_syslog.BlockStore.Trace.{StoreOperation, writes, reads_next, marks_sent, ask, ask_all}
use solid_syslog.BlockStore.Sized.{
  Sized, store_record-Sized, abandon-Sized, read_next_unsent-Sized, mark_sent-Sized,
}
use solid_syslog.BlockStore

module _ {W : Type 0} (max_message_size bound : ℕ) (ports : StorePorts W)
    (has_bound : HasBound ports.block_ports bound)
    (wide : 65540 + ports.policy.trailer_size ≤ bound) where
  abbrev pub Fits : StorePass W → Type 0
  Fits p = Sized max_message_size bound ports has_bound wide p

  -- the store froze, or the sizes that it knows are bounded
  abbrev pub Settled : StorePass W → Type 0
  Settled p = (p.block_store.frozen ≡ true) ⊎ Fits p

  scan_read_block-Fits :
      (p : StorePass W) → Fits p → Fits (scan_read_block max_message_size ports p).1
  unfolding scan_read_block freeze
  scan_read_block-Fits p h =
      let x = by_sequence (read_block_size_of ports.block_ports) p in
      let found =
        by_records
          (find_first_unsent max_message_size ports.device ports.policy x.1.sequence.read_sequence
            x.0.1)
          x.1 in
      let q = on_blocks (set_read_cursor found.0.cursor) found.1 in
      let failed = freeze max_message_size ports read_failed q in
      let known : ScanResult × StorePass W =
        (found.0.scanned, if is_scan_failed found.0.scanned then failed else q) in
      let sized =
        read_block_size-IsSized bound bound ports.block_ports has_bound
          (record { sequence = p.sequence; world = p.world }) h in
      if_lem (λ (y : ScanResult × StorePass W). Fits y.1) x.0.0 known
        (scan_device_failed, freeze max_message_size ports size_failed x.1)
        (λ ok. if_lem Fits (is_scan_failed found.0.scanned) failed q (λ bad. sized) (λ fine. sized))
        (λ bad. sized)

  resume_loop-Fits :
      (fuel : ℕ) (r : ScanResult) (p : StorePass W)
      → Fits p
      → Fits (resume_loop max_message_size ports fuel r p).1
  unfolding resume_loop
  resume_loop-Fits zero r p h = h
  resume_loop-Fits (suc fuel) r p h =
      let moved = abandon_rest_of_read_block max_message_size ports p in
      let again = scan_read_block max_message_size ports moved.1 in
      let rest = resume_loop max_message_size ports fuel again.0 again.1 in
      let left = abandon-Sized max_message_size bound ports has_bound wide p h in
      let Fine : ScanResult × StorePass W → Type 0 = λ y. Fits y.1 in
      if_lem Fine (is_scan_corrupt r) (if moved.0 then rest else (r, moved.1)) (r, p)
        (λ damaged.
          if_lem Fine moved.0 rest (r, moved.1)
            (λ goes. resume_loop-Fits fuel again.0 again.1 (scan_read_block-Fits moved.1 left))
            (λ stays. left))
        (λ other. h)

  judged :
      (r : ScanResult) (p : StorePass W)
      → Fits p
      → Fits (judge_write_block max_message_size ports r p)
  unfolding judge_write_block freeze
  judged scan_device_failed p h = h
  judged scan_corrupt p h = h
  judged scan_clean p h = h

  check_write_block-Fits :
      (p : StorePass W) → Fits p → Fits (check_write_block max_message_size ports p)
  unfolding check_write_block
  check_write_block-Fits p h =
      let s = p.sequence in
      let from = if read_is_behind_write s then 0 else s.read_cursor in
      let x =
        by_records
          (scan_to_end max_message_size ports.device ports.policy s.write_sequence from
            s.write_position)
          p in
      judged x.0 x.1 h

  pub initialise-Settled :
      (p : StorePass W) → Fits p → Settled (BlockStore.initialise max_message_size ports p)
  unfolding BlockStore.initialise resume_from_existing_block freeze
  initialise-Settled p h =
      let opened = by_sequence (open_sequence ports.block_ports) (on_store fresh p) in
      let first = scan_read_block max_message_size ports opened.1 in
      let x = resume_loop max_message_size ports 100 first.0 first.1 in
      let checks = not (is_scan_failed x.0) && not x.1.sequence.device_failed in
      if_lem Settled opened.0 (resume_from_existing_block max_message_size ports opened.1)
        (freeze max_message_size ports opened.1.sequence.failed_operation opened.1)
        (λ ready.
          let sized =
            open_sequence-Sized bound ports.block_ports has_bound
              (record { sequence = p.sequence; world = p.world }) h ready in
          let resumed =
            resume_loop-Fits 100 first.0 first.1 (scan_read_block-Fits opened.1 sized) in
          inr (
            if_lem Fits checks (check_write_block max_message_size ports x.1) x.1
              (λ fine. check_write_block-Fits x.1 resumed) (λ failed. resumed)))
        (λ failed. inl refl)
    where
      fresh : BlockStore → BlockStore
      fresh s = record {
        frozen = false;
        loss_reported = false;
        refusal_reported = false;
        eviction_reported = false;
        seal_failure_reported = false;
      }

  ask-Fits :
      (max : ℕ) (o : StoreOperation) (p : StorePass W)
      → Fits p
      → Fits (ask max max_message_size ports o p)
  unfolding ask write
  ask-Fits max (writes message) p h =
      let stored = store_record max_message_size ports message p in
      let Fine : StoreWriteResult × StorePass W → Type 0 = λ y. Fits y.1 in
      if_lem Fine p.block_store.frozen (not_retained, p)
        (if ltb 0 (length message) then stored else (not_retained, p)) (λ frozen. h)
        (λ works.
          if_lem Fine (ltb 0 (length message)) stored (not_retained, p)
            (λ some_bytes.
              store_record-Sized max_message_size bound ports has_bound wide message p h)
            (λ no_bytes. h))
  ask-Fits max (reads_next fuel max_size) p h =
      if_lem (λ (y : (Bool × Bytes) × StorePass W). Fits y.1) p.block_store.frozen ((false, []), p)
        (read_next_unsent max_message_size ports fuel max_size p) (λ frozen. h)
        (λ works.
          read_next_unsent-Sized max_message_size bound ports has_bound wide fuel max_size p h)
  ask-Fits max marks_sent p h =
      if_lem Fits p.block_store.frozen p (mark_sent max_message_size ports p) (λ frozen. h)
        (λ works. mark_sent-Sized max_message_size bound ports has_bound wide p h)

  frozen-Settled :
      (max : ℕ) (o : StoreOperation) (p : StorePass W)
      → p.block_store.frozen ≡ true
      → (ask max max_message_size ports o p).block_store.frozen ≡ true
  unfolding ask
  frozen-Settled max (writes message) p frozen =
      if_lem (λ (y : StoreWriteResult × StorePass W). y.1.block_store.frozen ≡ true)
        p.block_store.frozen (not_retained, p) (write max_message_size ports message p)
        (λ e. frozen) (λ works. absurd (false≢true (sym works ∙ frozen)))
  frozen-Settled max (reads_next fuel max_size) p frozen =
      if_lem (λ (y : (Bool × Bytes) × StorePass W). y.1.block_store.frozen ≡ true)
        p.block_store.frozen ((false, []), p)
        (read_next_unsent max_message_size ports fuel max_size p) (λ e. frozen)
        (λ works. absurd (false≢true (sym works ∙ frozen)))
  frozen-Settled max marks_sent p frozen =
      if_lem (λ (y : StorePass W). y.block_store.frozen ≡ true) p.block_store.frozen p
        (mark_sent max_message_size ports p) (λ e. frozen)
        (λ works. absurd (false≢true (sym works ∙ frozen)))

  pub ask_all-Settled :
      (max : ℕ) (os : List StoreOperation) (p : StorePass W)
      → Settled p
      → Settled (ask_all max max_message_size ports os p)
  unfolding ask_all
  ask_all-Settled max [] p h = h
  ask_all-Settled max (o ∷ os) p (inl frozen) =
      ask_all-Settled max os (ask max max_message_size ports o p)
        (inl (frozen-Settled max o p frozen))
  ask_all-Settled max (o ∷ os) p (inr sized) =
      ask_all-Settled max os (ask max max_message_size ports o p) (inr (ask-Fits max o p sized))
