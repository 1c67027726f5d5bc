-- ===== src/BlockStore/Started.antt =====
-- What Initialise leaves, and what comes of it: a store that works, or one that froze.
use solid_syslog.Base.{ℕ, ◌≡◌, false, if_lem, []}
use solid_syslog.BlockSequence.{
  BlockSequence, BlockStoreErrors, append_failed, mark_sent_failed, read_failed, size_failed,
  block_evicted, record_refused, record_rejected, record_corrupt, seal_failed, set_read_cursor,
  mark_write_block_corrupt, read_is_behind_write, leave_read_block, note_record_written,
  prepare_for_write, read_block_size_of, dispose_read_block_if_drained, note_device_failure,
}
use solid_syslog.BlockStore.{
  StorePorts, StorePass, by_sequence, by_records, to_sequence, on_blocks, freeze_if_device_failed,
  report_loss, forget_read, read_next_block_if_behind, abandon_rest_of_read_block,
  step_past_current, step_past, read_current,
}
use solid_syslog.BlockSequence
use solid_syslog.Base.{refl, inr, ◌≤◌, arith}
use solid_syslog.BlockSequence.{block_count}
use solid_syslog.BlockSequence.{clamp_to_range}
use solid_syslog.Base.{List, ap}
use solid_syslog.BlockStore.Trace.{StoreOperation, ask_all, store-Live}
use solid_syslog.BlockStore.{BlockStore, initialise, on_store}
use solid_syslog.BlockStore
use solid_syslog.BlockStore.Live.{frozen_count}
use solid_syslog.BlockSequence.Resume.{open_sequence}
use solid_syslog.BlockSequence.Opened.{open_sequence-IsOpened}
use solid_syslog.BlockStore.{
  is_scan_failed, is_scan_corrupt, scan_read_block, resume_loop, resume_from_existing_block,
  check_write_block, judge_write_block, freeze,
}
use solid_syslog.BlockStore.Live.{Live, freeze-Froze}
use solid_syslog.BlockStore.Resumed.{resume-Live}
use solid_syslog.BlockStore.Trusted.{Trusted}
use solid_syslog.BlockStore.Trusted.Start.{initialise-Trusted, ask_all-Trusted}

module _ {W : Type 0} (max max_message_size : ℕ) (ports : StorePorts W) where
  -- what Initialise is given: a sequence as it was initialised, and no report yet
  abbrev IsNew : StorePass W → Type 0
  IsNew p =
      (p.sequence.max_blocks ≡ max)
      × ((p.sequence.device_failed ≡ false)
          × ((p.sequence.oldest_sequence ≡ 0)
              × ((p.sequence.read_sequence ≡ 0)
                  × ((p.sequence.write_sequence ≡ 0) × (frozen_count p.reports ≡ 0)))))

  initialise-Live :
      (p : StorePass W)
      → IsNew p
      → block_count (by_sequence (open_sequence ports.block_ports) p).1.sequence ≤ max
      → Live max (initialise max_message_size ports p)
  unfolding initialise
  initialise-Live p (blocks, (works, (first, (reading, (writing, none_told))))) few =
      let opened = by_sequence (open_sequence ports.block_ports) (on_store fresh p) in
      if_lem (Live max) opened.0 (resume_from_existing_block max_message_size ports opened.1)
        (freeze max_message_size ports opened.1.sequence.failed_operation opened.1)
        (λ ready.
          let found =
            open_sequence-IsOpened max ports.block_ports
              (record { sequence = p.sequence; world = p.world }) blocks
              (works, (first, (reading, writing))) ready in
          resume-Live max max_message_size ports opened.1
            ((refl, ((found.1 few, λ e. few), none_told)), found.0))
        (λ failed. inr (
          freeze-Froze max max_message_size ports opened.1.sequence.failed_operation opened.1
            none_told))
    where
      fresh : BlockStore → BlockStore
      fresh s = record {
        frozen = false;
        loss_reported = false;
        refusal_reported = false;
        eviction_reported = false;
        seal_failure_reported = false;
      }

module _ {W : Type 0} (max_message_size : ℕ) (ports : StorePorts W) where
  pub ask_started-Live :
      (max_block_size max_blocks : ℕ) (os : List StoreOperation) (p : StorePass W)
      → p.sequence ≡ BlockSequence.initialise max_block_size max_blocks
      → p.reports ≡ []
      → let max = clamp_to_range max_blocks 2 98 in
        block_count (by_sequence (open_sequence ports.block_ports) p).1.sequence ≤ max
        → Live max
            (ask_all max max_message_size ports os (BlockStore.initialise max_message_size ports p))
  unfolding BlockSequence.initialise
  ask_started-Live max_block_size max_blocks os p same no_report few =
      let max = clamp_to_range max_blocks 2 98 in
      let is_new : IsNew max max_message_size ports p = (
        ap (λ (s : BlockSequence). s.max_blocks) same,
        (
          ap (λ (s : BlockSequence). s.device_failed) same,
          (
            ap (λ (s : BlockSequence). s.oldest_sequence) same,
            (
              ap (λ (s : BlockSequence). s.read_sequence) same,
              (ap (λ (s : BlockSequence). s.write_sequence) same, ap frozen_count no_report),
            ),
          ),
        ),
      ) in
      store-Live max max_message_size ports (ground arith) (ground arith) os
        (BlockStore.initialise max_message_size ports p)
        (initialise-Live max max_message_size ports p is_new few)

  -- Behind Initialise over a sequence as it was initialised, with no report before and no call of
  -- the device in the log, if Open finds no more blocks than are allowed: whatever the device
  -- held, whatever is written, read and marked, and whatever the ports answer, the store works
  -- over a sound sequence that noted no failure of the device and did not say that it froze, or it
  -- froze and said so once. If it is not frozen, each read, append and write of its records that
  -- the device was asked for, in the scans of Initialise and since, succeeded; and if it is
  -- frozen, one of these did not, or the sequence noted a failure.
  pub started-Live :
      (max_block_size max_blocks : ℕ) (os : List StoreOperation) (p : StorePass W)
      → p.sequence ≡ BlockSequence.initialise max_block_size max_blocks
      → p.reports ≡ []
      → p.calls ≡ []
      → let max = clamp_to_range max_blocks 2 98 in
        block_count (by_sequence (open_sequence ports.block_ports) p).1.sequence ≤ max
        → let q =
            ask_all max max_message_size ports os
              (BlockStore.initialise max_message_size ports p) in
          Live max q × Trusted q
  started-Live max_block_size max_blocks os p same no_report no_call few = (
    ask_started-Live max_block_size max_blocks os p same no_report few,
    ask_all-Trusted max_message_size ports (clamp_to_range max_blocks 2 98) os
        (BlockStore.initialise max_message_size ports p)
        (initialise-Trusted max_message_size ports p no_call),
  )
