-- ===== src/BlockStore/Leaves.antt =====
-- The steps of a read of the store, and of the start, that leave a block.
use mathlib.Core.Bool.{false≢true}
use solid_syslog.Base.{
  ℕ, ◌≡◌, ◌≢◌, sym, ◌∙◌, Bool, true, false, if_lem, not, not-true, ◌==◌, ==_iff, if◌then◌else◌,
}
use solid_syslog.RecordStore.{forget_last_read}
use solid_syslog.BlockSequence.{
  BlockSequence, BlockStoreErrors, record_corrupt, record_rejected, set_read_cursor,
  mark_write_block_corrupt, read_is_behind_write, leave_read_block, has_unsent, read_block_size_of,
  advance_past_disposed_read_block, set_present, dispose_read_block, note_device_failure,
  size_failed, dispose_failed,
}
use solid_syslog.BlockSequence.Advances.{Advanced, disposed_if_works, dispose_read_block-Advanced}
use solid_syslog.BlockStore.{
  StorePorts, StorePass, to_sequence, on_blocks, freeze_if_device_failed, freeze, report_loss,
  forget_read, read_next_block_if_behind, abandon_rest_of_read_block,
}
use solid_syslog.BlockStore.Live.{Works, Stepped, stepped, step_froze, report_loss-Keeps}
use solid_syslog.BlockSequence

module _ {W : Type 0} (max : ℕ) where
  pub went_on-Works : (t : Bool × StorePass W) → Stepped max t → t.0 ≡ true → Works max t.1
  went_on-Works t (stepped b p h) e = h
  went_on-Works t (step_froze p froze failed) e = absurd (false≢true e)

module _ {W : Type 0} (max max_message_size : ℕ) (ports : StorePorts W) where
  pub read_next_block-Advanced :
      (p : StorePass W)
      → Works max p
      → let x = read_next_block_if_behind max_message_size ports p in
        x.0 ≡ true → Advanced max ports.block_ports p.sequence x.1.sequence
  unfolding read_next_block_if_behind freeze_if_device_failed freeze forget_last_read
  read_next_block-Advanced p h =
      let left =
        forget_read max_message_size ports (to_sequence (leave_read_block ports.block_ports) p) in
      let failed = left.sequence.device_failed in
      let checked : StorePass W =
        if failed
        then freeze max_message_size ports left.sequence.failed_operation left
        else left in
      if_lem
        (λ (x : Bool × StorePass W).
          x.0 ≡ true → Advanced max ports.block_ports p.sequence x.1.sequence)
        (read_is_behind_write p.sequence) (not failed, checked) (false, p)
        (λ behind works.
          let q : BlockSequence.Pass W = record { sequence = p.sequence; world = p.world } in
          let apart : p.sequence.read_sequence ≢ p.sequence.write_sequence = λ same. absurd (
            false≢true (
              sym (not-true (p.sequence.read_sequence == p.sequence.write_sequence) behind)
              ∙ (==_iff p.sequence.read_sequence p.sequence.write_sequence).1 same)) in
          let advanced =
            dispose_read_block-Advanced max ports.block_ports q h.0.1.0.0 apart
              (disposed_if_works max ports.block_ports q works) in
          if_lem (λ (x : StorePass W). Advanced max ports.block_ports p.sequence x.sequence) failed
            (freeze max_message_size ports left.sequence.failed_operation left) left
            (λ fails. advanced) (λ fine. advanced))
        (λ writing e. absurd (false≢true e))

  pub abandon-Advanced :
      (p : StorePass W)
      → Works max p
      → let x = abandon_rest_of_read_block max_message_size ports p in
        x.0 ≡ true → Advanced max ports.block_ports p.sequence x.1.sequence
  unfolding abandon_rest_of_read_block
  abandon-Advanced p h moved =
      let x = read_next_block_if_behind max_message_size ports p in
      let p2 = report_loss max_message_size ports record_corrupt x.1 in
      let closed =
        on_blocks (λ s. mark_write_block_corrupt (set_read_cursor s.write_position s)) p2 in
      let advanced = read_next_block-Advanced p h moved in
      let Fine : StorePass W → Type 0 = λ q. Advanced max ports.block_ports p.sequence q.sequence in
      let told =
        report_loss-Keeps max max_message_size ports Fine record_corrupt x.1 advanced advanced in
      if_lem Fine (not x.1.sequence.device_failed) (if not x.0 then closed else p2) x.1
        (λ works.
          if_lem Fine (not x.0) closed p2
            (λ stays. absurd (false≢true (sym (not-true x.0 stays) ∙ moved))) (λ goes. told))
        (λ fails. advanced)
