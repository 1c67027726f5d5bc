-- ===== src/BlockStore/RoundTrip.antt =====
-- A record that a store kept is what the next read of it gives.
use solid_syslog.Base.{
  ℕ, ◌+◌, ◌%◌, ◌^◌, ◌≤◌, ◌<◌, ◌≡◌, ap, sym, subst, ◌∙◌, true, false, if_lem, not, lt→ltb, Bytes,
  arith, length, if◌then◌else◌,
}
use solid_syslog.Service.{StoreWriteResult, kept}
use solid_syslog.RecordStore.{
  BlockDevice, ReadResult, succeeded, could_not_open, device_failed, AppendResult, append_succeeded,
  append_seal_failed, append_device_failed, record_size,
}
use solid_syslog.RecordStore.Contents.{IsDevice}
use solid_syslog.RecordStore.Extent.{AreBytes}
use solid_syslog.RecordStore.Assembled.{SealsInPlace}
use solid_syslog.RecordStore.Appended.{AppendsBehind, OpensItsOwn}
use solid_syslog.BlockSequence.{block_is_full}
use solid_syslog.Senders.{severity_warning}
use solid_syslog.BlockSequence.{block_evicted}
use solid_syslog.BlockStore.{store_records_lost}
use solid_syslog.BlockStore.{
  StorePorts, StorePass, by_records, on_store, report, report_eviction, judge_append, store_write,
  store_read_next_unsent,
}
use solid_syslog.RecordStore
use solid_syslog.BlockStore.Answers.{write_goes, Answers, LeavesBlocks, HasNothing}
use solid_syslog.RecordStore.{sent_flag_offset, succeeded}
use solid_syslog.BlockStore.Noted.{appended-Answers}

module _ {W : Type 0} (max_message_size : ℕ) (ports : StorePorts W) (contents : W → ℕ → Bytes)
    (law : IsDevice ports.device contents) (behind : AppendsBehind ports.device contents)
    (seals : SealsInPlace ports.policy) (opens : OpensItsOwn ports.policy contents)
    (leaves : LeavesBlocks max_message_size ports contents) where
  -- A message that a store which has nothing unsent, and knows what its device holds of the block that
  -- is written, keeps in that block is what the next read of the store answers, as far as the caller
  -- has room, unless the device fails, of one that can fail, or the policy has no verdict, of one that
  -- can be without; and where it answers so, a mark leaves nothing unsent, or the store froze, over a
  -- device that can fail to write. The message is not empty and not too long, the caller has some room, the buffer
  -- holds the record, the block holds bytes then, and its size and the largest record are together
  -- less than 2 ^ 32.
  pub kept_record-Answers :
      (message : Bytes) (max_size fuel : ℕ) (p : StorePass W)
      → HasNothing max_message_size ports contents p
      → 0 < max_size
      → 0 < length message
      → length message ≤ max_message_size
      → max_message_size ≤ 65531
      → 4 + length message + ports.policy.trailer_size + 1 ≤ length p.records.buffer
      → p.sequence.write_position
          + (4 + length message + ports.policy.trailer_size + 1)
          + (max_message_size + ports.policy.trailer_size + 5)
        < 2 ^ 32
      → block_is_full (4 + length message + ports.policy.trailer_size + 1) p.sequence ≡ false
      → let block = p.sequence.write_sequence in
        let w = store_write max_message_size ports message p in
        w.0 ≡ kept
        → AreBytes (contents w.1.world block)
        → Answers max_message_size ports block message max_size
            (store_read_next_unsent max_message_size ports fuel max_size w.1)
  unfolding report_eviction
  kept_record-Answers message max_size fuel p h room some_left long max fit small space =
      let block = p.sequence.write_sequence in
      let size = record_size max_message_size ports.device ports.policy (length message % 2 ^ 16) in
      let same_size : size ≡ 4 + length message + ports.policy.trailer_size + 1 = omega arith in
      let Fine : StoreWriteResult × StorePass W → Type 0 = λ w.
        w.0 ≡ kept
        → AreBytes (contents w.1.world block)
        → Answers max_message_size ports block message max_size
            (store_read_next_unsent max_message_size ports fuel max_size w.1) in
      let Appends : StorePass W → Type 0 = λ p1.
        let a =
          by_records
            (RecordStore.append max_message_size ports.device ports.policy
              p1.sequence.write_sequence message)
            p1 in
        Fine (judge_append max_message_size ports a.0 size a.1) in
      let quiet : StorePass W = on_store (λ s. record s { eviction_reported = false }) p in
      let told : StorePass W =
        on_store (λ s. record s { eviction_reported = true })
          (report max_message_size ports severity_warning store_records_lost block_evicted p) in
      subst Fine
        (sym (
          write_goes max_message_size ports message p h.not_frozen h.works
            (lt→ltb 0 (length message) some_left)
            (ap (λ k. block_is_full k p.sequence) same_size ∙ space)))
        (if_lem Appends (not p.sequence.evicted_unsent) quiet
          (if not p.block_store.eviction_reported then told else p)
          (λ e.
            appended-Answers max_message_size ports contents law behind seals opens leaves message
              max_size fuel quiet
              (record {
                not_frozen = h.not_frozen;
                works = h.works;
                same_block = h.same_block;
                all_read = h.all_read;
                all_there = h.all_there;
              })
              room some_left long max fit small)
          (λ e.
            if_lem Appends (not p.block_store.eviction_reported) told p
              (λ first.
                appended-Answers max_message_size ports contents law behind seals opens leaves
                  message max_size fuel told
                  (record {
                    not_frozen = h.not_frozen;
                    works = h.works;
                    same_block = h.same_block;
                    all_read = h.all_read;
                    all_there =
                        h.all_there
                        ∙ ap length (
                            sym (
                              leaves.raise_leaves
                                (record {
                                  severity = severity_warning;
                                  category = store_records_lost;
                                  code = block_evicted;
                                })
                                p.world block));
                  })
                  room some_left long max fit small)
              (λ again.
                appended-Answers max_message_size ports contents law behind seals opens leaves
                  message max_size fuel p h room some_left long max fit small)))
