-- ===== src/BlockStore/Drained.antt =====
-- What a mark leaves of a store whose last record was read.
use mathlib.Core.Bool.{false≢true}
use solid_syslog.Base.{
  ℕ, ◌≡◌, ◌⊎◌, refl, sym, ◌∙◌, true, false, inl, inr, if_lem, ◌==◌, arith, add_size, [], ◌∷◌,
  if◌then◌else◌,
}
use solid_syslog.RecordStore.{
  BlockDevice, MarkResult, mark_succeeded, mark_nothing_read, mark_device_failed, writes_at,
  mark_last_read_as_sent, write_sent_flag, forget_last_read, sent_flag_sent,
}
use solid_syslog.BlockSequence.{has_unsent, set_read_cursor, dispose_read_block_if_drained}
use solid_syslog.BlockStore.{
  StorePorts, StorePass, on_blocks, freeze, freeze_if_device_failed, judge_mark, mark_sent,
  store_mark_sent,
}
use solid_syslog.RecordStore

-- a device that can fail to overwrite a byte of the block
pub record WriteFails {W : Type 0} (device : BlockDevice W) : Type 0 where
  pub of_block : ℕ
  pub at_offset : ℕ
  pub in_world : W
  pub fails : (device.write_at of_block at_offset (sent_flag_sent ∷ []) in_world).0 ≡ false

module _ {W : Type 0} (max_message_size : ℕ) (ports : StorePorts W) where
  -- nothing is unsent; or the store froze, of a device that can fail
  abbrev pub Drained : StorePass W → Type 0
  Drained q =
      ((q.block_store.frozen ≡ false) × (has_unsent q.sequence ≡ false))
      ⊎ ((q.block_store.frozen ≡ true) × WriteFails ports.device)

  -- the last record of the block that is written, read and not marked yet
  pub record IsLast (q : StorePass W) : Type 0 where
    pub not_frozen : q.block_store.frozen ≡ false
    pub works : q.sequence.device_failed ≡ false
    pub same_block : (q.sequence.read_sequence == q.sequence.write_sequence) ≡ true
    pub was_read : q.records.has_read_record ≡ true
    pub at_end : add_size q.records.last_sent_flag_offset 1 ≡ q.sequence.write_position

  -- A mark that succeeded moves the cursor to the end, and there is no block to leave.
  judge_mark-Drained :
      (next_cursor : ℕ) (q : StorePass W)
      → q.block_store.frozen ≡ false
      → q.sequence.device_failed ≡ false
      → (q.sequence.read_sequence == q.sequence.write_sequence) ≡ true
      → next_cursor ≡ q.sequence.write_position
      → Drained (judge_mark max_message_size ports mark_succeeded next_cursor q)
  unfolding judge_mark dispose_read_block_if_drained freeze_if_device_failed
  judge_mark-Drained next_cursor q not_frozen works same at_end =
      let moved = on_blocks (set_read_cursor next_cursor) q in
      let nothing_left : has_unsent moved.sequence ≡ false = rw (same, at_end) (ground arith) in
      rw (same, works) (inl (not_frozen, nothing_left))

  mark_sent-Drained : (q : StorePass W) → IsLast q → Drained (mark_sent max_message_size ports q)
  unfolding mark_sent mark_last_read_as_sent write_sent_flag freeze judge_mark forget_last_read
  mark_sent-Drained q h =
      let block = q.records.last_read_block_index in
      let offset = q.records.last_sent_flag_offset in
      let next = add_size offset 1 in
      let (written, w) = ports.device.write_at block offset (sent_flag_sent ∷ []) q.world in
      let p1 : RecordStore.Pass W = record {
        store = q.records;
        world = w;
        calls = writes_at block offset (sent_flag_sent ∷ []) written ∷ q.calls;
      } in
      let forgotten : RecordStore.Pass W = record p1 {
        store = record q.records { has_read_record = false };
      } in
      let unread : RecordStore.Pass W = record {
        store = q.records;
        world = q.world;
        calls = q.calls;
      } in
      let Fine : (MarkResult × ℕ) × RecordStore.Pass W → Type 0 = λ z. Drained (
        judge_mark max_message_size ports z.0.0 z.0.1
          (record q { records = z.1.store; world = z.1.world; calls = z.1.calls })) in
      let marked : (MarkResult × ℕ) × RecordStore.Pass W =
        if written then ((mark_succeeded, next), forgotten) else ((mark_device_failed, 0), p1) in
      if_lem Fine q.records.has_read_record marked ((mark_nothing_read, 0), unread)
        (λ read.
          if_lem Fine written ((mark_succeeded, next), forgotten) ((mark_device_failed, 0), p1)
            (λ ok.
              judge_mark-Drained next
                (record q {
                  records = forgotten.store;
                  world = forgotten.world;
                  calls = forgotten.calls;
                })
                h.not_frozen h.works h.same_block h.at_end)
            (λ failed. inr (
              refl,
              record { of_block = block; at_offset = offset; in_world = q.world; fails = failed },
            )))
        (λ unread. absurd (false≢true (sym unread ∙ h.was_read)))

  pub store_mark_sent-Drained :
      (q : StorePass W) → IsLast q → Drained (store_mark_sent max_message_size ports q)
  store_mark_sent-Drained q h =
      if_lem Drained q.block_store.frozen q (mark_sent max_message_size ports q)
        (λ frozen. absurd (false≢true (sym h.not_frozen ∙ frozen))) (λ works. mark_sent-Drained q h)
