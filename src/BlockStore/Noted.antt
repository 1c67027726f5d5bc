-- ===== src/BlockStore/Noted.antt =====
-- A record that was appended and noted: where it stands, and that the read finds it.
use solid_syslog.Base.{
  ℕ, ◌+◌, ◌%◌, ◌^◌, ◌≤◌, ◌<◌, ◌≡◌, refl, sym, subst, ◌∙◌, true, false, ==_iff, lt→ltb, Bytes, arith,
  length,
}
use solid_syslog.Service.{kept}
use solid_syslog.RecordStore.{
  BlockDevice, ReadResult, succeeded, could_not_open, device_failed, AppendResult, append_succeeded,
  append_seal_failed, append_device_failed, record_size,
}
use solid_syslog.RecordStore.Contents.{IsDevice}
use solid_syslog.RecordStore.Extent.{AreBytes}
use solid_syslog.RecordStore.Assembled.{content_of, SealsInPlace}
use solid_syslog.RecordStore.ReadBack.{Stored}
use solid_syslog.RecordStore.RoundTrip.{Stored-GivesBack}
use solid_syslog.RecordStore.Appended.{AppendsBehind, OpensItsOwn, append-Stored}
use solid_syslog.BlockSequence.{
  BlockSequence, block_is_full, prepare_for_write, note_record_written, notify_enabled, call_back,
  has_unsent, read_block_size_of, on_sequence, is_above_threshold,
}
use solid_syslog.Base.{add_size}
use solid_syslog.BlockSequence.{block_evicted}
use solid_syslog.BlockSequence.Sound.{notify-Keeps}
use solid_syslog.BlockStore.{
  StorePorts, StorePass, by_records, judge_append, store_read_next_unsent,
}
use solid_syslog.RecordStore
use solid_syslog.BlockSequence
use solid_syslog.BlockStore.Answers.{
  Answers, read_written-Answers, LeavesBlocks, notify-leaves, kept-succeeded, HasNothing,
}
use solid_syslog.RecordStore.Remembered.{RemembersAt, read-RemembersAt}
use solid_syslog.RecordStore.{sent_flag_offset, succeeded}
use solid_syslog.Base.{Bool, ==_iff, ◌==◌}
use solid_syslog.RecordStore.ReadBack.{OpensAs}

module _ {W : Type 0} (max_message_size : ℕ) (ports : StorePorts W) (contents : W → ℕ → Bytes)
    (law : IsDevice ports.device contents) (behind : AppendsBehind ports.device contents)
    (seals : SealsInPlace ports.policy) (opens : OpensItsOwn ports.policy contents)
    (leaves : LeavesBlocks max_message_size ports contents) where
  module _ (message : Bytes) (max_size fuel : ℕ) (p : StorePass W)
      (h : HasNothing max_message_size ports contents p) (room : 0 < max_size)
      (some_left : 0 < length message) (long : length message ≤ max_message_size)
      (max : max_message_size ≤ 65531)
      (fit : 4 + length message + ports.policy.trailer_size + 1 ≤ length p.records.buffer)
      (small : p.sequence.write_position
          + (4 + length message + ports.policy.trailer_size + 1)
          + (max_message_size + ports.policy.trailer_size + 5)
        < 2 ^ 32) where
    abbrev block : ℕ
    block = p.sequence.write_sequence

    abbrev size : ℕ
    size = record_size max_message_size ports.device ports.policy (length message % 2 ^ 16)

    abbrev whole : ℕ
    whole = 4 + length message + ports.policy.trailer_size + 1

    abbrev appended : AppendResult × StorePass W
    appended =
        by_records (RecordStore.append max_message_size ports.device ports.policy block message) p

    -- the sequence and the world once the record is noted
    abbrev noted : BlockSequence.Pass W
    noted =
        note_record_written ports.block_ports size
          (record { sequence = p.sequence; world = appended.1.world })

    -- the record is between the cursor and the end of the block
    record IsPlaced (t : BlockSequence) : Type 0 where
      is_read : t.read_sequence ≡ block
      is_written : t.write_sequence ≡ block
      at_cursor : t.read_cursor ≡ p.sequence.write_position
      at_end : t.write_position ≡ p.sequence.write_position + whole
      still_works : t.device_failed ≡ false

    noted-IsPlaced : IsPlaced noted.sequence
    unfolding note_record_written
    noted-IsPlaced =
        let s = p.sequence in
        let noted_at : BlockSequence = record s {
          write_position = add_size s.write_position size;
          at_capacity = false;
        } in
        let here : IsPlaced noted_at = record {
          is_read = h.same_block;
          is_written = refl;
          at_cursor = h.all_read;
          at_end = omega arith;
          still_works = h.works;
        } in
        notify-Keeps 0 ports.block_ports IsPlaced ports.block_ports.get_capacity_threshold
          (record { sequence = noted_at; world = appended.1.world }) here
          (λ b. record {
            is_read = here.is_read;
            is_written = here.is_written;
            at_cursor = here.at_cursor;
            at_end = here.at_end;
            still_works = here.still_works;
          })

    noted_block : contents noted.world block ≡ contents appended.1.world block
    unfolding note_record_written
    noted_block =
        let s = p.sequence in
        notify-leaves max_message_size ports contents leaves
          ports.block_ports.get_capacity_threshold
          (record {
            sequence = record s {
              write_position = add_size s.write_position size;
              at_capacity = false;
            };
            world = appended.1.world;
          })
          block refl

    abbrev seal : (Bool × (Bytes × Bytes)) × W
    seal = ports.policy.seal_record 4 (content_of message) p.world

    -- what stands in the block then
    noted-Stored :
        appended.0 ≡ append_succeeded
        → Stored ports.policy.trailer_size
            (contents noted.world block)
            p.sequence.write_position
            message
            seal.0.1.0
            seal.0.1.1
          × ((seal.0.0 ≡ true) × (length appended.1.records.buffer ≡ length p.records.buffer))
    noted-Stored done =
        let (stored, sealed) =
          append-Stored max_message_size ports.device ports.policy contents law behind seals opens
            block message (record { store = p.records; world = p.world; calls = p.calls })
            (omega arith) fit done in
        let Stands : Bytes → ℕ → Type 0 =
          λ b c. Stored ports.policy.trailer_size b c message seal.0.1.0 seal.0.1.1 in
        (
          subst (λ (b : Bytes). Stands b p.sequence.write_position) (sym noted_block)
              (subst (Stands (contents appended.1.world block)) (sym h.all_there) stored),
          sealed,
        )

    -- The record that was noted is what the read gives, and remembers.
    noted-Answers :
        appended.0 ≡ append_succeeded
        → let j = judge_append max_message_size ports append_succeeded size appended.1 in
          AreBytes (contents j.1.world block)
          → Answers max_message_size ports block message max_size
              (store_read_next_unsent max_message_size ports fuel max_size j.1)
    unfolding judge_append sent_flag_offset
    noted-Answers done bytes =
        let at = p.sequence.write_position in
        let t = noted.sequence in
        let placed = noted-IsPlaced in
        let (stands, (sealed, same_size)) = noted-Stored done in
        let r : RecordStore.Pass W = record {
          store = appended.1.records;
          world = noted.world;
          calls = appended.1.calls;
        } in
        let opened : OpensAs ports.policy message seal.0.1.0 seal.0.1.1 =
          λ v. opens.opens_own (content_of message) p.world v sealed in
        let back =
          Stored-GivesBack max_message_size ports.device ports.policy contents law block
            (at + whole) message seal.0.1.0 seal.0.1.1 at max_size r stands opened some_left long
            (omega arith) (omega arith) small bytes (omega (arith, same_size, fit)) in
        let remembered =
          read-RemembersAt max_message_size ports.device ports.policy contents law block
            (at + whole) message seal.0.1.0 seal.0.1.1 at max_size r stands opened some_left long
            (omega arith) (omega arith) small bytes (omega (arith, same_size, fit)) in
        let z =
          RecordStore.read max_message_size ports.device ports.policy t.read_sequence t.read_cursor
            t.write_position max_size r in
        let known : z.0.0 ≡ succeeded
            → RemembersAt max_message_size ports.device ports.policy contents law block (at + whole)
                at (length message) z.1 =
          rw (placed.is_read, placed.at_cursor, placed.at_end) remembered in
        let same : (t.read_sequence == t.write_sequence) ≡ true =
          (==_iff t.read_sequence t.write_sequence).1 (placed.is_read ∙ sym placed.is_written) in
        read_written-Answers max_message_size ports block message max_size fuel
          (judge_append max_message_size ports append_succeeded size appended.1).1 room some_left
          h.not_frozen same
          (lt→ltb t.read_cursor t.write_position (omega (arith, placed.at_cursor, placed.at_end)))
          (rw (placed.is_read, placed.at_cursor, placed.at_end) back)
          (λ ok. record {
            not_frozen = h.not_frozen;
            works = placed.still_works;
            same_block = same;
            was_read = (known ok).0;
            at_end = omega (arith, (known ok).1, placed.at_end);
          })

    pub appended-Answers :
        let j = judge_append max_message_size ports appended.0 size appended.1 in
        j.0 ≡ kept
        → AreBytes (contents j.1.world block)
        → Answers max_message_size ports block message max_size
            (store_read_next_unsent max_message_size ports fuel max_size j.1)
    appended-Answers is_kept =
        let done = kept-succeeded max_message_size ports appended.0 size appended.1 is_kept in
        subst
          (λ r.
            let j = judge_append max_message_size ports r size appended.1 in
            AreBytes (contents j.1.world block)
            → Answers max_message_size ports block message max_size
                (store_read_next_unsent max_message_size ports fuel max_size j.1))
          (sym done) (noted-Answers done)
