-- ===== src/RecordStore/Tests.antt =====
-- A block of memory with the CRC-16 policy, and the theorems there.
use solid_syslog.Base.{◌≡◌, refl, true, [], ◌∷◌, arith, replicate, Bytes, slice, blit}
use solid_syslog.Crc16.{bit_loop, byte_loop, compute, crc16_seal_record}
use solid_syslog.RecordStore.{
  Pass, initialise, append_succeeded, append, assemble_record, read, read_record_extent,
  read_header, read_span, record_length, sent_flag_offset,
}
use solid_syslog.RecordStore.Scan.{
  find_first_unsent, find_loop, advance_past_sent_record, is_record_sent_or_discarded, scan_to_end,
}
use solid_syslog.RecordStore.Bounds.{AllWithin, store-AllWithin}
use solid_syslog.RecordStore.Extent.{AreBytes}
use solid_syslog.RecordStore.Marked.{FirstUnsent}
use solid_syslog.RecordStore.Unsent.{find_first_unsent-FirstUnsent}
use solid_syslog.RecordStore.RoundTrip.{GivesBack}
use solid_syslog.RecordStore.Appended.{append-GivesBack}
use solid_syslog.RecordStore.Crc16Records.{
  all_bytes, all_bytes-AreBytes, crc16_policy, crc16_policy-SealsInPlace, crc16_policy-OpensItsOwn,
  memory_block, memory_contents, memory_block-IsDevice, memory_block-AppendsBehind,
}

abbrev message : Bytes
message = b'h' ∷ b'i' ∷ []

-- a store with room for messages of 64 bytes, on a block that holds these bytes
abbrev over : Bytes → Pass Bytes
over block = record { store = initialise (replicate 80 0); world = block; calls = [] }

-- the block behind an append of the message
abbrev appended : Pass Bytes
appended = (append 64 memory_block crc16_policy 0 message (over [])).1

append_goes : (append 64 memory_block crc16_policy 0 message (over [])).0 ≡ append_succeeded
unfolding append assemble_record
append_goes = refl

appended_small : all_bytes (memory_contents appended.world 0) ≡ true
unfolding append assemble_record initialise blit slice compute byte_loop bit_loop crc16_seal_record
appended_small = refl

appended-AreBytes : AreBytes (memory_contents appended.world 0)
appended-AreBytes = all_bytes-AreBytes (memory_contents appended.world 0) appended_small

append-GivesBack_example :
    GivesBack memory_block crc16_policy 0 message 64
      (read 64 memory_block crc16_policy 0 0 9 64 appended).0
unfolding initialise
append-GivesBack_example =
    append-GivesBack 64 memory_block crc16_policy memory_contents memory_block-IsDevice
      memory_block-AppendsBehind crc16_policy-SealsInPlace
      (crc16_policy-OpensItsOwn memory_contents) 0 message 64 (over []) (omega arith) (omega arith)
      (omega arith) (omega arith) (omega arith) append_goes appended-AreBytes

-- a record that was sent, one that was not, and a cut one
abbrev used_block : Bytes
used_block =
    0xA5 ∷ 0x5A ∷ 1 ∷ 0 ∷ b'a' ∷ 0 ∷ 0 ∷ 0 ∷ 0xA5 ∷ 0x5A ∷ 1 ∷ 0 ∷ b'b' ∷ 0 ∷ 0 ∷ 0xFF ∷ 0xA5 ∷ []

second_is_unsent :
    (find_first_unsent 64 memory_block crc16_policy 0 17 (over used_block)).0.cursor ≡ 8
unfolding find_first_unsent find_loop advance_past_sent_record is_record_sent_or_discarded
    read_record_extent read_header read_span initialise blit slice record_length sent_flag_offset
second_is_unsent = refl

find_first_unsent-FirstUnsent_example :
    FirstUnsent memory_block 0 64 2 used_block 17
      (find_first_unsent 64 memory_block crc16_policy 0 17 (over used_block)).0
unfolding initialise
find_first_unsent-FirstUnsent_example =
    find_first_unsent-FirstUnsent 64 memory_block crc16_policy memory_contents memory_block-IsDevice
      0 17 used_block (all_bytes-AreBytes used_block refl) (omega arith) (over used_block) refl
      (omega arith)

store-AllWithin_example :
    AllWithin 0 17 (read 64 memory_block crc16_policy 0 8 17 64 (over used_block)).1.calls
    × (AllWithin 0 17
          (find_first_unsent 64 memory_block crc16_policy 0 17 (over used_block)).1.calls
        × AllWithin 0 17
            (scan_to_end 64 memory_block crc16_policy 0 8 17 (over used_block)).1.calls)
store-AllWithin_example =
    store-AllWithin 64 memory_block crc16_policy 0 17 (omega arith) 8 64 (over used_block) refl
