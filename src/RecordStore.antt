-- ===== src/RecordStore.antt =====
-- Core/Source/SolidSyslogRecordStore.c: records in the blocks of a device, each with a magic, its
-- length, its message, a trailer of the security policy and a flag that says whether it was sent.
-- The block device and the policy are the ports below, over a state of the world; an operation logs
-- its calls of the device, the last one first.
pub mod Scan
pub mod Fits
pub mod Remembered
pub mod Bounds
pub mod Spans
pub mod Shows
pub mod Contents
pub mod Extent
pub mod Marked
pub mod Unsent
pub mod Assembled
pub mod ReadBack
pub mod RoundTrip
pub mod Appended
pub mod Crc16Records
mod Tests
use solid_syslog.Base.{
  ℕ, zero, suc, ◌+◌, ◌-◌, ◌*◌, ◌/◌, ◌%◌, ◌^◌, bit_and, bit_or, Bool, true, false, not, ◌&&◌, ◌||◌,
  ◌==◌, ltb, leb, List, [], ◌∷◌, Bytes, byte_at, slice, blit, length, add_size, if◌then◌else◌,
}

-- `enum SolidSyslogSecurityPolicyOpenResult`
pub data OpenResult : Type 0 where
  open_rejected open_opened open_could_not_run : OpenResult

-- `enum SolidSyslogRecordStoreAppendResult`
pub data AppendResult : Type 0 where
  append_succeeded append_seal_failed append_device_failed : AppendResult

-- `enum SolidSyslogRecordStoreReadResult`
pub data ReadResult : Type 0 where
  succeeded end_of_data corrupt rejected finished_with could_not_open device_failed : ReadResult

-- `enum SolidSyslogRecordStoreMarkResult`
pub data MarkResult : Type 0 where
  mark_succeeded mark_nothing_read mark_device_failed : MarkResult

-- `enum SolidSyslogRecordStoreScanResult`
pub data ScanResult : Type 0 where
  scan_clean scan_corrupt scan_device_failed : ScanResult

-- What is read goes into the buffer, whether the read succeeded or not.
pub record BlockDevice (W : Type 0) : Type 0 where
  pub read : ℕ → ℕ → ℕ → W → (Bool × Bytes) × W
  pub append : ℕ → Bytes → W → Bool × W
  pub write_at : ℕ → ℕ → Bytes → W → Bool × W

-- A policy takes the length of the header and the content. Sealing answers with the content, which
-- it may have encrypted, and a trailer; opening takes the trailer and answers with the content.
pub record SecurityPolicy (W : Type 0) : Type 0 where
  pub trailer_size : ℕ
  pub seal_record : ℕ → Bytes → W → (Bool × (Bytes × Bytes)) × W
  pub open_record : ℕ → Bytes → Bytes → W → (OpenResult × Bytes) × W

-- a call of the device: block, offset, how many bytes or which, and whether it succeeded
pub data Call : Type 0 where
  reads : ℕ → ℕ → ℕ → Bool → Call
  appends : ℕ → Bytes → Bool → Call
  writes_at : ℕ → ℕ → Bytes → Bool → Call

pub record RecordStore : Type 0 where
  pub has_read_record : Bool
  pub last_read_block_index : ℕ
  pub last_sent_flag_offset : ℕ
  pub buffer : Bytes

pub record Pass (W : Type 0) : Type 0 where
  pub store : RecordStore
  pub world : W
  pub calls : List Call

abbrev pub magic_byte_0 : ℕ
magic_byte_0 = 0xA5

abbrev pub magic_byte_1 : ℕ
magic_byte_1 = 0x5A

abbrev pub content_header_size : ℕ
content_header_size = 4

abbrev pub sent_flag_unsent : ℕ
sent_flag_unsent = 0xFF

abbrev pub sent_flag_sent : ℕ
sent_flag_sent = 0

abbrev pub sent_flag_discarded : ℕ
sent_flag_discarded = 0x0F

-- the record store over a buffer, whatever it held
unfoldable pub initialise : Bytes → RecordStore
initialise buffer = record {
  has_read_record = false;
  last_read_block_index = 0;
  last_sent_flag_offset = 0;
  buffer = buffer;
}

abbrev pub content_size : ℕ → ℕ
content_size data_size = (content_header_size + data_size) % 2 ^ 16

abbrev pub trailer_offset : ℕ → ℕ → ℕ
trailer_offset record_start data_length = add_size record_start (content_header_size + data_length)

abbrev pub flag_marks_sent_or_discarded : ℕ → Bool
flag_marks_sent_or_discarded flag = flag == sent_flag_sent || flag == sent_flag_discarded

abbrev pub span_is_within_data : ℕ → ℕ → ℕ → Bool
span_is_within_data offset count data_size = leb (add_size offset count) data_size

abbrev pub is_magic_valid : Bytes → Bool
is_magic_valid buffer = byte_at buffer 0 == magic_byte_0 && byte_at buffer 1 == magic_byte_1

unfoldable pub record_length : Bytes → ℕ
record_length buffer = bit_or (byte_at buffer 2) (byte_at buffer 3 * 2 ^ 8 % 2 ^ 16)

abbrev pub is_succeeded : ReadResult → Bool
is_succeeded succeeded = true
is_succeeded end_of_data = false
is_succeeded corrupt = false
is_succeeded rejected = false
is_succeeded finished_with = false
is_succeeded could_not_open = false
is_succeeded device_failed = false

abbrev pub record_extent_is_known : ReadResult → Bool
record_extent_is_known succeeded = true
record_extent_is_known end_of_data = false
record_extent_is_known corrupt = false
record_extent_is_known rejected = true
record_extent_is_known finished_with = true
record_extent_is_known could_not_open = false
record_extent_is_known device_failed = false

abbrev pub scan_result_of : ReadResult → ScanResult
scan_result_of succeeded = scan_corrupt
scan_result_of end_of_data = scan_corrupt
scan_result_of corrupt = scan_corrupt
scan_result_of rejected = scan_corrupt
scan_result_of finished_with = scan_corrupt
scan_result_of could_not_open = scan_corrupt
scan_result_of device_failed = scan_device_failed

abbrev pub verdict : OpenResult → ReadResult
verdict open_opened = succeeded
verdict open_rejected = rejected
verdict open_could_not_run = could_not_open

abbrev pub bounded_size : ℕ → ℕ → ℕ
bounded_size length max_size = if ltb length max_size then length else max_size

abbrev pub with_buffer : {W : Type 0} → Pass W → Bytes → Pass W
with_buffer p buffer = record p { store = record p.store { buffer = buffer } }

-- `max_message_size` is the tunable SOLIDSYSLOG_MAX_MESSAGE_SIZE.
module _ {W : Type 0} (max_message_size : ℕ) (device : BlockDevice W)
    (policy : SecurityPolicy W) where
  unfoldable pub sent_flag_offset : ℕ → ℕ → ℕ
  sent_flag_offset record_start data_length =
      add_size (trailer_offset record_start data_length) policy.trailer_size

  abbrev pub record_size : ℕ → ℕ
  record_size data_length = content_header_size + data_length + policy.trailer_size + 1

  abbrev pub sent_flag_address : ℕ → ℕ
  sent_flag_address data_size = content_header_size + data_size + policy.trailer_size

  unfoldable pub assemble_record : Bytes → Pass W → Bool × Pass W
  assemble_record message p =
      let size = length message in
      let len = size % 2 ^ 16 in
      let b0 = blit p.store.buffer 0 (magic_byte_0 ∷ magic_byte_1 ∷ []) in
      let b1 = blit b0 2 (bit_and len 0xFF ∷ bit_and (len / 2 ^ 8) 0xFF ∷ []) in
      let b2 = blit b1 content_header_size message in
      let (sealed, w) =
        policy.seal_record content_header_size (slice b2 0 (content_size size)) p.world in
      let b3 = blit b2 0 sealed.1.0 in
      let b4 = blit b3 (content_header_size + size) sealed.1.1 in
      let b5 = blit b4 (sent_flag_address size) (sent_flag_unsent ∷ []) in
      (sealed.0, with_buffer (record p { world = w }) b5)

  unfoldable pub append : ℕ → Bytes → Pass W → AppendResult × Pass W
  append block_index message p =
      let (sealed, p1) = assemble_record message p in
      let image = slice p1.store.buffer 0 (record_size (length message % 2 ^ 16)) in
      let (appended, w) = device.append block_index image p1.world in
      if sealed
      then (
        if appended then append_succeeded else append_device_failed,
        record p1 { world = w; calls = appends block_index image appended ∷ p1.calls },
      )
      else (append_seal_failed, p1)

  -- a read of the device to where `buf` points
  abbrev pub device_read : ℕ → ℕ → ℕ → Pass W → (Bool × Bytes) × Pass W
  device_read block_index offset count p =
      let (got, w) = device.read block_index offset count p.world in
      (got, record p { world = w; calls = reads block_index offset count got.0 ∷ p.calls })

  -- `ReadSpan` into the buffer, from `position` on
  unfoldable pub read_span : ℕ → ℕ → ℕ → ℕ → ℕ → Pass W → ReadResult × Pass W
  read_span block_index offset position count data_size p =
      let (got, p1) = device_read block_index offset count p in
      if span_is_within_data offset count data_size
      then (
        if got.0 then succeeded else device_failed,
        with_buffer p1 (blit p1.store.buffer position got.1),
      )
      else (corrupt, p)

  abbrev pub is_valid_length : ℕ → Bool
  is_valid_length len = ltb 0 len && leb len max_message_size

  -- whether the header is valid, and the length that it says
  abbrev pub validate_header : Bytes → Bool × ℕ
  validate_header buffer =
      let len = record_length buffer in
      if is_magic_valid buffer then (is_valid_length len, len) else (false, 0)

  unfoldable pub read_header : ℕ → ℕ → ℕ → Pass W → (ReadResult × ℕ) × Pass W
  read_header block_index offset data_size p =
      let r =
        if ltb offset data_size
        then read_span block_index offset 0 content_header_size data_size p
        else (end_of_data, p) in
      let (valid, len) = validate_header r.1.store.buffer in
      if is_succeeded r.0
      then ((if valid then succeeded else corrupt, len), r.1)
      else ((r.0, 0), r.1)

  abbrev pub record_is_within_data : ℕ → ℕ → ℕ → Bool
  record_is_within_data offset len data_size =
      span_is_within_data offset (record_size len) data_size

  unfoldable pub read_record_extent : ℕ → ℕ → ℕ → Pass W → (ReadResult × ℕ) × Pass W
  read_record_extent block_index offset data_size p =
      let (h, p1) = read_header block_index offset data_size p in
      if is_succeeded h.0
      then ((if record_is_within_data offset h.1 data_size then succeeded else corrupt, h.1), p1)
      else (h, p1)

  unfoldable pub open_record : ℕ → Pass W → ReadResult × Pass W
  open_record len p =
      let buffer = p.store.buffer in
      let (opened, w) =
        policy.open_record content_header_size (slice buffer 0 (content_size len))
          (slice buffer (content_header_size + len) policy.trailer_size) p.world in
      (verdict opened.0, with_buffer (record p { world = w }) (blit buffer 0 opened.1))

  abbrev pub flag_reads_finished_with : ℕ → Pass W → Bool
  flag_reads_finished_with len p =
      flag_marks_sent_or_discarded (byte_at p.store.buffer (sent_flag_address len))

  -- a step of the chain of reads: made if all before it succeeded
  abbrev pub when_succeeded :
      ReadResult × Pass W → (Pass W → ReadResult × Pass W) → ReadResult × Pass W
  when_succeeded r step = let next = step r.1 in if is_succeeded r.0 then next else r

  -- the reads and checks behind the extent of a record
  abbrev pub read_whole_record : ℕ → ℕ → ℕ → ℕ → ReadResult × Pass W → ReadResult × Pass W
  read_whole_record block_index offset data_size len extent =
      let message = when_succeeded extent (
        read_span block_index (add_size offset content_header_size) content_header_size len
          data_size) in
      let trailer = when_succeeded message (
        read_span block_index (trailer_offset offset len) (content_header_size + len)
          (policy.trailer_size + 1) data_size) in
      let flag =
        when_succeeded trailer
          (λ q. (if flag_reads_finished_with len q then finished_with else succeeded, q)) in
      when_succeeded flag (open_record len)

  unfoldable pub read_and_validate_record : ℕ → ℕ → ℕ → Pass W → (ReadResult × ℕ) × Pass W
  read_and_validate_record block_index offset data_size p =
      let (extent, p1) = read_record_extent block_index offset data_size p in
      let r = read_whole_record block_index offset data_size extent.1 (extent.0, p1) in
      ((r.0, extent.1), r.1)

  unfoldable pub remember_current_record : ℕ → ℕ → ℕ → Pass W → Pass W
  remember_current_record block_index offset len p = record p {
    store = record p.store {
      last_read_block_index = block_index;
      last_sent_flag_offset = sent_flag_offset offset len;
      has_read_record = true;
    };
  }

  -- the result, and the bytes copied to the caller
  unfoldable pub read : ℕ → ℕ → ℕ → ℕ → Pass W → (ReadResult × Bytes) × Pass W
  read block_index offset data_size max_size p =
      let (found, p1) = read_and_validate_record block_index offset data_size p in
      let p2 =
        if record_extent_is_known found.0
        then remember_current_record block_index offset found.1 p1
        else p1 in
      (
        (
          found.0,
          if is_succeeded found.0
              then slice p2.store.buffer content_header_size (bounded_size found.1 max_size)
              else [],
        ),
        p2,
      )

  unfoldable pub write_sent_flag : Pass W → Bool × Pass W
  write_sent_flag p =
      let block_index = p.store.last_read_block_index in
      let offset = p.store.last_sent_flag_offset in
      let (written, w) = device.write_at block_index offset (sent_flag_sent ∷ []) p.world in
      (
        written,
        record p {
          world = w;
          calls = writes_at block_index offset (sent_flag_sent ∷ []) written ∷ p.calls;
        },
      )

  unfoldable pub forget_last_read : Pass W → Pass W
  forget_last_read p = record p { store = record p.store { has_read_record = false } }

  -- `next_cursor` stays as it was unless the mark succeeds
  unfoldable pub mark_last_read_as_sent : ℕ → Pass W → (MarkResult × ℕ) × Pass W
  mark_last_read_as_sent next_cursor p =
      let (written, p1) = write_sent_flag p in
      let next = add_size p1.store.last_sent_flag_offset 1 in
      if p.store.has_read_record
      then (if written
          then ((mark_succeeded, next), forget_last_read p1)
          else ((mark_device_failed, next_cursor), p1))
      else ((mark_nothing_read, next_cursor), p)

  unfoldable pub step_past_last_read : Pass W → ℕ × Pass W
  step_past_last_read p = (add_size p.store.last_sent_flag_offset 1, forget_last_read p)
