-- ===== src/RecordStore/Scan.antt =====
-- The scans of Core/Source/SolidSyslogRecordStore.c over the records of a block.
use solid_syslog.Base.{ℕ, zero, suc, Bool, true, false, ◌&&◌, ltb, byte_at, add_size, if◌then◌else◌}
use solid_syslog.RecordStore.{
  BlockDevice, SecurityPolicy, Pass, ReadResult, succeeded, end_of_data, corrupt, rejected,
  finished_with, could_not_open, device_failed, ScanResult, scan_clean, scan_corrupt,
  scan_device_failed, is_succeeded, scan_result_of, sent_flag_unsent, sent_flag_offset, record_size,
  flag_marks_sent_or_discarded, span_is_within_data, device_read, read_record_extent,
}

abbrev pub is_device_failed : ReadResult → Bool
is_device_failed succeeded = false
is_device_failed end_of_data = false
is_device_failed corrupt = false
is_device_failed rejected = false
is_device_failed finished_with = false
is_device_failed could_not_open = false
is_device_failed device_failed = true

abbrev pub is_corrupt : ReadResult → Bool
is_corrupt succeeded = false
is_corrupt end_of_data = false
is_corrupt corrupt = true
is_corrupt rejected = false
is_corrupt finished_with = false
is_corrupt could_not_open = false
is_corrupt device_failed = false

abbrev pub is_clean : ScanResult → Bool
is_clean scan_clean = true
is_clean scan_corrupt = false
is_clean scan_device_failed = false

-- where a scan stands, and what it met
pub record Scan : Type 0 where
  pub cursor : ℕ
  pub scanned : ScanResult

module _ {W : Type 0} (max_message_size : ℕ) (device : BlockDevice W)
    (policy : SecurityPolicy W) where
  -- the result of the read, and whether the flag marks the record as finished with; the flag is
  -- unsent where it is not read
  unfoldable pub is_record_sent_or_discarded : ℕ → ℕ → ℕ → ℕ → Pass W → (ReadResult × Bool) × Pass W
  is_record_sent_or_discarded block_index record_start len block_size p =
      let offset = sent_flag_offset max_message_size device policy record_start len in
      let (got, p1) = device_read max_message_size device policy block_index offset 1 p in
      let flag = byte_at got.1 0 in
      if span_is_within_data offset 1 block_size
      then ((if got.0 then succeeded else device_failed, flag_marks_sent_or_discarded flag), p1)
      else ((corrupt, flag_marks_sent_or_discarded sent_flag_unsent), p)

  abbrev pub skip_record : ℕ → ℕ → ℕ
  skip_record cursor len = add_size cursor (record_size max_message_size device policy len)

  -- what a round of `FindFirstUnsent` makes of what it read
  abbrev pub judge_record : Scan → ℕ → ℕ → ReadResult × Bool → Bool × Scan
  judge_record scan len block_size found =
      if is_device_failed found.0
      then (false, record { cursor = block_size; scanned = scan_device_failed })
      else if found.1
      then (true, record scan { cursor = skip_record scan.cursor len })
      else if is_corrupt found.0
      then (false, record { cursor = block_size; scanned = scan_corrupt })
      else (false, scan)

  unfoldable pub advance_past_sent_record : ℕ → Scan → ℕ → Pass W → (Bool × Scan) × Pass W
  advance_past_sent_record block_index scan block_size p =
      let (extent, p1) =
        read_record_extent max_message_size device policy block_index scan.cursor block_size p in
      let (flagged, p2) =
        is_record_sent_or_discarded block_index scan.cursor extent.1 block_size p1 in
      let found : (ReadResult × Bool) × Pass W =
        if is_succeeded extent.0 then (flagged, p2) else ((extent.0, false), p1) in
      (judge_record scan extent.1 block_size found.0, found.1)

  -- the loop of `FindFirstUnsent`; each round but the last steps over a record
  unfoldable pub find_loop : ℕ → Bool → ℕ → Scan → ℕ → Pass W → Scan × Pass W
  find_loop zero scanning block_index scan block_size p = (scan, p)
  find_loop (suc fuel) scanning block_index scan block_size p =
      let a = advance_past_sent_record block_index scan block_size p in
      let rest = find_loop fuel a.0.0 block_index a.0.1 block_size a.1 in
      if scanning && ltb scan.cursor block_size then rest else (scan, p)

  unfoldable pub find_first_unsent : ℕ → ℕ → Pass W → Scan × Pass W
  find_first_unsent block_index block_size p =
      find_loop (suc block_size) true block_index (record { cursor = 0; scanned = scan_clean })
        block_size p

  -- a round of `ScanToEnd`
  unfoldable pub scan_round : ℕ → Scan → ℕ → Pass W → Scan × Pass W
  scan_round block_index scan block_size p =
      let (extent, p1) =
        read_record_extent max_message_size device policy block_index scan.cursor block_size p in
      (
        if is_succeeded extent.0
            then record scan { cursor = skip_record scan.cursor extent.1 }
            else record scan { scanned = scan_result_of extent.0 },
        p1,
      )

  unfoldable pub scan_loop : ℕ → ℕ → Scan → ℕ → Pass W → Scan × Pass W
  scan_loop zero block_index scan block_size p = (scan, p)
  scan_loop (suc fuel) block_index scan block_size p =
      let a = scan_round block_index scan block_size p in
      let rest = scan_loop fuel block_index a.0 block_size a.1 in
      if is_clean scan.scanned && ltb scan.cursor block_size then rest else (scan, p)

  unfoldable pub scan_to_end : ℕ → ℕ → ℕ → Pass W → ScanResult × Pass W
  scan_to_end block_index cursor block_size p =
      let s =
        scan_loop (suc block_size) block_index (record { cursor = cursor; scanned = scan_clean })
          block_size p in
      (s.0.scanned, s.1)
