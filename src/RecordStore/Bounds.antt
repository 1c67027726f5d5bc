-- ===== src/RecordStore/Bounds.antt =====
-- The record store reads nothing behind the data of a block, whatever stands in it.
use solid_syslog.Base.{
  ℕ, zero, suc, ◌+◌, ◌^◌, ◌≤◌, ◌<◌, ◌≡◌, refl, Bool, true, false, ◌&&◌, List, [], ◌∷◌, arith,
  byte_at, blit, add_size, ltb, ltb→lt, leb→le, if◌then◌else◌, if_lem,
}
use solid_syslog.RecordStore.{
  BlockDevice, SecurityPolicy, Pass, Call, reads, ReadResult, succeeded, end_of_data, corrupt,
  rejected, finished_with, could_not_open, device_failed, content_header_size, trailer_offset,
  sent_flag_offset, with_buffer, validate_header, is_succeeded, record_extent_is_known,
  record_is_within_data, span_is_within_data, flag_reads_finished_with, sent_flag_unsent,
  flag_marks_sent_or_discarded, scan_clean, device_read, read_span, read_header, read_record_extent,
  open_record, read_whole_record, read_and_validate_record, remember_current_record, read,
}
use solid_syslog.RecordStore.Fits.{Fits, read_record_extent-Fits}
use solid_syslog.RecordStore.Scan.{
  Scan, is_clean, is_record_sent_or_discarded, advance_past_sent_record, find_loop,
  find_first_unsent, scan_round, scan_loop, scan_to_end,
}

-- Every read is of the block, and within its data.
abbrev pub AllWithin : ℕ → ℕ → List Call → Type 0
AllWithin block data_size [] = Unit {0}
AllWithin block data_size (reads b offset count read_ok ∷ cs) =
    ((b ≡ block) × (offset + count ≤ data_size)) × AllWithin block data_size cs
AllWithin block data_size (c ∷ cs) = AllWithin block data_size cs

module _ {W : Type 0} (max_message_size : ℕ) (device : BlockDevice W) (policy : SecurityPolicy W)
    (block data_size : ℕ)
    (small : data_size + (max_message_size + policy.trailer_size + 5) < 2 ^ 32) where
  abbrev Within : Pass W → Type 0
  Within p = AllWithin block data_size p.calls

  read_span-Within :
      (offset position count : ℕ) (p : Pass W)
      → offset + count < 2 ^ 32
      → Within p
      → Within (read_span max_message_size device policy block offset position count data_size p).1
  unfolding read_span
  read_span-Within offset position count p bound h =
      let got = device.read block offset count p.world in
      let p1 : Pass W = record p {
        world = got.1;
        calls = reads block offset count got.0.0 ∷ p.calls;
      } in
      if_lem (λ (x : ReadResult × Pass W). Within x.1) (span_is_within_data offset count data_size)
        (
          if got.0.0 then succeeded else device_failed,
          with_buffer p1 (blit p.store.buffer position got.0.1),
        )
        (corrupt, p)
        (λ within. ((refl, omega (arith, leb→le (add_size offset count) data_size within)), h))
        (λ beyond. h)

  read_header-Within :
      (c : ℕ) (p : Pass W)
      → Within p
      → Within (read_header max_message_size device policy block c data_size p).1
  unfolding read_header
  read_header-Within c p h =
      let span =
        read_span max_message_size device policy block c 0 content_header_size data_size p in
      let r = if ltb c data_size then span else (end_of_data, p) in
      let v = validate_header max_message_size device policy r.1.store.buffer in
      let here : Within r.1 =
        if_lem (λ (x : ReadResult × Pass W). Within x.1) (ltb c data_size) span (end_of_data, p)
          (λ inside.
            let less = ltb→lt c data_size inside in
            read_span-Within c 0 content_header_size p (omega arith) h)
          (λ past. h) in
      if_lem (λ (x : (ReadResult × ℕ) × Pass W). Within x.1) (is_succeeded r.0)
        ((if v.0 then succeeded else corrupt, v.1), r.1) ((r.0, 0), r.1) (λ ok. here) (λ bad. here)

  read_record_extent-Within :
      (c : ℕ) (p : Pass W)
      → Within p
      → Within (read_record_extent max_message_size device policy block c data_size p).1
  unfolding read_record_extent
  read_record_extent-Within c p h =
      let r = read_header max_message_size device policy block c data_size p in
      let whole = record_is_within_data max_message_size device policy c r.0.1 data_size in
      if_lem (λ (x : (ReadResult × ℕ) × Pass W). Within x.1) (is_succeeded r.0.0)
        ((if whole then succeeded else corrupt, r.0.1), r.1) (r.0, r.1)
        (λ ok. read_header-Within c p h) (λ bad. read_header-Within c p h)

  open_record-Within :
      (len : ℕ) (p : Pass W)
      → Within p
      → Within (open_record max_message_size device policy len p).1
  unfolding open_record
  open_record-Within len p h = h

  -- the reads behind the extent of a record
  read_whole_record-Within :
      (c len : ℕ) (result : ReadResult) (p : Pass W)
      → Fits max_message_size device policy block data_size small c (result, len)
      → Within p
      → Within
          (read_whole_record max_message_size device policy block c data_size len (result, p)).1
  read_whole_record-Within c len end_of_data p fits h = h
  read_whole_record-Within c len corrupt p fits h = h
  read_whole_record-Within c len rejected p fits h = h
  read_whole_record-Within c len finished_with p fits h = h
  read_whole_record-Within c len could_not_open p fits h = h
  read_whole_record-Within c len device_failed p fits h = h
  read_whole_record-Within c len succeeded p fits h =
      let (len_fits, whole) = fits refl in
      let message =
        read_span max_message_size device policy block (add_size c content_header_size)
          content_header_size len data_size p in
      let here =
        read_span-Within (add_size c content_header_size) content_header_size len p (omega arith)
          h in
      let next =
        read_span max_message_size device policy block (trailer_offset c len)
          (content_header_size + len) (policy.trailer_size + 1) data_size message.1 in
      let there =
        read_span-Within (trailer_offset c len) (content_header_size + len)
          (policy.trailer_size + 1) message.1 (omega arith) here in
      let trailer = if is_succeeded message.0 then next else message in
      let read_all : Within trailer.1 =
        if_lem (λ (x : ReadResult × Pass W). Within x.1) (is_succeeded message.0) next message
          (λ ok. there) (λ bad. here) in
      let judged : ReadResult × Pass W = (
        if flag_reads_finished_with max_message_size device policy len trailer.1
            then finished_with
            else succeeded,
        trailer.1,
      ) in
      let flag = if is_succeeded trailer.0 then judged else trailer in
      let kept : Within flag.1 =
        if_lem (λ (x : ReadResult × Pass W). Within x.1) (is_succeeded trailer.0) judged trailer
          (λ ok. read_all) (λ bad. read_all) in
      if_lem (λ (x : ReadResult × Pass W). Within x.1) (is_succeeded flag.0)
        (open_record max_message_size device policy len flag.1) flag
        (λ ok. open_record-Within len flag.1 kept) (λ bad. kept)

  read-Within :
      (c max_size : ℕ) (p : Pass W)
      → Within p
      → Within (read max_message_size device policy block c data_size max_size p).1
  unfolding read read_and_validate_record remember_current_record
  read-Within c max_size p h =
      let x = read_record_extent max_message_size device policy block c data_size p in
      let here = read_record_extent-Within c p h in
      let fits = read_record_extent-Fits max_message_size device policy block data_size small c p in
      let r =
        read_whole_record max_message_size device policy block c data_size x.0.1 (x.0.0, x.1) in
      let there = read_whole_record-Within c x.0.1 x.0.0 x.1 fits here in
      if_lem Within (record_extent_is_known r.0)
        (remember_current_record max_message_size device policy block c x.0.1 r.1) r.1
        (λ known. there) (λ unknown. there)

  advance-Within :
      (scan : Scan) (p : Pass W)
      → Within p
      → Within (advance_past_sent_record max_message_size device policy block scan data_size p).1
  unfolding advance_past_sent_record is_record_sent_or_discarded sent_flag_offset
  advance-Within scan p h =
      let x = read_record_extent max_message_size device policy block scan.cursor data_size p in
      let here = read_record_extent-Within scan.cursor p h in
      let fits =
        read_record_extent-Fits max_message_size device policy block data_size small scan.cursor
          p in
      let offset = sent_flag_offset max_message_size device policy scan.cursor x.0.1 in
      let (got, p1) = device_read max_message_size device policy block offset 1 x.1 in
      let flagged =
        is_record_sent_or_discarded max_message_size device policy block scan.cursor x.0.1 data_size
          x.1 in
      if_lem (λ (y : (ReadResult × Bool) × Pass W). Within y.1) (is_succeeded x.0.0) flagged
        ((x.0.0, false), x.1)
        (λ ok.
          let (len_fits, whole) = fits ok in
          if_lem (λ (y : (ReadResult × Bool) × Pass W). Within y.1)
            (span_is_within_data offset 1 data_size)
            (
              (
                if got.0 then succeeded else device_failed,
                flag_marks_sent_or_discarded (byte_at got.1 0),
              ),
              p1,
            )
            ((corrupt, flag_marks_sent_or_discarded sent_flag_unsent), x.1)
            (λ within. ((refl, omega arith), here)) (λ beyond. here))
        (λ bad. here)

  find_loop-Within :
      (fuel : ℕ) (scanning : Bool) (scan : Scan) (p : Pass W)
      → Within p
      → Within (find_loop max_message_size device policy fuel scanning block scan data_size p).1
  unfolding find_loop
  find_loop-Within zero scanning scan p h = h
  find_loop-Within (suc fuel) scanning scan p h =
      let a = advance_past_sent_record max_message_size device policy block scan data_size p in
      if_lem (λ (x : Scan × Pass W). Within x.1) (scanning && ltb scan.cursor data_size)
        (find_loop max_message_size device policy fuel a.0.0 block a.0.1 data_size a.1) (scan, p)
        (λ goes_on. find_loop-Within fuel a.0.0 a.0.1 a.1 (advance-Within scan p h)) (λ stops. h)

  scan_loop-Within :
      (fuel : ℕ) (scan : Scan) (p : Pass W)
      → Within p
      → Within (scan_loop max_message_size device policy fuel block scan data_size p).1
  unfolding scan_loop scan_round
  scan_loop-Within zero scan p h = h
  scan_loop-Within (suc fuel) scan p h =
      let a = scan_round max_message_size device policy block scan data_size p in
      if_lem (λ (x : Scan × Pass W). Within x.1)
        (is_clean scan.scanned && ltb scan.cursor data_size)
        (scan_loop max_message_size device policy fuel block a.0 data_size a.1) (scan, p)
        (λ goes_on. scan_loop-Within fuel a.0 a.1 (read_record_extent-Within scan.cursor p h))
        (λ stops. h)

  -- Whatever stands in the block and whatever the device answers, a Read, a search for the first record
  -- that was not sent and a scan to the end, from any place, read only bytes of the block that are
  -- within its data, if no call was logged before, and the data and the largest record have together
  -- less than 2 ^ 32 bytes.
  pub store-AllWithin :
      (c max_size : ℕ) (p : Pass W)
      → p.calls ≡ []
      → AllWithin block data_size
          (read max_message_size device policy block c data_size max_size p).1.calls
        × (AllWithin block data_size
              (find_first_unsent max_message_size device policy block data_size p).1.calls
            × AllWithin block data_size
                (scan_to_end max_message_size device policy block c data_size p).1.calls)
  unfolding find_first_unsent scan_to_end
  store-AllWithin c max_size p none_yet =
      let h : Within p = rw none_yet tt in
      (
        read-Within c max_size p h,
        (
          find_loop-Within (suc data_size) true (record { cursor = 0; scanned = scan_clean }) p h,
          scan_loop-Within (suc data_size) (record { cursor = c; scanned = scan_clean }) p h,
        ),
      )
