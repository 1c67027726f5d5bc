-- ===== src/BlockStore/Failures/Scans.antt =====
-- The calls of the device that fail in the scans of a block.
use mathlib.Core.Bool.{false≢true}
use solid_syslog.Base.{
  ℕ, zero, suc, ◌≡◌, inl, inr, refl, sym, ◌∙◌, Bool, true, false, Bool-cases, if_lem, ◌&&◌, ltb,
  and_true, byte_at, if◌then◌else◌,
}
use solid_syslog.BlockStore.{is_scan_failed}
use solid_syslog.RecordStore.{
  BlockDevice, SecurityPolicy, Pass, ReadResult, succeeded, end_of_data, corrupt, finished_with,
  device_failed, ScanResult, scan_clean, scan_corrupt, scan_device_failed, rejected, could_not_open,
  is_succeeded, scan_result_of, sent_flag_unsent, flag_marks_sent_or_discarded, span_is_within_data,
  device_read, read_record_extent, sent_flag_offset,
}
use solid_syslog.RecordStore.Scan.{
  Scan, is_device_failed, is_corrupt, is_clean, is_record_sent_or_discarded, skip_record,
  judge_record, advance_past_sent_record, find_loop, find_first_unsent, scan_round, scan_loop,
  scan_to_end,
}
use solid_syslog.BlockStore.Failures.{
  any_failed, succeeded_works, read_answer, read_record_extent-Told,
}

scan_answer :
    (r : ReadResult)
    → is_succeeded r ≡ false
    → is_scan_failed (scan_result_of r) ≡ is_device_failed r
scan_answer succeeded e = refl
scan_answer end_of_data e = refl
scan_answer corrupt e = refl
scan_answer rejected e = refl
scan_answer finished_with e = refl
scan_answer could_not_open e = refl
scan_answer device_failed e = refl

module _ {W : Type 0} (max_message_size : ℕ) (device : BlockDevice W) (policy : SecurityPolicy W)
    (block data_size : ℕ) where
  abbrev Clear : Pass W → Type 0
  Clear p = any_failed p.calls ≡ false

  abbrev ToldWith : {A : Type 0} → (ReadResult × A) × Pass W → Type 0
  ToldWith x = any_failed x.1.calls ≡ is_device_failed x.0.0

  is_record_sent-Told :
      (c len : ℕ) (p : Pass W)
      → Clear p
      → ToldWith
          (is_record_sent_or_discarded max_message_size device policy block c len data_size p)
  unfolding is_record_sent_or_discarded
  is_record_sent-Told c len p h =
      let offset = sent_flag_offset max_message_size device policy c len in
      let (got, p1) = device_read max_message_size device policy block offset 1 p in
      if_lem (λ (y : (ReadResult × Bool) × Pass W). ToldWith y)
        (span_is_within_data offset 1 data_size)
        (
          (
            if got.0 then succeeded else device_failed,
            flag_marks_sent_or_discarded (byte_at got.1 0),
          ),
          p1,
        )
        ((corrupt, flag_marks_sent_or_discarded sent_flag_unsent), p)
        (λ within. read_answer got.0 block offset 1 p.calls h) (λ beyond. h)

  abbrev ToldScan : Scan × Pass W → Type 0
  ToldScan x = any_failed x.1.calls ≡ is_scan_failed x.0.scanned

  -- The search met a failure and stopped, or no call has failed.
  abbrev Halts : (Bool × Scan) × Pass W → Type 0
  Halts x = ToldScan (x.0.1, x.1) × (x.0.0 ≡ true → any_failed x.1.calls ≡ false)

  judge_record-Halts :
      (scan : Scan) (len : ℕ) (r : ReadResult) (marked : Bool) (p : Pass W)
      → is_scan_failed scan.scanned ≡ false
      → ToldWith ((r, marked), p)
      → Halts (judge_record max_message_size device policy scan len data_size (r, marked), p)
  judge_record-Halts scan len r marked p fine told = elim (Bool-cases (is_device_failed r)) [
    | inl failed ↦ rw failed (told ∙ failed, λ goes. absurd (false≢true goes))
    | inr works ↦ rw works (
        if_lem (λ (x : Bool × Scan). Halts (x, p)) marked
          (
            true,
            record scan { cursor = skip_record max_message_size device policy scan.cursor len },
          )
          (if is_corrupt r
            then (false, record { cursor = data_size; scanned = scan_corrupt })
            else (false, scan))
          (λ sent. (told ∙ works ∙ sym fine, λ goes. told ∙ works))
          (λ unsent.
            if_lem (λ (x : Bool × Scan). Halts (x, p)) (is_corrupt r)
              (false, record { cursor = data_size; scanned = scan_corrupt }) (false, scan)
              (λ damaged. (told ∙ works, λ goes. told ∙ works))
              (λ whole. (told ∙ works ∙ sym fine, λ goes. told ∙ works))))
  ]

  advance-Halts :
      (scan : Scan) (p : Pass W)
      → is_scan_failed scan.scanned ≡ false
      → Clear p
      → Halts (advance_past_sent_record max_message_size device policy block scan data_size p)
  unfolding advance_past_sent_record
  advance-Halts scan p fine h =
      let x = read_record_extent max_message_size device policy block scan.cursor data_size p in
      let here =
        read_record_extent-Told max_message_size device policy block data_size scan.cursor p h in
      let flagged =
        is_record_sent_or_discarded max_message_size device policy block scan.cursor x.0.1 data_size
          x.1 in
      let found : (ReadResult × Bool) × Pass W =
        if is_succeeded x.0.0 then flagged else ((x.0.0, false), x.1) in
      judge_record-Halts scan x.0.1 found.0.0 found.0.1 found.1 fine (
        if_lem (λ (y : (ReadResult × Bool) × Pass W). ToldWith y) (is_succeeded x.0.0) flagged
          ((x.0.0, false), x.1)
          (λ ok. is_record_sent-Told scan.cursor x.0.1 x.1 (here ∙ succeeded_works x.0.0 ok))
          (λ bad. here))

  find_loop-Told :
      (fuel : ℕ) (scanning : Bool) (scan : Scan) (p : Pass W)
      → Halts ((scanning, scan), p)
      → ToldScan (find_loop max_message_size device policy fuel scanning block scan data_size p)
  unfolding find_loop
  find_loop-Told zero scanning scan p h = h.0
  find_loop-Told (suc fuel) scanning scan p (told, clear) =
      let a = advance_past_sent_record max_message_size device policy block scan data_size p in
      if_lem ToldScan (scanning && ltb scan.cursor data_size)
        (find_loop max_message_size device policy fuel a.0.0 block a.0.1 data_size a.1) (scan, p)
        (λ goes_on.
          let still = clear (and_true scanning (ltb scan.cursor data_size) goes_on).0 in
          find_loop-Told fuel a.0.0 a.0.1 a.1 (advance-Halts scan p (sym told ∙ still) still))
        (λ stops. told)

  pub find_first_unsent-Told :
      (p : Pass W)
      → any_failed p.calls ≡ false
      → let x = find_first_unsent max_message_size device policy block data_size p in
        any_failed x.1.calls ≡ is_scan_failed x.0.scanned
  unfolding find_first_unsent
  find_first_unsent-Told p h =
      find_loop-Told (suc data_size) true (record { cursor = 0; scanned = scan_clean }) p
        (h, λ goes. h)

  scan_round-Told :
      (scan : Scan) (p : Pass W)
      → is_scan_failed scan.scanned ≡ false
      → Clear p
      → ToldScan (scan_round max_message_size device policy block scan data_size p)
  unfolding scan_round
  scan_round-Told scan p fine h =
      let x = read_record_extent max_message_size device policy block scan.cursor data_size p in
      let told =
        read_record_extent-Told max_message_size device policy block data_size scan.cursor p h in
      if_lem (λ (s : Scan). ToldScan (s, x.1)) (is_succeeded x.0.0)
        (record scan { cursor = skip_record max_message_size device policy scan.cursor x.0.1 })
        (record scan { scanned = scan_result_of x.0.0 })
        (λ ok. told ∙ succeeded_works x.0.0 ok ∙ sym fine)
        (λ bad. told ∙ sym (scan_answer x.0.0 bad))

  scan_loop-Told :
      (fuel : ℕ) (scan : Scan) (p : Pass W)
      → ToldScan (scan, p)
      → ToldScan (scan_loop max_message_size device policy fuel block scan data_size p)
  unfolding scan_loop
  scan_loop-Told zero scan p h = h
  scan_loop-Told (suc fuel) scan p h =
      let a = scan_round max_message_size device policy block scan data_size p in
      if_lem ToldScan (is_clean scan.scanned && ltb scan.cursor data_size)
        (scan_loop max_message_size device policy fuel block a.0 data_size a.1) (scan, p)
        (λ goes_on.
          let fine =
            clean_works scan.scanned
              (and_true (is_clean scan.scanned) (ltb scan.cursor data_size) goes_on).0 in
          scan_loop-Told fuel a.0 a.1 (scan_round-Told scan p fine (h ∙ fine)))
        (λ stops. h)
    where
      clean_works : (r : ScanResult) → is_clean r ≡ true → is_scan_failed r ≡ false
      clean_works scan_clean e = refl
      clean_works scan_corrupt e = refl
      clean_works scan_device_failed e = sym e

  pub scan_to_end-Told :
      (c : ℕ) (p : Pass W)
      → any_failed p.calls ≡ false
      → let x = scan_to_end max_message_size device policy block c data_size p in
        any_failed x.1.calls ≡ is_scan_failed x.0
  unfolding scan_to_end
  scan_to_end-Told c p h =
      scan_loop-Told (suc data_size) (record { cursor = c; scanned = scan_clean }) p h
