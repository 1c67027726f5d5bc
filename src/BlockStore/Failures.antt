-- ===== src/BlockStore/Failures.antt =====
-- The calls of the device that failed, and how the operations of
-- Core/Source/SolidSyslogRecordStore.c answer that to the store.
pub mod Scans
use mathlib.Core.Bool.{false≢true}
use solid_syslog.Base.{
  ℕ, zero, suc, ◌≡◌, inl, inr, refl, sym, ◌∙◌, Bool, true, false, Bool-cases, if_lem, not, ◌&&◌,
  ◌||◌, ltb, and_true, List, [], ◌∷◌, Bytes, byte_at, slice, blit, length, add_size, if◌then◌else◌,
  ◌%◌, ◌^◌, ◌+◌,
}
use solid_syslog.BlockStore.{is_scan_failed}
use solid_syslog.RecordStore.{
  BlockDevice, SecurityPolicy, OpenResult, open_rejected, open_opened, open_could_not_run, verdict,
  content_size, Pass, Call, reads, appends, writes_at, ReadResult, succeeded, end_of_data, corrupt,
  finished_with, device_failed, AppendResult, append_succeeded, append_seal_failed,
  append_device_failed, MarkResult, mark_succeeded, mark_nothing_read, mark_device_failed,
  ScanResult, scan_clean, scan_corrupt, scan_device_failed, rejected, could_not_open, is_succeeded,
  scan_result_of, record_extent_is_known, sent_flag_unsent, content_header_size, trailer_offset,
  flag_marks_sent_or_discarded, span_is_within_data, with_buffer, device_read, read_span,
  validate_header, read_header, record_is_within_data, read_record_extent, open_record,
  flag_reads_finished_with, read_whole_record, read_and_validate_record, remember_current_record,
  read, append, assemble_record, record_size, write_sent_flag, forget_last_read,
  mark_last_read_as_sent, sent_flag_offset,
}
use solid_syslog.RecordStore.Scan.{
  Scan, is_device_failed, is_corrupt, is_clean, is_record_sent_or_discarded, skip_record,
  judge_record, advance_past_sent_record, find_loop, find_first_unsent, scan_round, scan_loop,
  scan_to_end,
}

-- whether a call of the device failed
abbrev pub any_failed : List Call → Bool
any_failed [] = false
any_failed (reads block offset count ok ∷ cs) = not ok || any_failed cs
any_failed (appends block image ok ∷ cs) = not ok || any_failed cs
any_failed (writes_at block offset bytes ok ∷ cs) = not ok || any_failed cs

abbrev pub is_append_failed : AppendResult → Bool
is_append_failed append_succeeded = false
is_append_failed append_seal_failed = false
is_append_failed append_device_failed = true

abbrev pub is_mark_failed : MarkResult → Bool
is_mark_failed mark_succeeded = false
is_mark_failed mark_nothing_read = false
is_mark_failed mark_device_failed = true

pub succeeded_works : (r : ReadResult) → is_succeeded r ≡ true → is_device_failed r ≡ false
succeeded_works succeeded e = refl
succeeded_works end_of_data e = refl
succeeded_works corrupt e = refl
succeeded_works rejected e = refl
succeeded_works finished_with e = refl
succeeded_works could_not_open e = refl
succeeded_works device_failed e = sym e

judgement_works : (b : Bool) → is_device_failed (if b then succeeded else corrupt) ≡ false
judgement_works true = refl
judgement_works false = refl

flag_works : (b : Bool) → is_device_failed (if b then finished_with else succeeded) ≡ false
flag_works true = refl
flag_works false = refl

verdict_works : (r : OpenResult) → is_device_failed (verdict r) ≡ false
verdict_works open_opened = refl
verdict_works open_rejected = refl
verdict_works open_could_not_run = refl

pub read_answer :
    (ok : Bool) (block offset count : ℕ) (calls : List Call)
    → any_failed calls ≡ false
    → any_failed (reads block offset count ok ∷ calls)
      ≡ is_device_failed (if ok then succeeded else device_failed)
read_answer true block offset count calls clear = clear
read_answer false block offset count calls clear = refl

module _ {W : Type 0} (max_message_size : ℕ) (device : BlockDevice W) (policy : SecurityPolicy W)
    (block data_size : ℕ) where
  abbrev Clear : Pass W → Type 0
  Clear p = any_failed p.calls ≡ false

  -- a failed call is what the answer says: of a read that answers its result, alone or with something more
  abbrev Told : ReadResult × Pass W → Type 0
  Told x = any_failed x.1.calls ≡ is_device_failed x.0

  abbrev ToldWith : {A : Type 0} → (ReadResult × A) × Pass W → Type 0
  ToldWith x = any_failed x.1.calls ≡ is_device_failed x.0.0

  read_span-Told :
      (offset position count : ℕ) (p : Pass W)
      → Clear p
      → Told (read_span max_message_size device policy block offset position count data_size p)
  unfolding read_span
  read_span-Told offset position count p h =
      let got = device.read block offset count p.world in
      let p1 : Pass W = record p {
        world = got.1;
        calls = reads block offset count got.0.0 ∷ p.calls;
      } in
      if_lem Told (span_is_within_data offset count data_size)
        (
          if got.0.0 then succeeded else device_failed,
          with_buffer p1 (blit p.store.buffer position got.0.1),
        )
        (corrupt, p) (λ within. read_answer got.0.0 block offset count p.calls h) (λ beyond. h)

  read_header-Told :
      (c : ℕ) (p : Pass W)
      → Clear p
      → ToldWith (read_header max_message_size device policy block c data_size p)
  unfolding read_header
  read_header-Told c p h =
      let span =
        read_span max_message_size device policy block c 0 content_header_size data_size p in
      let r = if ltb c data_size then span else (end_of_data, p) in
      let v = validate_header max_message_size device policy r.1.store.buffer in
      let told : Told r =
        if_lem Told (ltb c data_size) span (end_of_data, p)
          (λ inside. read_span-Told c 0 content_header_size p h) (λ outside. h) in
      if_lem (λ (x : (ReadResult × ℕ) × Pass W). ToldWith x) (is_succeeded r.0)
        ((if v.0 then succeeded else corrupt, v.1), r.1) ((r.0, 0), r.1)
        (λ ok. (told ∙ succeeded_works r.0 ok) ∙ sym (judgement_works v.0)) (λ bad. told)

  pub read_record_extent-Told :
      (c : ℕ) (p : Pass W)
      → Clear p
      → ToldWith (read_record_extent max_message_size device policy block c data_size p)
  unfolding read_record_extent
  read_record_extent-Told c p h =
      let x = read_header max_message_size device policy block c data_size p in
      let told = read_header-Told c p h in
      let within = record_is_within_data max_message_size device policy c x.0.1 data_size in
      if_lem (λ (y : (ReadResult × ℕ) × Pass W). ToldWith y) (is_succeeded x.0.0)
        ((if within then succeeded else corrupt, x.0.1), x.1) x
        (λ ok. told ∙ succeeded_works x.0.0 ok ∙ sym (judgement_works within)) (λ bad. told)

  -- a step of the chain of reads
  next-Told :
      (r : ReadResult × Pass W) (step : Pass W → ReadResult × Pass W)
      → Told r
      → (Clear r.1 → Told (step r.1))
      → Told (if is_succeeded r.0 then step r.1 else r)
  next-Told r step told goes_on =
      if_lem Told (is_succeeded r.0) (step r.1) r (λ ok. goes_on (told ∙ succeeded_works r.0 ok))
        (λ bad. told)

  read_whole_record-Told :
      (c len : ℕ) (extent : ReadResult × Pass W)
      → Told extent
      → Told (read_whole_record max_message_size device policy block c data_size len extent)
  unfolding open_record
  read_whole_record-Told c len extent told =
      let body : Pass W → ReadResult × Pass W =
        read_span max_message_size device policy block (add_size c content_header_size)
          content_header_size len data_size in
      let behind : Pass W → ReadResult × Pass W =
        read_span max_message_size device policy block (trailer_offset c len)
          (content_header_size + len) (policy.trailer_size + 1) data_size in
      let judge : Pass W → ReadResult × Pass W = λ q. (
        if flag_reads_finished_with max_message_size device policy len q
            then finished_with
            else succeeded,
        q,
      ) in
      let message = if is_succeeded extent.0 then body extent.1 else extent in
      let trailer = if is_succeeded message.0 then behind message.1 else message in
      let flag = if is_succeeded trailer.0 then judge trailer.1 else trailer in
      let m : Told message =
        next-Told extent body told
          (read_span-Told (add_size c content_header_size) content_header_size len extent.1) in
      let t : Told trailer = next-Told message behind m (
        read_span-Told (trailer_offset c len) (content_header_size + len) (policy.trailer_size + 1)
          message.1) in
      let f : Told flag = next-Told trailer judge t (λ clear.
        clear
        ∙ sym
            (flag_works (flag_reads_finished_with max_message_size device policy len trailer.1))) in
      next-Told flag (open_record max_message_size device policy len) f (λ clear.
        clear
        ∙ sym (
            verdict_works
              (policy.open_record content_header_size
                (slice flag.1.store.buffer 0 (content_size len))
                (slice flag.1.store.buffer (content_header_size + len) policy.trailer_size)
                flag.1.world).0.0))

  -- Each of these fails if and only if a call of the device did, where none had before.
  pub read-Told :
      (c max_size : ℕ) (p : Pass W)
      → any_failed p.calls ≡ false
      → let x = read max_message_size device policy block c data_size max_size p in
        any_failed x.1.calls ≡ is_device_failed x.0.0
  unfolding read read_and_validate_record remember_current_record
  read-Told c max_size p h =
      let x = read_record_extent max_message_size device policy block c data_size p in
      let r =
        read_whole_record max_message_size device policy block c data_size x.0.1 (x.0.0, x.1) in
      let told = read_whole_record-Told c x.0.1 (x.0.0, x.1) (read_record_extent-Told c p h) in
      if_lem (λ (q : Pass W). any_failed q.calls ≡ is_device_failed r.0)
        (record_extent_is_known r.0)
        (remember_current_record max_message_size device policy block c x.0.1 r.1) r.1
        (λ known. told) (λ unknown. told)

  pub append-Told :
      (message : Bytes) (p : Pass W)
      → any_failed p.calls ≡ false
      → let x = append max_message_size device policy block message p in
        any_failed x.1.calls ≡ is_append_failed x.0
  unfolding append assemble_record
  append-Told message p h =
      let (sealed, p1) = assemble_record max_message_size device policy message p in
      let size = record_size max_message_size device policy (length message % 2 ^ 16) in
      let image = slice p1.store.buffer 0 size in
      let (appended, w) = device.append block image p1.world in
      let q : Pass W = record p1 { world = w; calls = appends block image appended ∷ p1.calls } in
      if_lem (λ (y : AppendResult × Pass W). any_failed y.1.calls ≡ is_append_failed y.0) sealed
        (if appended then append_succeeded else append_device_failed, q) (append_seal_failed, p1)
        (λ ready. told appended image) (λ fails. h)
    where
      told :
          (ok : Bool) (image : Bytes)
          → any_failed (appends block image ok ∷ p.calls)
            ≡ is_append_failed (if ok then append_succeeded else append_device_failed)
      told true image = h
      told false image = refl

  pub mark-Told :
      (next_cursor : ℕ) (p : Pass W)
      → any_failed p.calls ≡ false
      → let x = mark_last_read_as_sent max_message_size device policy next_cursor p in
        any_failed x.1.calls ≡ is_mark_failed x.0.0
  unfolding mark_last_read_as_sent write_sent_flag forget_last_read
  mark-Told next_cursor p h =
      let (written, p1) = write_sent_flag max_message_size device policy p in
      let next = add_size p1.store.last_sent_flag_offset 1 in
      let marked : (MarkResult × ℕ) × Pass W =
        if written
        then ((mark_succeeded, next), forget_last_read max_message_size device policy p1)
        else ((mark_device_failed, next_cursor), p1) in
      let Fine : (MarkResult × ℕ) × Pass W → Type 0 =
        λ y. any_failed y.1.calls ≡ is_mark_failed y.0.0 in
      if_lem Fine p.store.has_read_record marked ((mark_nothing_read, next_cursor), p)
        (λ some_read.
          if_lem Fine written
            ((mark_succeeded, next), forget_last_read max_message_size device policy p1)
            ((mark_device_failed, next_cursor), p1) (λ ok. rw ok h) (λ bad. rw bad refl))
        (λ none_read. h)
