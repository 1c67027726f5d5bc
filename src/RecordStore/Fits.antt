-- ===== src/RecordStore/Fits.antt =====
-- A record that the store finds whole has a length that is allowed and stands within the data.
use mathlib.Core.Bool.{false≢true}
use solid_syslog.Base.{
  ℕ, ◌+◌, ◌^◌, ◌≤◌, ◌<◌, ◌≡◌, refl, sym, ◌∙◌, Bool, true, false, ◌&&◌, ◌∷◌, arith, Bytes, blit,
  add_size, ltb, leb, ltb→lt, leb→le, and_true, if◌then◌else◌, if_lem,
}
use solid_syslog.RecordStore.{
  BlockDevice, SecurityPolicy, Pass, reads, ReadResult, succeeded, end_of_data, corrupt, rejected,
  finished_with, could_not_open, device_failed, content_header_size, sent_flag_offset, with_buffer,
  is_magic_valid, is_valid_length, validate_header, is_succeeded, record_extent_is_known,
  record_length, record_size, record_is_within_data, span_is_within_data, read_span, read_header,
  read_record_extent, read_whole_record, read_and_validate_record, remember_current_record, read,
}

module _ {W : Type 0} (max_message_size : ℕ) (device : BlockDevice W) (policy : SecurityPolicy W)
    (block data_size : ℕ)
    (small : data_size + (max_message_size + policy.trailer_size + 5) < 2 ^ 32) where
  -- a length that was read of a record at `c` that was found whole
  abbrev pub Fits : ℕ → ReadResult × ℕ → Type 0
  Fits c x =
      is_succeeded x.0 ≡ true
      → (x.1 ≤ max_message_size) × (c + (4 + x.1 + policy.trailer_size + 1) ≤ data_size)

  pub read_header-Fits :
      (c : ℕ) (p : Pass W)
      → let h = read_header max_message_size device policy block c data_size p in
        is_succeeded h.0.0 ≡ true → (h.0.1 ≤ max_message_size) × (c < data_size)
  unfolding read_header
  read_header-Fits c p =
      let span =
        read_span max_message_size device policy block c 0 content_header_size data_size p in
      let r = if ltb c data_size then span else (end_of_data, p) in
      let inside : is_succeeded r.0 ≡ true → c < data_size =
        if_lem (λ (x : ReadResult × Pass W). is_succeeded x.0 ≡ true → c < data_size)
          (ltb c data_size) span (end_of_data, p) (λ less e. ltb→lt c data_size less)
          (λ past e. absurd (false≢true e)) in
      let v = validate_header max_message_size device policy r.1.store.buffer in
      if_lem
        (λ (x : (ReadResult × ℕ) × Pass W).
          is_succeeded x.0.0 ≡ true → (x.0.1 ≤ max_message_size) × (c < data_size))
        (is_succeeded r.0) ((if v.0 then succeeded else corrupt, v.1), r.1) ((r.0, 0), r.1)
        (λ ok e. (valid_length r.1.store.buffer e, inside ok))
        (λ bad e. absurd (false≢true (sym bad ∙ e)))
    where
      was_valid : (b : Bool) → is_succeeded (if b then succeeded else corrupt) ≡ true → b ≡ true
      was_valid true e = refl
      was_valid false e = e

      valid_length :
          (buffer : Bytes)
          → let v = validate_header max_message_size device policy buffer in
            is_succeeded (if v.0 then succeeded else corrupt) ≡ true → v.1 ≤ max_message_size
      valid_length buffer e =
          if_lem
            (λ (x : Bool × ℕ).
              is_succeeded (if x.0 then succeeded else corrupt) ≡ true → x.1 ≤ max_message_size)
            (is_magic_valid buffer)
            (
              is_valid_length max_message_size device policy (record_length buffer),
              record_length buffer,
            )
            (false, 0)
            (λ magic f.
              let len = record_length buffer in
              let ok : (ltb 0 len && leb len max_message_size) ≡ true =
                was_valid (ltb 0 len && leb len max_message_size) f in
              leb→le len max_message_size (and_true (ltb 0 len) (leb len max_message_size) ok).1)
            (λ other f. absurd (false≢true f)) e

  pub read_record_extent-Fits :
      (c : ℕ) (p : Pass W)
      → Fits c (read_record_extent max_message_size device policy block c data_size p).0
  unfolding read_record_extent
  read_record_extent-Fits c p =
      let r = read_header max_message_size device policy block c data_size p in
      let whole = record_is_within_data max_message_size device policy c r.0.1 data_size in
      if_lem (λ (x : (ReadResult × ℕ) × Pass W). Fits c x.0) (is_succeeded r.0.0)
        ((if whole then succeeded else corrupt, r.0.1), r.1) (r.0, r.1)
        (λ ok.
          let (len_fits, inside) = read_header-Fits c p ok in
          if_lem (λ (x : ReadResult). Fits c (x, r.0.1)) whole succeeded corrupt
            (λ within e. (
              len_fits,
              omega (
                arith,
                leb→le (add_size c (record_size max_message_size device policy r.0.1)) data_size
                    within,
              ),
            ))
            (λ beyond e. absurd (false≢true e)))
        (λ bad e. absurd (false≢true (sym bad ∙ e)))

  -- the extent is known of a record that was read whole only
  abbrev IsPlain : ReadResult → Type 0
  IsPlain r = record_extent_is_known r ≡ true → is_succeeded r ≡ true

  read_span-IsPlain :
      (offset position count : ℕ) (p : Pass W)
      → IsPlain (read_span max_message_size device policy block offset position count data_size p).0
  unfolding read_span
  read_span-IsPlain offset position count p =
      let got = device.read block offset count p.world in
      let p1 : Pass W = record p {
        world = got.1;
        calls = reads block offset count got.0.0 ∷ p.calls;
      } in
      if_lem (λ (x : ReadResult × Pass W). IsPlain x.0) (span_is_within_data offset count data_size)
        (
          if got.0.0 then succeeded else device_failed,
          with_buffer p1 (blit p.store.buffer position got.0.1),
        )
        (corrupt, p)
        (λ within.
          if_lem IsPlain got.0.0 succeeded device_failed (λ read_it e. refl) (λ failed e. e))
        (λ beyond e. e)

  read_record_extent-IsPlain :
      (c : ℕ) (p : Pass W)
      → IsPlain (read_record_extent max_message_size device policy block c data_size p).0.0
  unfolding read_record_extent read_header
  read_record_extent-IsPlain c p =
      let span =
        read_span max_message_size device policy block c 0 content_header_size data_size p in
      let r = if ltb c data_size then span else (end_of_data, p) in
      let v = validate_header max_message_size device policy r.1.store.buffer in
      let h : (ReadResult × ℕ) × Pass W =
        if is_succeeded r.0
        then ((if v.0 then succeeded else corrupt, v.1), r.1)
        else ((r.0, 0), r.1) in
      let header : IsPlain h.0.0 =
        if_lem (λ (x : (ReadResult × ℕ) × Pass W). IsPlain x.0.0) (is_succeeded r.0)
          ((if v.0 then succeeded else corrupt, v.1), r.1) ((r.0, 0), r.1)
          (λ ok. if_lem IsPlain v.0 succeeded corrupt (λ valid e. refl) (λ invalid e. e))
          (λ bad.
            if_lem (λ (x : ReadResult × Pass W). IsPlain x.0) (ltb c data_size) span
              (end_of_data, p) (λ less. read_span-IsPlain c 0 content_header_size p)
              (λ past e. e)) in
      let whole = record_is_within_data max_message_size device policy c h.0.1 data_size in
      if_lem (λ (x : (ReadResult × ℕ) × Pass W). IsPlain x.0.0) (is_succeeded h.0.0)
        ((if whole then succeeded else corrupt, h.0.1), h.1) (h.0, h.1)
        (λ ok. if_lem IsPlain whole succeeded corrupt (λ within e. refl) (λ beyond e. e))
        (λ bad. header)

  remembered_from :
      (c len : ℕ) (result : ReadResult) (p : Pass W)
      → Fits c (result, len)
      → IsPlain result
      → record_extent_is_known
          (read_whole_record max_message_size device policy block c data_size len (result, p)).0
        ≡ true
      → (c < sent_flag_offset max_message_size device policy c len + 1)
        × (sent_flag_offset max_message_size device policy c len + 1 ≤ data_size)
  unfolding sent_flag_offset
  remembered_from c len succeeded p fits plain known =
      let (len_fits, whole) = fits refl in (omega arith, omega arith)
  remembered_from c len end_of_data p fits plain known = absurd (false≢true known)
  remembered_from c len corrupt p fits plain known = absurd (false≢true known)
  remembered_from c len rejected p fits plain known = absurd (false≢true (plain refl))
  remembered_from c len finished_with p fits plain known = absurd (false≢true (plain refl))
  remembered_from c len could_not_open p fits plain known = absurd (false≢true known)
  remembered_from c len device_failed p fits plain known = absurd (false≢true known)

  -- Where Read knows the extent of a record, the flag that it remembers is behind the cursor and the
  -- last byte of the record within the data.
  pub read-Remembers :
      (c max_size : ℕ) (p : Pass W)
      → let r = read max_message_size device policy block c data_size max_size p in
        record_extent_is_known r.0.0 ≡ true
        → (c < r.1.store.last_sent_flag_offset + 1)
          × (r.1.store.last_sent_flag_offset + 1 ≤ data_size)
  unfolding read read_and_validate_record remember_current_record
  read-Remembers c max_size p known =
      let x = read_record_extent max_message_size device policy block c data_size p in
      let r =
        read_whole_record max_message_size device policy block c data_size x.0.1 (x.0.0, x.1) in
      let bounds =
        remembered_from c x.0.1 x.0.0 x.1 (read_record_extent-Fits c p)
          (read_record_extent-IsPlain c p) known in
      if_lem
        (λ (q : Pass W).
          (c < q.store.last_sent_flag_offset + 1) × (q.store.last_sent_flag_offset + 1 ≤ data_size))
        (record_extent_is_known r.0)
        (remember_current_record max_message_size device policy block c x.0.1 r.1) r.1
        (λ yes. bounds) (λ no. absurd (false≢true (sym no ∙ known)))
