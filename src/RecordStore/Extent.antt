-- ===== src/RecordStore/Extent.antt =====
-- Which bytes of a block are a record, and that the header is read so.
use mathlib.Core.Bool.{false≢true}
use solid_syslog.Base.{
  ℕ, ◌+◌, ◌*◌, ◌%◌, ◌^◌, ◌≤◌, ◌<◌, ◌≡◌, ap, sym, ◌∙◌, true, false, Bool-cases, inl, inr, ◌⊎◌, arith,
  length, length-slice, Bytes, byte_at, slice, add_size, ltb, leb, ltb→lt, leb→le, ==_iff, ◌==◌,
  and_true, if◌then◌else◌,
}
use solid_syslog.Base.Bits.{bit_or_bytes}
use solid_syslog.RecordStore.{
  BlockDevice, SecurityPolicy, Pass, ReadResult, succeeded, corrupt, device_failed, is_succeeded,
  content_header_size, is_magic_valid, record_length, validate_header, record_is_within_data,
  read_span, read_header, read_record_extent,
}
use solid_syslog.RecordStore.Spans.{byte_at-slice, byte_at-blit_inside}
use solid_syslog.RecordStore.Contents.{
  IsDevice, Failed, Kept, Kept-refl, Span, span_read, span_beyond, span_failed, read_span-Span,
}

-- The header of a record whose message has `len` bytes stands at `c`.
pub record IsHeader (max_message_size : ℕ) (block : Bytes) (c len : ℕ) : Type 0 where
  pub first_magic : byte_at block c ≡ 0xA5
  pub second_magic : byte_at block (c + 1) ≡ 0x5A
  pub little_endian : len ≡ byte_at block (c + 2) + byte_at block (c + 3) * 256
  pub some_left : 0 < len
  pub not_too_long : len ≤ max_message_size

-- Such a record stands there whole, in a block of `data_size` bytes.
pub record IsRecord (max_message_size trailer_size : ℕ) (block : Bytes) (data_size c len : ℕ)
    : Type 0 where
  pub header : IsHeader max_message_size block c len
  pub whole : c + (4 + len + trailer_size + 1) ≤ data_size

abbrev pub AreBytes : Bytes → Type 0
AreBytes m = (i : ℕ) → byte_at m i < 256

-- The length is read little-endian, whatever the host.
record_length_lem :
    (m : Bytes) (c : ℕ) (buffer : Bytes)
    → AreBytes m
    → ((j : ℕ) → j < 4 → byte_at buffer j ≡ byte_at m (c + j))
    → record_length buffer ≡ byte_at m (c + 2) + byte_at m (c + 3) * 256
unfolding record_length
record_length_lem m c buffer small same =
    let lo = same 2 (omega arith) in
    let hi = same 3 (omega arith) in
    let no_wrap : byte_at buffer 3 * 2 ^ 8 % 2 ^ 16 ≡ byte_at m (c + 3) * 256 =
      omega (arith, small (c + 3)) in
    rw (lo, no_wrap)
      (bit_or_bytes (byte_at m (c + 2)) (byte_at m (c + 3)) (small (c + 2)) (small (c + 3)))

module _ {W : Type 0} (max_message_size : ℕ) (device : BlockDevice W)
    (policy : SecurityPolicy W) where
  -- the check of the header, whatever the bytes
  validate_header-IsHeader :
      (m : Bytes) (c : ℕ) (buffer : Bytes)
      → AreBytes m
      → ((j : ℕ) → j < 4 → byte_at buffer j ≡ byte_at m (c + j))
      → let v = validate_header max_message_size device policy buffer in
        (v.0 ≡ true → IsHeader max_message_size m c v.1)
        × (v.0 ≡ false → (l : ℕ) → ¬ IsHeader max_message_size m c l)
  validate_header-IsHeader m c buffer small same =
      let b0 : byte_at buffer 0 ≡ byte_at m c =
        same 0 (omega arith) ∙ ap (byte_at m) (omega arith) in
      let b1 = same 1 (omega arith) in
      let len = record_length_lem m c buffer small same in
      elim (Bool-cases (is_magic_valid buffer)) [
        | inl magic ↦
            let (first, second) =
              and_true (byte_at buffer 0 == 0xA5) (byte_at buffer 1 == 0x5A) magic in
            rw magic (
              (λ valid.
                  let (pos, fits) =
                    and_true (ltb 0 (record_length buffer))
                      (leb (record_length buffer) max_message_size) valid in
                  record {
                    first_magic = sym b0 ∙ (==_iff (byte_at buffer 0) 0xA5).0 first;
                    second_magic = sym b1 ∙ (==_iff (byte_at buffer 1) 0x5A).0 second;
                    little_endian = len;
                    some_left = ltb→lt 0 (record_length buffer) pos;
                    not_too_long = leb→le (record_length buffer) max_message_size fits;
                  }),
              (λ invalid l h.
                  absurd (ground (arith, len, h.little_endian, h.some_left, h.not_too_long))),
            )
        | inr other ↦ rw other (
          (λ valid. absurd (false≢true valid)),
          (λ invalid l h. absurd (ground (arith, b0, b1, h.first_magic, h.second_magic))),
        )
      ]

module _ {W : Type 0} (device : BlockDevice W) (contents : W → ℕ → Bytes) (block : ℕ) where
  -- what is read of a header: it is one, it cannot be one, or the device failed
  pub data Header (max_message_size data_size c : ℕ) (p : Pass W)
      : (ReadResult × ℕ) × Pass W → Type 0 where
    header_read :
        (len : ℕ) (q : Pass W)
        → Kept contents block p q
        → IsHeader max_message_size (contents p.world block) c len
        → ((j : ℕ) → j < 4 → byte_at q.store.buffer j ≡ byte_at (contents p.world block) (c + j))
        → Header max_message_size data_size c p ((succeeded, len), q)
    header_damaged :
        (len : ℕ) (q : Pass W)
        → Kept contents block p q
        → (data_size < c + 4) ⊎ ((l : ℕ) → ¬ IsHeader max_message_size (contents p.world block) c l)
        → Header max_message_size data_size c p ((corrupt, len), q)
    header_failed :
        (len : ℕ) (q : Pass W)
        → Kept contents block p q
        → Failed device block
        → Header max_message_size data_size c p ((device_failed, len), q)

  -- the same of the whole record
  pub data Extent (max_message_size trailer_size data_size c : ℕ) (p : Pass W)
      : (ReadResult × ℕ) × Pass W → Type 0 where
    record_whole :
        (len : ℕ) (q : Pass W)
        → Kept contents block p q
        → IsRecord max_message_size trailer_size (contents p.world block) data_size c len
        → ((j : ℕ) → j < 4 → byte_at q.store.buffer j ≡ byte_at (contents p.world block) (c + j))
        → Extent max_message_size trailer_size data_size c p ((succeeded, len), q)
    record_damaged :
        (len : ℕ) (q : Pass W)
        → Kept contents block p q
        → ((l : ℕ)
            → ¬ IsRecord max_message_size trailer_size (contents p.world block) data_size c l)
        → Extent max_message_size trailer_size data_size c p ((corrupt, len), q)
    record_failed :
        (len : ℕ) (q : Pass W)
        → Kept contents block p q
        → Failed device block
        → Extent max_message_size trailer_size data_size c p ((device_failed, len), q)

module _ {W : Type 0} (max_message_size : ℕ) (device : BlockDevice W) (policy : SecurityPolicy W)
    (contents : W → ℕ → Bytes) (law : IsDevice device contents) (block data_size : ℕ) where
  read_header-Header :
      (c : ℕ) (p : Pass W)
      → AreBytes (contents p.world block)
      → c < data_size
      → c + 4 < 2 ^ 32
      → 4 ≤ length p.store.buffer
      → Header device contents block max_message_size data_size c p
          (read_header max_message_size device policy block c data_size p)
  unfolding read_header
  read_header-Header c p bytes inside small room =
      let within : ltb c data_size ≡ true = ground arith in
      rw within (
        checked (read_span max_message_size device policy block c 0 content_header_size data_size p)
          (read_span-Span max_message_size device policy contents law block data_size c 0 4 p
            small))
    where
      m : Bytes
      m = contents p.world block

      checked :
          (r : ReadResult × Pass W)
          → Span device contents block data_size c 0 4 p r
          → Header device contents block max_message_size data_size c p (
              let v = validate_header max_message_size device policy r.1.store.buffer in
              if is_succeeded r.0
              then ((if v.0 then succeeded else corrupt, v.1), r.1)
              else ((r.0, 0), r.1))
      checked r (span_beyond beyond) = header_damaged 0 p (Kept-refl contents block p) (inl beyond)
      checked r (span_failed q kept f) = header_failed 0 q kept f
      checked r (span_read q kept fits e) =
          let same : (j : ℕ) → j < 4 → byte_at q.store.buffer j ≡ byte_at m (c + j) = λ j small_j.
            ap (λ (b : Bytes). byte_at b j) e
            ∙ byte_at-blit_inside p.store.buffer 0 (slice m c 4) j j
                (omega (arith, length-slice m c 4)) (omega (arith, length-slice m c 4))
                (omega arith)
            ∙ byte_at-slice m c 4 j small_j in
          let (valid, invalid) =
            validate_header-IsHeader max_message_size device policy m c q.store.buffer bytes same in
          let v = validate_header max_message_size device policy q.store.buffer in
          elim (Bool-cases v.0) [
            | inl good ↦ rw good (header_read v.1 q kept (valid good) same)
            | inr bad ↦ rw bad (header_damaged v.1 q kept (inr (invalid bad)))
          ]

  -- What `ReadRecordExtent` finds inside the data is a record exactly if one stands there whole.
  pub read_record_extent-Extent :
      (c : ℕ) (p : Pass W)
      → AreBytes (contents p.world block)
      → c < data_size
      → c + (max_message_size + policy.trailer_size + 5) < 2 ^ 32
      → 4 ≤ length p.store.buffer
      → Extent device contents block max_message_size policy.trailer_size data_size c p
          (read_record_extent max_message_size device policy block c data_size p)
  unfolding read_record_extent
  read_record_extent-Extent c p bytes inside small room =
      bounded (read_header max_message_size device policy block c data_size p)
        (read_header-Header c p bytes inside (omega arith) room)
    where
      m : Bytes
      m = contents p.world block

      bounded :
          (h : (ReadResult × ℕ) × Pass W)
          → Header device contents block max_message_size data_size c p h
          → Extent device contents block max_message_size policy.trailer_size data_size c p (
              if is_succeeded h.0.0
              then (
                (
                  if record_is_within_data max_message_size device policy c h.0.1 data_size
                      then succeeded
                      else corrupt,
                  h.0.1,
                ),
                h.1,
              )
              else (h.0, h.1))
      bounded h (header_failed len q kept f) = record_failed len q kept f
      bounded h (header_damaged len q kept (inl beyond)) =
          record_damaged len q kept (λ l r. absurd (omega (arith, r.whole, beyond)))
      bounded h (header_damaged len q kept (inr none_here)) =
          record_damaged len q kept (λ l r. none_here l r.header)
      bounded h (header_read len q kept header same) =
          let fits_size = header.not_too_long in
          let size = 4 + len + policy.trailer_size + 1 in
          elim (Bool-cases (record_is_within_data max_message_size device policy c len data_size)) [
            | inl within ↦ rw within (
                record_whole len q kept
                  (record {
                    header = header;
                    whole = omega (arith, leb→le (add_size c size) data_size within);
                  })
                  same)
            | inr beyond ↦ rw beyond (
                record_damaged len q kept (λ l r.
                  let same_len : l ≡ len = r.header.little_endian ∙ sym header.little_endian in
                  let over : data_size < c + size = ground arith in
                  absurd (omega (arith, r.whole, over, same_len))))
          ]
