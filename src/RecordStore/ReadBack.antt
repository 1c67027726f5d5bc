-- ===== src/RecordStore/ReadBack.antt =====
-- A record that stands in a block as it was stored is read back.
use solid_syslog.Base.{
  ℕ, ◌+◌, ◌-◌, ◌/◌, ◌%◌, ◌^◌, ◌≤◌, ◌<◌, ◌≡◌, ap, sym, subst, ◌∙◌, ◌⊎◌, inl, inr, false, Bool-cases,
  [], ◌∷◌, ◌++◌, arith, length, length-append, length-slice, Bytes, byte_at, slice, blit,
  byte_at-blit_before, ltb, ltb→lt, if◌then◌else◌,
}
use solid_syslog.Utf8.Cut.{byte_at-append_right}
use solid_syslog.RecordStore.{
  BlockDevice, SecurityPolicy, Pass, ReadResult, succeeded, finished_with, could_not_open,
  device_failed, open_opened, open_could_not_run, OpenResult, content_size, with_buffer, verdict,
  flag_marks_sent_or_discarded, flag_reads_finished_with, when_succeeded, read_span, open_record,
}
use solid_syslog.RecordStore.Spans.{byte_at-slice, byte_at-blit_inside}
use solid_syslog.RecordStore.Shows.{
  Shows, Shows-slice, Shows-blit, Shows-blit_other, Shows-left, Shows-right,
}
use solid_syslog.RecordStore.Contents.{
  IsDevice, Failed, Span, span_read, span_beyond, span_failed, read_span-Span,
}
use solid_syslog.RecordStore.Extent.{IsRecord, AreBytes}
use solid_syslog.RecordStore.Assembled.{content_of}

-- A record as it stands in a block at `c`: a content with the header of `message`, a trailer, and
-- the flag of a record that was not sent.
pub record Stored (trailer_size : ℕ) (block : Bytes) (c : ℕ) (message content trailer : Bytes)
    : Type 0 where
  pub shown : Shows block c (content ++ (trailer ++ 0xFF ∷ []))
  pub content_length : length content ≡ 4 + length message
  pub trailer_length : length trailer ≡ trailer_size
  pub header : (j : ℕ) → j < 4 → byte_at content j ≡ byte_at (content_of message) j

-- an opening without a verdict
pub record CouldNotRun {W : Type 0} (policy : SecurityPolicy W) : Type 0 where
  pub on_content : Bytes
  pub on_trailer : Bytes
  pub in_world : W
  pub no_verdict : (policy.open_record 4 on_content on_trailer in_world).0.0 ≡ open_could_not_run

-- The policy opens them as the content of the message, or has no verdict.
abbrev pub OpensAs : {W : Type 0} → SecurityPolicy W → Bytes → Bytes → Bytes → Type 0
OpensAs {W} policy message content trailer =
    (w : W)
    → let o = policy.open_record 4 content trailer w in
      ((o.0.0 ≡ open_opened) × (o.0.1 ≡ content_of message)) ⊎ (o.0.0 ≡ open_could_not_run)

module _ {W : Type 0} (max_message_size : ℕ) (device : BlockDevice W) (policy : SecurityPolicy W)
    (contents : W → ℕ → Bytes) (law : IsDevice device contents) (block data_size : ℕ) where
  -- the message is in the buffer; or the policy had no verdict, or the device failed
  pub data ReadBack (message : Bytes) : ReadResult × Pass W → Type 0 where
    is_back : (q : Pass W) → Shows q.store.buffer 4 message → ReadBack message (succeeded, q)
    is_unopened : (q : Pass W) → CouldNotRun policy → ReadBack message (could_not_open, q)
    is_unread : (q : Pass W) → Failed device block → ReadBack message (device_failed, q)

  module _ (message content trailer m : Bytes) (c : ℕ)
      (stored : Stored policy.trailer_size m c message content trailer)
      (opens : OpensAs policy message content trailer) (some_left : 0 < length message)
      (not_too_long : length message ≤ max_message_size) (short : 4 + length message < 2 ^ 16)
      (whole : c + (4 + length message + policy.trailer_size + 1) ≤ data_size)
      (small : data_size + (max_message_size + policy.trailer_size + 5) < 2 ^ 32)
      (bytes : AreBytes m) where
    abbrev len : ℕ
    len = length message

    content_at : (j : ℕ) → j < 4 + len → byte_at m (c + j) ≡ byte_at content j
    content_at j less =
        Shows-left m c content (trailer ++ 0xFF ∷ []) stored.shown j
          (omega (arith, stored.content_length))

    pub stored-IsRecord : IsRecord max_message_size policy.trailer_size m data_size c len
    stored-IsRecord =
        let at : (j : ℕ) → j < 4 → byte_at m (c + j) ≡ byte_at (content_of message) j =
          λ j less. content_at j (omega arith) ∙ stored.header j less in
        record {
          header = record {
            first_magic = ap (byte_at m) (omega arith) ∙ at 0 (omega arith);
            second_magic = at 1 (omega arith);
            little_endian = omega (arith, at 2 (omega arith), at 3 (omega arith));
            some_left = some_left;
            not_too_long = not_too_long;
          };
          whole = whole;
        }

    -- the policy is asked about a record that is whole in the buffer
    opened-ReadBack :
        (p : Pass W)
        → 4 + len ≤ length p.store.buffer
        → Shows p.store.buffer 0 content
        → Shows p.store.buffer (4 + len) trailer
        → ReadBack message (open_record max_message_size device policy len p)
    unfolding open_record
    opened-ReadBack p fit head tail =
        let no_wrap : content_size len ≡ length content = omega (arith, stored.content_length) in
        let body : slice p.store.buffer 0 (content_size len) ≡ content =
          ap (slice p.store.buffer 0) no_wrap ∙ Shows-slice p.store.buffer 0 content head in
        let end : slice p.store.buffer (4 + len) policy.trailer_size ≡ trailer =
          ap (slice p.store.buffer (4 + len)) (sym stored.trailer_length)
          ∙ Shows-slice p.store.buffer (4 + len) trailer tail in
        rw (body, end)
          (answered (policy.open_record 4 content trailer p.world) (opens p.world) (λ e. record {
            on_content = content;
            on_trailer = trailer;
            in_world = p.world;
            no_verdict = e;
          }))
      where
        answered :
            (o : (OpenResult × Bytes) × W)
            → ((o.0.0 ≡ open_opened) × (o.0.1 ≡ content_of message)) ⊎ (o.0.0 ≡ open_could_not_run)
            → (o.0.0 ≡ open_could_not_run → CouldNotRun policy)
            → ReadBack message (
              verdict o.0.0,
              with_buffer (record p { world = o.1 }) (blit p.store.buffer 0 o.0.1),
            )
        answered o (inr no_verdict) could_not = rw no_verdict (
            is_unopened (with_buffer (record p { world = o.1 }) (blit p.store.buffer 0 o.0.1))
              (could_not no_verdict))
        answered o (inl (opened, same)) could_not =
            rw (opened, same)
              (is_back
                (with_buffer (record p { world = o.1 })
                  (blit p.store.buffer 0 (content_of message)))
                (Shows-right (blit p.store.buffer 0 (content_of message)) 0
                  (0xA5 ∷ 0x5A ∷ (len % 256) ∷ (len / 256) ∷ []) message
                  (Shows-blit p.store.buffer 0 (content_of message) (omega arith))))

    abbrev tail : Bytes
    tail = trailer ++ 0xFF ∷ []

    -- the trailer and the flag, as they stand in the block
    tail-slice : slice m (c + (4 + len)) (policy.trailer_size + 1) ≡ tail
    tail-slice =
        let size : policy.trailer_size + 1 ≡ length tail =
          omega (arith, length-append trailer (0xFF ∷ []), stored.trailer_length) in
        ap (slice m (c + (4 + len))) size
        ∙ Shows-slice m (c + (4 + len)) tail (
            subst (λ k. Shows m k tail) (omega (arith, stored.content_length))
              (Shows-right m c content tail stored.shown))

    -- the read of the trailer, and what follows it
    after_trailer-ReadBack :
        (p : Pass W) (t : ReadResult × Pass W)
        → Span device contents block data_size
            (c + (4 + len))
            (4 + len)
            (policy.trailer_size + 1)
            p
            t
        → contents p.world block ≡ m
        → 4 + len + policy.trailer_size + 1 ≤ length p.store.buffer
        → Shows p.store.buffer 0 content
        → ReadBack message (
            when_succeeded max_message_size device policy
              (when_succeeded max_message_size device policy t (λ q. (
                if flag_reads_finished_with max_message_size device policy len q
                    then finished_with
                    else succeeded,
                q,
              )))
              (open_record max_message_size device policy len))
    after_trailer-ReadBack p t (span_failed q kept f) on fit head = is_unread q f
    after_trailer-ReadBack p t (span_beyond beyond) on fit head =
        absurd (omega (arith, whole, beyond))
    after_trailer-ReadBack p t (span_read q kept within e) on fit head =
        let size : length tail ≡ policy.trailer_size + 1 =
          length-append trailer (0xFF ∷ []) ∙ ap (λ k. k + 1) stored.trailer_length in
        let copied : q.store.buffer ≡ blit p.store.buffer (4 + len) tail =
          e
          ∙ ap
              (λ (b : Bytes).
                blit p.store.buffer (4 + len) (slice b (c + (4 + len)) (policy.trailer_size + 1)))
              on
          ∙ ap (blit p.store.buffer (4 + len)) tail-slice in
        let shows_tail : Shows q.store.buffer (4 + len) tail =
          subst (λ (b : Bytes). Shows b (4 + len) tail) (sym copied)
            (Shows-blit p.store.buffer (4 + len) tail (omega arith)) in
        let shows_content : Shows q.store.buffer 0 content =
          subst (λ (b : Bytes). Shows b 0 content) (sym copied)
            (Shows-blit_other p.store.buffer 0 content (4 + len) tail
              (inl (omega (arith, stored.content_length))) head) in
        let flag : byte_at q.store.buffer (4 + len + policy.trailer_size) ≡ 0xFF =
          ap (byte_at q.store.buffer) (omega (arith, stored.trailer_length))
          ∙ shows_tail (length trailer) (omega (arith, length-append trailer (0xFF ∷ [])))
          ∙ byte_at-append_right trailer (0xFF ∷ []) 0 (length trailer) (omega arith) in
        let wanted : flag_reads_finished_with max_message_size device policy len q ≡ false =
          ap flag_marks_sent_or_discarded flag in
        rw wanted (
          opened-ReadBack q (omega (arith, kept.same_size)) shows_content
            (Shows-left q.store.buffer (4 + len) trailer (0xFF ∷ []) shows_tail))

    -- the read of the message, and what follows it
    pub after_message-ReadBack :
        (p : Pass W) (s : ReadResult × Pass W)
        → Span device contents block data_size (c + 4) 4 len p s
        → contents p.world block ≡ m
        → 4 + len + policy.trailer_size + 1 ≤ length p.store.buffer
        → ((j : ℕ) → j < 4 → byte_at p.store.buffer j ≡ byte_at m (c + j))
        → let t = when_succeeded max_message_size device policy s (
            read_span max_message_size device policy block
              (c + (4 + len))
              (4 + len)
              (policy.trailer_size + 1)
              data_size) in
          ReadBack message (
            when_succeeded max_message_size device policy
              (when_succeeded max_message_size device policy t (λ q. (
                if flag_reads_finished_with max_message_size device policy len q
                    then finished_with
                    else succeeded,
                q,
              )))
              (open_record max_message_size device policy len))
    after_message-ReadBack p s (span_failed q kept f) on fit head = is_unread q f
    after_message-ReadBack p s (span_beyond beyond) on fit head =
        absurd (omega (arith, whole, beyond))
    after_message-ReadBack p s (span_read q kept within e) on fit head =
        let copied : q.store.buffer ≡ blit p.store.buffer 4 (slice m (c + 4) len) =
          e ∙ ap (λ (b : Bytes). blit p.store.buffer 4 (slice b (c + 4) len)) on in
        let size : length (slice m (c + 4) len) ≡ len = length-slice m (c + 4) len in
        let shows : Shows q.store.buffer 0 content = λ j less. elim (Bool-cases (ltb j 4)) [
          | inl front ↦
              let inside = ltb→lt j 4 front in
              ap (λ (b : Bytes). byte_at b (0 + j)) copied
              ∙ byte_at-blit_before p.store.buffer 4 (slice m (c + 4) len) (0 + j) (omega arith)
              ∙ ap (byte_at p.store.buffer) (omega arith)
              ∙ head j inside
              ∙ content_at j (omega arith)
          | inr back ↦
              let behind : 4 ≤ j = ground arith in
              let bound : j < 4 + len = omega (arith, stored.content_length) in
              ap (λ (b : Bytes). byte_at b (0 + j)) copied
              ∙ byte_at-blit_inside p.store.buffer 4 (slice m (c + 4) len) (j - 4) (0 + j)
                  (omega arith) (omega arith) (omega arith)
              ∙ byte_at-slice m (c + 4) len (j - 4) (omega arith)
              ∙ ap (byte_at m) (omega arith)
              ∙ content_at j bound
        ] in
        after_trailer-ReadBack q
          (read_span max_message_size device policy block (c + (4 + len)) (4 + len)
            (policy.trailer_size + 1) data_size q)
          (read_span-Span max_message_size device policy contents law block data_size
            (c + (4 + len)) (4 + len) (policy.trailer_size + 1) q (omega arith))
          (kept.same_block ∙ on) (omega (arith, kept.same_size)) shows
