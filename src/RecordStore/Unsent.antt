-- ===== src/RecordStore/Unsent.antt =====
-- `FindFirstUnsent` and `ScanToEnd` on any block of bytes: they end, and say what stands there.
use solid_syslog.Base.{
  ℕ, zero, suc, ◌+◌, ◌^◌, ◌≤◌, ◌<◌, ◌≡◌, refl, ap, sym, subst, ◌∙◌, Bool, true, false, arith,
  length, Bytes, byte_at, add_size, ltb, ltb→lt, if◌then◌else◌, if_lem, ◌∷◌,
}
use solid_syslog.RecordStore.{
  BlockDevice, SecurityPolicy, Pass, ReadResult, succeeded, device_failed, scan_clean, scan_corrupt,
  scan_device_failed, is_succeeded, flag_marks_sent_or_discarded, sent_flag_offset,
  span_is_within_data, read_record_extent, reads,
}
use solid_syslog.RecordStore.Scan.{
  Scan, is_record_sent_or_discarded, judge_record, advance_past_sent_record, find_loop,
  find_first_unsent,
}
use solid_syslog.RecordStore.Spans.{byte_at-slice}
use solid_syslog.RecordStore.Contents.{IsDevice, Failed, Kept}
use solid_syslog.RecordStore.Extent.{
  IsRecord, AreBytes, Extent, record_whole, record_damaged, record_failed,
  read_record_extent-Extent,
}
use solid_syslog.RecordStore.Marked.{
  AllMarked, at_start, behind, FirstUnsent, all_sent, unsent_at, damaged_at, device_fails, Round,
  steps, ends, marks_right, marks_not,
}

module _ {W : Type 0} (max_message_size : ℕ) (device : BlockDevice W) (policy : SecurityPolicy W)
    (contents : W → ℕ → Bytes) (law : IsDevice device contents) (block data_size : ℕ) where
  -- the pass stands on the block `m`, with room for a header
  pub record On (m : Bytes) (p : Pass W) : Type 0 where
    pub bytes_of : contents p.world block ≡ m
    pub room : 4 ≤ length p.store.buffer

  On-Kept : {m : Bytes} {p q : Pass W} → On m p → Kept contents block p q → On m q
  On-Kept o k = record {
    bytes_of = k.same_block ∙ o.bytes_of;
    room = omega (arith, o.room, k.same_size);
  }

  module _ (m : Bytes) (bytes : AreBytes m)
      (small : data_size + (max_message_size + policy.trailer_size + 5) < 2 ^ 32) where
    -- the read of a flag: it is the one of the record, or the device failed
    data FlagRead (c len : ℕ) (p : Pass W) : (ReadResult × Bool) × Pass W → Type 0 where
      flag_is :
          (b : Bool) (q : Pass W)
          → Kept contents block p q
          → b ≡ flag_marks_sent_or_discarded (byte_at m (c + (4 + len + policy.trailer_size)))
          → FlagRead c len p ((succeeded, b), q)
      flag_failed :
          (b : Bool) (q : Pass W)
          → Kept contents block p q
          → Failed device block
          → FlagRead c len p ((device_failed, b), q)

    is_record_sent_or_discarded-FlagRead :
        (c len : ℕ) (p : Pass W)
        → IsRecord max_message_size policy.trailer_size m data_size c len
        → On m p
        → FlagRead c len p
            (is_record_sent_or_discarded max_message_size device policy block c len data_size p)
    unfolding is_record_sent_or_discarded sent_flag_offset
    is_record_sent_or_discarded-FlagRead c len p r o =
        let offset = sent_flag_offset max_message_size device policy c len in
        let fits_size = r.header.not_too_long in
        let at_flag : offset ≡ c + (4 + len + policy.trailer_size) =
          omega (arith, r.whole, small) in
        let within : span_is_within_data offset 1 data_size ≡ true =
          ground (arith, r.whole, small) in
        rw within (answered offset at_flag (device.read block offset 1 p.world).0.0 refl)
      where
        answered :
            (offset : ℕ)
            → offset ≡ c + (4 + len + policy.trailer_size)
            → (ok : Bool) → (device.read block offset 1 p.world).0.0 ≡ ok
            → let r = device.read block offset 1 p.world in
              FlagRead c len p (
                (
                  if r.0.0 then succeeded else device_failed,
                  flag_marks_sent_or_discarded (byte_at r.0.1 0),
                ),
                record p { world = r.1; calls = reads block offset 1 r.0.0 ∷ p.calls },
              )
        answered offset at_flag true e =
            let got = device.read block offset 1 p.world in
            let flag : byte_at got.0.1 0 ≡ byte_at m (c + (4 + len + policy.trailer_size)) =
              ap (λ (t : Bytes). byte_at t 0) (law.reads_bytes block offset 1 p.world e)
              ∙ byte_at-slice (contents p.world block) offset 1 0 (omega arith)
              ∙ ap (λ (t : Bytes). byte_at t (offset + 0)) o.bytes_of
              ∙ ap (byte_at m) (omega arith) in
            rw e (
              flag_is (flag_marks_sent_or_discarded (byte_at got.0.1 0))
                (record p { world = got.1; calls = reads block offset 1 true ∷ p.calls })
                (record {
                  same_block = law.keeps_blocks block offset 1 p.world block;
                  same_size = refl;
                })
                (ap flag_marks_sent_or_discarded flag))
        answered offset at_flag false e =
            let got = device.read block offset 1 p.world in
            rw e (
              flag_failed (flag_marks_sent_or_discarded (byte_at got.0.1 0))
                (record p { world = got.1; calls = reads block offset 1 false ∷ p.calls })
                (record {
                  same_block = law.keeps_blocks block offset 1 p.world block;
                  same_size = refl;
                })
                (record { at_offset = offset; at_count = 1; at_world = p.world; fails = e }))

    -- what a flag that was read says of the record before it
    flag-Round :
        (c len : ℕ) (p : Pass W) (f : (ReadResult × Bool) × Pass W)
        → AllMarked max_message_size policy.trailer_size m data_size c
        → IsRecord max_message_size policy.trailer_size m data_size c len
        → On m p
        → FlagRead c len p f
        → Round device block max_message_size policy.trailer_size m data_size c (
            judge_record max_message_size device policy
              (record { cursor = c; scanned = scan_clean })
              len
              data_size
              f.0)
          × On m f.1
    flag-Round c len p x marked r o (flag_failed b q kept f) = (
      ends (record { cursor = data_size; scanned = scan_device_failed }) (device_fails f),
      On-Kept o kept,
    )
    flag-Round c len p f marked r o (flag_is true q kept e) =
        let fits_size = r.header.not_too_long in
        let no_wrap : add_size c (4 + len + policy.trailer_size + 1)
            ≡ c + (4 + len + policy.trailer_size + 1) =
          omega (arith, r.whole, small) in
        (
          rw no_wrap
              (steps len r (marks_right (byte_at m (c + (4 + len + policy.trailer_size))) (sym e))),
          On-Kept o kept,
        )
    flag-Round c len p f marked r o (flag_is false q kept e) = (
      ends (record { cursor = c; scanned = scan_clean })
          (unsent_at c len marked r
            (marks_not (byte_at m (c + (4 + len + policy.trailer_size))) (sym e))),
      On-Kept o kept,
    )

    Extent-Round :
        (c : ℕ) (p : Pass W) (x : (ReadResult × ℕ) × Pass W)
        → AllMarked max_message_size policy.trailer_size m data_size c
        → c < data_size
        → On m p
        → Extent device contents block max_message_size policy.trailer_size data_size c p x
        → let flagged =
            is_record_sent_or_discarded max_message_size device policy block c x.0.1 data_size
              x.1 in
          let found : (ReadResult × Bool) × Pass W =
            if is_succeeded x.0.0 then flagged else ((x.0.0, false), x.1) in
          Round device block max_message_size policy.trailer_size m data_size c (
            judge_record max_message_size device policy
              (record { cursor = c; scanned = scan_clean })
              x.0.1
              data_size
              found.0)
          × On m found.1
    Extent-Round c p x marked inside o (record_failed len q kept f) = (
      ends (record { cursor = data_size; scanned = scan_device_failed }) (device_fails f),
      On-Kept o kept,
    )
    Extent-Round c p x marked inside o (record_damaged len q kept none_here) = (
      ends (record { cursor = data_size; scanned = scan_corrupt })
          (damaged_at c marked inside (λ l r. none_here l (
            subst (λ (t : Bytes). IsRecord max_message_size policy.trailer_size t data_size c l)
              (sym o.bytes_of) r))),
      On-Kept o kept,
    )
    Extent-Round c p x marked inside o (record_whole len q kept r same) =
        let here =
          subst (λ (t : Bytes). IsRecord max_message_size policy.trailer_size t data_size c len)
            o.bytes_of r in
        flag-Round c len q
          (is_record_sent_or_discarded max_message_size device policy block c len data_size q)
          marked here (On-Kept o kept)
          (is_record_sent_or_discarded-FlagRead c len q here (On-Kept o kept))

    -- a round of the loop
    advance-Round :
        (c : ℕ) (p : Pass W)
        → AllMarked max_message_size policy.trailer_size m data_size c
        → c < data_size
        → On m p
        → let a =
            advance_past_sent_record max_message_size device policy block
              (record { cursor = c; scanned = scan_clean })
              data_size
              p in
          Round device block max_message_size policy.trailer_size m data_size c a.0 × On m a.1
    unfolding advance_past_sent_record
    advance-Round c p marked inside o =
        Extent-Round c p (read_record_extent max_message_size device policy block c data_size p)
          marked inside o
          (read_record_extent-Extent max_message_size device policy contents law block data_size c p
            (subst AreBytes (sym o.bytes_of) bytes) inside (omega arith) o.room)

    find_loop-stopped :
        (fuel : ℕ) (scan : Scan) (p : Pass W)
        → (find_loop max_message_size device policy fuel false block scan data_size p).0 ≡ scan
    unfolding find_loop
    find_loop-stopped zero scan p = refl
    find_loop-stopped (suc fuel) scan p = refl

    -- The loop ends by its test, whatever more fuel it has, and has its answer then.
    find_loop-FirstUnsent :
        (fuel c : ℕ) (p : Pass W)
        → AllMarked max_message_size policy.trailer_size m data_size c
        → c ≤ data_size
        → data_size < c + fuel
        → On m p
        → FirstUnsent device block max_message_size policy.trailer_size m data_size
            (find_loop max_message_size device policy fuel true block
              (record { cursor = c; scanned = scan_clean })
              data_size
              p).0
    unfolding find_loop
    find_loop-FirstUnsent zero c p marked le less o = absurd (omega (arith, le, less))
    find_loop-FirstUnsent (suc fuel) c p marked le less o =
        let scan : Scan = record { cursor = c; scanned = scan_clean } in
        let a = advance_past_sent_record max_message_size device policy block scan data_size p in
        if_lem
          (λ (x : Scan × Pass W).
            FirstUnsent device block max_message_size policy.trailer_size m data_size x.0)
          (ltb c data_size)
          (find_loop max_message_size device policy fuel a.0.0 block a.0.1 data_size a.1) (scan, p)
          (λ inside.
            let (round, on) = advance-Round c p marked (ltb→lt c data_size inside) o in
            next
              (λ k q k_marked k_le k_less k_on.
                find_loop-FirstUnsent fuel k q k_marked k_le k_less k_on)
              a.0 a.1 round on)
          (λ stop.
            let at_end : data_size ≡ c = ground (arith, le) in
            subst
              (λ k.
                FirstUnsent device block max_message_size policy.trailer_size m data_size
                  (record { cursor = k; scanned = scan_clean }))
              at_end
              (all_sent (
                subst (AllMarked max_message_size policy.trailer_size m data_size) (sym at_end)
                  marked)))
      where
        next :
            ((k : ℕ) (q : Pass W)
              → AllMarked max_message_size policy.trailer_size m data_size k
              → k ≤ data_size
              → data_size < k + fuel
              → On m q
              → FirstUnsent device block max_message_size policy.trailer_size m data_size
                  (find_loop max_message_size device policy fuel true block
                    (record { cursor = k; scanned = scan_clean })
                    data_size
                    q).0)
            → (x : Bool × Scan) (q : Pass W)
            → Round device block max_message_size policy.trailer_size m data_size c x
            → On m q
            → FirstUnsent device block max_message_size policy.trailer_size m data_size
                (find_loop max_message_size device policy fuel x.0 block x.1 data_size q).0
        next again x q (ends scan answer) on =
            subst (FirstUnsent device block max_message_size policy.trailer_size m data_size)
              (sym (find_loop-stopped fuel scan q)) answer
        next again x q (steps len r flag) on =
            again (c + (4 + len + policy.trailer_size + 1)) q (behind c len marked r flag) r.whole
              (omega (arith, less)) on

    -- Whatever bytes stand in the block, the scan of a device that fails at will ends, and answers: the
    -- end of the data, if only whole records stand before it that are marked as sent or discarded; or
    -- the first record that is not marked, where only such records stand before it; or the end of the
    -- data and a damage, if no whole record stands behind such records; or the end and that the device
    -- failed, of one that can fail. The block holds bytes, it and the largest record have together less than 2 ^ 32, and the
    -- buffer has room for a header.
    pub find_first_unsent-FirstUnsent :
        (p : Pass W)
        → contents p.world block ≡ m
        → 4 ≤ length p.store.buffer
        → FirstUnsent device block max_message_size policy.trailer_size m data_size
            (find_first_unsent max_message_size device policy block data_size p).0
    unfolding find_first_unsent
    find_first_unsent-FirstUnsent p same room =
        find_loop-FirstUnsent (suc data_size) 0 p at_start (omega arith) (omega arith)
          (record { bytes_of = same; room = room })
