-- ===== src/BlockSequence/Sound.antt =====
-- What holds of a sequence of blocks while its device does not fail, and what a failure leaves.
use mathlib.Core.Bool.{false≢true}
use solid_syslog.Base.{
  ℕ, ◌+◌, ◌≤◌, ◌<◌, ◌≡◌, ◌≢◌, refl, ap, sym, subst, ◌∙◌, Bool, true, false, Bool-cases, inl, inr,
  if_lem, not-true, ◌&&◌, not, ==_iff, arith, Option, none, some, if◌then◌else◌,
}
use solid_syslog.BlockSequence.{
  BlockSequence, BlockStoreErrors, Ports, Pass, block_count, set_present, note_device_failure,
  start_reading_block, next_present_sequence, on_sequence, is_read_block_active_write,
  is_read_block_fully_drained, read_block_size_of, advance_past_disposed_read_block,
  dispose_read_block, dispose_read_block_if_drained, discard_oldest_block, dispose_failed,
  size_failed, notify_enabled, is_above_threshold, call_back,
}
use solid_syslog.BlockSequence.Distance.{Nearer, distance, set_other, next_present_loop-Nearer}

module _ (max : ℕ) where
  -- the run of blocks: the oldest is the one that is read, it and the one written are present, and
  -- there is at most one block too many
  pub record RunOf (max_blocks first reading writing : ℕ) (present : ℕ → Bool) : Type 0 where
    pub ceiling : max_blocks ≡ max
    pub read_is_oldest : reading ≡ first
    pub oldest_small : first < 100
    pub write_small : writing < 100
    pub oldest_present : present first ≡ true
    pub write_present : present writing ≡ true
    pub one_over : distance first writing + 1 ≤ max + 1

  abbrev pub IsRun : BlockSequence → Type 0
  IsRun s = RunOf s.max_blocks s.oldest_sequence s.read_sequence s.write_sequence s.block_present

  -- there is none too many, unless the device failed
  abbrev pub IsSound : BlockSequence → Type 0
  IsSound s = IsRun s × (s.device_failed ≡ false → block_count s ≤ max)

  pub noted-IsSound :
      (operation : BlockStoreErrors) (s : BlockSequence)
      → IsRun s
      → IsSound (note_device_failure operation s)
  noted-IsSound operation s r =
      if_lem IsSound (not s.device_failed)
        (record s { device_failed = true; failed_operation = operation }) s
        (λ works. (r, λ e. absurd (false≢true (sym e))))
        (λ failed. (r, λ e. absurd (false≢true (sym failed ∙ ap not e))))

  -- Behind the oldest block, the next one that is present is nearer to the one that is written.
  pub left_behind-Nearer :
      (s : BlockSequence)
      → IsRun s
      → s.oldest_sequence ≢ s.write_sequence
      → let t = set_present s.oldest_sequence false s in
        (t.block_present s.write_sequence ≡ true)
        × Nearer t.block_present s.oldest_sequence s.write_sequence
            (next_present_sequence s.oldest_sequence t)
  unfolding next_present_sequence
  left_behind-Nearer s r apart =
      let t = set_present s.oldest_sequence false s in
      let there : t.block_present s.write_sequence ≡ true =
        set_other s.write_sequence s.oldest_sequence false (s.block_present s.write_sequence)
          (λ e. apart (sym e))
        ∙ r.write_present in
      (
        there,
        next_present_loop-Nearer 100 t.block_present s.oldest_sequence s.write_sequence
            r.oldest_small r.write_small there apart (omega arith),
      )

  -- The read block is left, and the read starts on the next one.
  pub left_behind-IsSound :
      (s : BlockSequence)
      → IsRun s
      → s.oldest_sequence ≢ s.write_sequence
      → let t = set_present s.oldest_sequence false s in
        let next = next_present_sequence s.oldest_sequence t in
        IsSound (start_reading_block next (record t { oldest_sequence = next }))
  left_behind-IsSound s r apart =
      let (there, n) = left_behind-Nearer s r apart in
      (
        record {
          ceiling = r.ceiling;
          read_is_oldest = refl;
          oldest_small = n.small;
          write_small = r.write_small;
          oldest_present = n.is_present;
          write_present = there;
          one_over = omega (arith, n.nearer, r.one_over);
        },
        λ e. omega (arith, n.nearer, r.one_over),
      )

  module _ {W : Type 0} (ports : Ports W) where
    -- The threshold changes nothing but whether it is crossed.
    pub notify-Keeps :
        (P : BlockSequence → Type 0) (threshold : Option (W → ℕ × W)) (p : Pass W)
        → P p.sequence
        → ((b : Bool) → P (record p.sequence { threshold_crossed = b }))
        → P (notify_enabled ports threshold p).sequence
    unfolding notify_enabled
    notify-Keeps P none p h noted = h
    notify-Keeps P (some ask) p h noted =
        let (threshold, w) = ask p.world in
        let p1 : Pass W = record p { world = w } in
        let crossed : Pass W = record {
          sequence = record p.sequence { threshold_crossed = true };
          world = call_back ports.on_threshold_crossed (ports.report w);
        } in
        let below : Pass W = on_sequence (λ s. record s { threshold_crossed = false }) p1 in
        if_lem (λ (q : Pass W). P q.sequence) (not (is_above_threshold threshold p.sequence)) below
          (if not p.sequence.threshold_crossed then crossed else p1) (λ low. noted false)
          (λ high.
            if_lem (λ (q : Pass W). P q.sequence) (not p.sequence.threshold_crossed) crossed p1
              (λ first. noted true) (λ again. h))

    pub notify-IsSound :
        (p : Pass W)
        → IsSound p.sequence
        → IsSound (notify_enabled ports ports.get_capacity_threshold p).sequence
    notify-IsSound p s = notify-Keeps IsSound ports.get_capacity_threshold p s (λ b. s)

    -- What holds with any size remembered, and with the failure noted, holds behind a look at the size.
    pub read_block_size-Keeps :
        (P : BlockSequence → Type 0) (p : Pass W)
        → P p.sequence
        → ((size : ℕ) (known : Bool)
            → let s = record p.sequence { read_block_size = size; read_block_size_known = known } in
              P s × P (note_device_failure size_failed s))
        → P (read_block_size_of ports p).1.sequence
    unfolding read_block_size_of
    read_block_size-Keeps P p h cached =
        let (got, w) = ports.size p.sequence.read_sequence p.world in
        let s1 = record p.sequence { read_block_size = got.1; read_block_size_known = got.0 } in
        let s2 = if not got.0 then note_device_failure size_failed s1 else s1 in
        let asked : (Bool × ℕ) × Pass W = (got, record { sequence = s2; world = w }) in
        let known : (Bool × ℕ) × Pass W = ((true, p.sequence.read_block_size), p) in
        if_lem (λ (x : (Bool × ℕ) × Pass W). P x.1.sequence) (is_read_block_active_write p.sequence)
          ((true, p.sequence.write_position), p)
          (if p.sequence.read_block_size_known then known else asked) (λ active. h)
          (λ behind.
            if_lem (λ (x : (Bool × ℕ) × Pass W). P x.1.sequence) p.sequence.read_block_size_known
              known asked (λ remembered. h)
              (λ unknown.
                if_lem P (not got.0) (note_device_failure size_failed s1) s1
                  (λ fails. (cached got.1 got.0).1) (λ works. (cached got.1 got.0).0)))

    -- a run that is read behind the block that is written
    abbrev IsBehind : BlockSequence → Type 0
    IsBehind s = IsRun s × (s.read_sequence ≢ s.write_sequence)

    noted-IsBehind : (s : BlockSequence) → IsBehind s → IsBehind (note_device_failure size_failed s)
    noted-IsBehind s h =
        if_lem IsBehind (not s.device_failed)
          (record s { device_failed = true; failed_operation = size_failed }) s (λ works. h)
          (λ failed. h)

    advance_past-IsSound :
        (s : BlockSequence) (w : W)
        → IsRun s
        → s.oldest_sequence ≢ s.write_sequence
        → IsSound
            (advance_past_disposed_read_block ports
              (record { sequence = set_present s.oldest_sequence false s; world = w })).sequence
    unfolding advance_past_disposed_read_block
    advance_past-IsSound s w r apart =
        let t = set_present s.oldest_sequence false s in
        let next = next_present_sequence s.oldest_sequence t in
        notify-IsSound
          (record {
            sequence = record (start_reading_block next (record t { oldest_sequence = next })) {
              at_capacity = false;
            };
            world = w;
          })
          (left_behind-IsSound s r apart)

    pub dispose_read_block-IsSound :
        (p : Pass W)
        → IsRun p.sequence
        → p.sequence.read_sequence ≢ p.sequence.write_sequence
        → IsSound (dispose_read_block ports p).1.sequence
    unfolding dispose_read_block
    dispose_read_block-IsSound p r apart =
        let s = p.sequence in
        let (ok, w) = ports.dispose s.read_sequence p.world in
        let p1 : Pass W = record p { world = w } in
        let gone = on_sequence (set_present s.read_sequence false) p1 in
        elim (Bool-cases ok) [
          | inl disposed ↦ rw disposed (
              subst
                (λ k.
                  IsSound
                    (advance_past_disposed_read_block ports
                      (record { sequence = set_present k false s; world = w })).sequence)
                (sym r.read_is_oldest)
                (advance_past-IsSound s w r (λ e. apart (r.read_is_oldest ∙ e))))
          | inr failed ↦ rw failed (noted-IsSound dispose_failed s r)
        ]

    pub discard_oldest_block-IsSound :
        (p : Pass W)
        → IsRun p.sequence
        → p.sequence.oldest_sequence ≢ p.sequence.write_sequence
        → IsSound (discard_oldest_block ports p).1.sequence
    unfolding discard_oldest_block next_present_sequence
    discard_oldest_block-IsSound p r apart =
        let s = p.sequence in
        elim (Bool-cases (ports.dispose s.oldest_sequence p.world).0) [
          | inl disposed ↦ rw disposed (left_behind-IsSound s r apart)
          | inr failed ↦ rw failed (noted-IsSound dispose_failed s r)
        ]

    -- What sound sequences have, and a sequence has whatever size is remembered, holds behind it.
    pub dispose_if_drained-Keeps :
        (P : BlockSequence → Type 0) (p : Pass W)
        → P p.sequence
        → IsRun p.sequence
        → ((size : ℕ) (known : Bool)
            → P (record p.sequence { read_block_size = size; read_block_size_known = known }))
        → ((s : BlockSequence) → IsSound s → P s)
        → P (dispose_read_block_if_drained ports p).1.sequence
    unfolding dispose_read_block_if_drained
    dispose_if_drained-Keeps P p h r cached from_sound =
        let self = p.sequence in
        let (got, p1) = read_block_size_of ports p in
        let disposed = dispose_read_block ports p1 in
        let drained : Bool × Pass W =
          if got.0 && is_read_block_fully_drained got.1 p1.sequence
          then disposed
          else (false, p1) in
        if_lem (λ (x : Bool × Pass W). P x.1.sequence) (not (is_read_block_active_write self))
          drained (false, p)
          (λ behind.
            let apart : self.read_sequence ≢ self.write_sequence = λ e. absurd (
              false≢true (
                sym (not-true (is_read_block_active_write self) behind)
                ∙ (==_iff self.read_sequence self.write_sequence).1 e)) in
            if_lem (λ (x : Bool × Pass W). P x.1.sequence)
              (got.0 && is_read_block_fully_drained got.1 p1.sequence) disposed (false, p1)
              (λ empty.
                let still =
                  read_block_size-Keeps IsBehind p (r, apart)
                    (λ size known.
                      let s = record self {
                        read_block_size = size;
                        read_block_size_known = known;
                      } in
                      ((r, apart), noted-IsBehind s (r, apart))) in
                from_sound disposed.1.sequence (dispose_read_block-IsSound p1 still.0 still.1))
              (λ unread. read_block_size-Keeps P p h (λ size known.
                let s = record self { read_block_size = size; read_block_size_known = known } in
                (
                  cached size known,
                  from_sound (note_device_failure size_failed s) (noted-IsSound size_failed s r),
                ))))
          (λ active. h)
