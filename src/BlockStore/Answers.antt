-- ===== src/BlockStore/Answers.antt =====
-- What a write of a record that fits does, and what the read of a record that stands there answers.
use mathlib.Core.Bool.{false≢true}
use solid_syslog.Base.{
  ℕ, zero, suc, ◌%◌, ◌^◌, ◌<◌, ◌≡◌, refl, ap, sym, subst, ◌∙◌, Bool, true, false, if_lem, not, ◌==◌,
  ltb, [], ◌∷◌, Bytes, arith, length, take, if◌then◌else◌, Option, none, some,
}
use solid_syslog.Service.{StoreWriteResult, not_retained, kept, lost}
use solid_syslog.RecordStore.{
  BlockDevice, ReadResult, succeeded, could_not_open, device_failed, AppendResult, append_succeeded,
  append_seal_failed, append_device_failed, record_size,
}
use solid_syslog.RecordStore.Contents.{Failed}
use solid_syslog.RecordStore.ReadBack.{CouldNotRun}
use solid_syslog.RecordStore.RoundTrip.{GivesBack, gives_message, gives_no_verdict, gives_failure}
use solid_syslog.BlockSequence.{
  BlockSequence, block_is_full, prepare_for_write, note_record_written, notify_enabled, call_back,
  has_unsent, read_block_size_of, on_sequence, is_above_threshold,
}
use solid_syslog.BlockSequence.{block_evicted}
use solid_syslog.BlockStore.{
  StorePorts, StorePass, StoreReport, by_records, freeze_if_device_failed, report_eviction,
  judge_append, store_record, write, store_write, read_current, step_past, read_loop,
  read_next_unsent, store_read_next_unsent,
}
use solid_syslog.RecordStore
use solid_syslog.BlockSequence
use solid_syslog.BlockStore.Drained.{Drained, IsLast, store_mark_sent-Drained}
use solid_syslog.BlockStore.{judge_read, store_mark_sent}

module _ {W : Type 0} (max_message_size : ℕ) (ports : StorePorts W) where
  pub write_goes :
      (message : Bytes) (p : StorePass W)
      → let bytes =
          record_size max_message_size ports.device ports.policy (length message % 2 ^ 16) in
        let p1 = report_eviction max_message_size ports p in
        let a =
          by_records
            (RecordStore.append max_message_size ports.device ports.policy
              p1.sequence.write_sequence message)
            p1 in
        p.block_store.frozen ≡ false
        → p.sequence.device_failed ≡ false
        → ltb 0 (length message) ≡ true
        → block_is_full bytes p.sequence ≡ false
        → store_write max_message_size ports message p
          ≡ judge_append max_message_size ports a.0 bytes a.1
  unfolding write store_record prepare_for_write freeze_if_device_failed
  write_goes message p not_frozen works some_bytes room =
      rw (not_frozen, some_bytes, room, works) refl

  -- what the store answers where the message stands: as much of it as the caller has room for, and a
  -- mark leaves nothing unsent then, unless it froze the store; or nothing, by a policy that can be
  -- without a verdict or a device that can fail
  pub data Answers (block : ℕ) (message : Bytes) (max_size : ℕ)
      : (Bool × Bytes) × StorePass W → Type 0 where
    answers_message :
        (x : (Bool × Bytes) × StorePass W)
        → x.0 ≡ (true, take max_size message)
        → Drained max_message_size ports (store_mark_sent max_message_size ports x.1)
        → Answers block message max_size x
    answers_no_verdict :
        (q : StorePass W)
        → CouldNotRun ports.policy
        → Answers block message max_size ((false, []), q)
    answers_failure :
        (q : StorePass W)
        → Failed ports.device block
        → Answers block message max_size ((false, []), q)

  take_some : (n : ℕ) (xs : Bytes) → 0 < n → 0 < length xs → ltb 0 (length (take n xs)) ≡ true
  take_some zero xs pos some_left = absurd (omega (arith, pos))
  take_some (suc n) [] pos some_left = absurd (omega (arith, some_left))
  take_some (suc n) (x ∷ xs) pos some_left = ground arith

  -- what the store makes of the last of its reads
  abbrev answer_of : (ReadResult × Bytes) × StorePass W → (Bool × Bytes) × StorePass W
  answer_of y = ((ltb 0 (length y.0.1), y.0.1), judge_read max_message_size ports y.0.0 y.1)

  -- a store that read its last record
  abbrev IsReadOut : (ReadResult × Bytes) × StorePass W → Type 0
  IsReadOut x = x.0.0 ≡ succeeded → IsLast max_message_size ports x.1

  -- A read that has its result, or no verdict, or failed, is the last.
  last_read-Answers :
      (block : ℕ) (message : Bytes) (max_size fuel : ℕ) (x : (ReadResult × Bytes) × StorePass W)
      → 0 < max_size
      → 0 < length message
      → GivesBack ports.device ports.policy block message max_size x.0
      → IsReadOut x
      → Answers block message max_size
          (answer_of (read_loop max_message_size ports fuel max_size x.0 x.1))
  unfolding read_loop step_past judge_read freeze_if_device_failed
  last_read-Answers block message max_size fuel x room some_left (gives_message r e) last =
      subst
        (λ (z : ReadResult × Bytes).
          Answers block message max_size
            (answer_of (read_loop max_message_size ports fuel max_size z x.1)))
        (sym e) (at_once fuel)
    where
      answered :
          Answers block message max_size (answer_of ((succeeded, take max_size message), x.1))
      answered =
          let h = last (ap (λ (z : ReadResult × Bytes). z.0) e) in
          let q = judge_read max_message_size ports succeeded x.1 in
          answers_message ((ltb 0 (length (take max_size message)), take max_size message), q)
            (λ i. (take_some max_size message room some_left i, take max_size message))
            (store_mark_sent-Drained max_message_size ports q (record {
              not_frozen = h.not_frozen;
              works = h.works;
              same_block = h.same_block;
              was_read = h.was_read;
              at_end = h.at_end;
            }))

      at_once :
          (fuel : ℕ)
          → Answers block message max_size (
              answer_of (
                read_loop max_message_size ports fuel max_size
                  (succeeded, take max_size message)
                  x.1))
      at_once zero = answered
      at_once (suc fuel) = answered
  last_read-Answers block message max_size zero x room some_left (gives_no_verdict f) last =
      answers_no_verdict (answer_of ((could_not_open, []), x.1)).1 f
  last_read-Answers block message max_size (suc fuel) x room some_left (gives_no_verdict f) last =
      answers_no_verdict (answer_of ((could_not_open, []), x.1)).1 f
  last_read-Answers block message max_size zero x room some_left (gives_failure f) last =
      answers_failure (answer_of ((device_failed, []), x.1)).1 f
  last_read-Answers block message max_size (suc fuel) x room some_left (gives_failure f) last =
      answers_failure (answer_of ((device_failed, []), x.1)).1 f

  -- a read of the block that is written
  pub read_written-Answers :
      (block : ℕ) (message : Bytes) (max_size fuel : ℕ) (q : StorePass W)
      → 0 < max_size
      → 0 < length message
      → q.block_store.frozen ≡ false
      → (q.sequence.read_sequence == q.sequence.write_sequence) ≡ true
      → ltb q.sequence.read_cursor q.sequence.write_position ≡ true
      → let x =
          by_records
            (RecordStore.read max_message_size ports.device ports.policy q.sequence.read_sequence
              q.sequence.read_cursor q.sequence.write_position max_size)
            q in
        GivesBack ports.device ports.policy block message max_size x.0
        → IsReadOut x
        → Answers block message max_size
            (store_read_next_unsent max_message_size ports fuel max_size q)
  unfolding read_next_unsent read_current read_block_size_of
  read_written-Answers block message max_size fuel q room some_left not_frozen same further gives
        last =
      if_lem (Answers block message max_size) q.block_store.frozen ((false, []), q)
        (read_next_unsent max_message_size ports fuel max_size q)
        (λ frozen. absurd (false≢true (sym not_frozen ∙ frozen)))
        (λ works.
          rw (same, further)
            (last_read-Answers block message max_size fuel
              (by_records
                (RecordStore.read max_message_size ports.device ports.policy
                  q.sequence.read_sequence q.sequence.read_cursor q.sequence.write_position
                  max_size)
                q)
              room some_left gives last))

  -- What the store relies on in what it calls back: that leaves the blocks alone.
  pub record LeavesBlocks (contents : W → ℕ → Bytes) : Type 0 where
    pub raise_leaves :
        (r : StoreReport) (w : W) (block : ℕ) → contents (ports.raise r w) block ≡ contents w block
    pub threshold_leaves :
        (ask : W → ℕ × W) (w : W) (block : ℕ)
        → ports.block_ports.get_capacity_threshold ≡ some ask
        → contents (ask w).1 block ≡ contents w block
    pub crossing_leaves :
        (w : W) (block : ℕ)
        → contents
            (call_back ports.block_ports.on_threshold_crossed (ports.block_ports.report w))
            block
          ≡ contents w block

  pub notify-leaves :
      (contents : W → ℕ → Bytes) (leaves : LeavesBlocks contents) (threshold : Option (W → ℕ × W))
      (p : BlockSequence.Pass W) (block : ℕ)
      → ports.block_ports.get_capacity_threshold ≡ threshold
      → contents (notify_enabled ports.block_ports threshold p).world block ≡ contents p.world block
  unfolding notify_enabled
  notify-leaves contents leaves none p block e = refl
  notify-leaves contents leaves (some ask) p block e =
      let (level, w) = ask p.world in
      let p1 : BlockSequence.Pass W = record p { world = w } in
      let Same : BlockSequence.Pass W → Type 0 =
        λ q. contents q.world block ≡ contents p.world block in
      let asked = leaves.threshold_leaves ask p.world block e in
      let low : BlockSequence.Pass W =
        on_sequence (λ s. record s { threshold_crossed = false }) p1 in
      let crossed : BlockSequence.Pass W = record {
        sequence = record p.sequence { threshold_crossed = true };
        world = call_back ports.block_ports.on_threshold_crossed (ports.block_ports.report w);
      } in
      if_lem Same (not (is_above_threshold level p.sequence)) low
        (if not p.sequence.threshold_crossed then crossed else p1) (λ below. asked)
        (λ above.
          if_lem Same (not p.sequence.threshold_crossed) crossed p1
            (λ first. leaves.crossing_leaves w block ∙ asked) (λ again. asked))

  taken : StoreWriteResult → Bool
  taken not_retained = false
  taken kept = true
  taken lost = false

  pub kept-succeeded :
      (r : AppendResult) (bytes : ℕ) (p : StorePass W)
      → (judge_append max_message_size ports r bytes p).0 ≡ kept
      → r ≡ append_succeeded
  unfolding judge_append taken
  kept-succeeded append_succeeded bytes p e = refl
  kept-succeeded append_device_failed bytes p e = absurd (false≢true (ap taken e))
  kept-succeeded append_seal_failed bytes p e = absurd (false≢true (ap taken e))

  -- a store that has nothing unsent, whose sequence knows what its device holds of the block
  pub record HasNothing (contents : W → ℕ → Bytes) (p : StorePass W) : Type 0 where
    pub not_frozen : p.block_store.frozen ≡ false
    pub works : p.sequence.device_failed ≡ false
    pub same_block : p.sequence.read_sequence ≡ p.sequence.write_sequence
    pub all_read : p.sequence.read_cursor ≡ p.sequence.write_position
    pub all_there : p.sequence.write_position ≡ length (contents p.world p.sequence.write_sequence)
