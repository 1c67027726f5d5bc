-- ===== src/BlockStore/Ends.antt =====
-- The loop of a read of the store ends by itself: how much fuel is enough.
use mathlib.Core.Bool.{false≢true}
use solid_syslog.Base.{
  ℕ, zero, suc, ◌+◌, ◌-◌, ◌*◌, ◌^◌, ◌≤◌, ◌<◌, ◌≡◌, refl, ap, sym, ◌∙◌, Bool, true, false, if_lem,
  not, not-true, ◌==◌, [], Bytes, arith, branch_eq_on, ltb, length, if◌then◌else◌,
}
use solid_syslog.RecordStore.{
  ReadResult, succeeded, end_of_data, corrupt, rejected, finished_with, could_not_open,
  device_failed, record_extent_is_known, forget_last_read, step_past_last_read,
}
use solid_syslog.RecordStore.Fits.{read-Remembers}
use solid_syslog.BlockSequence.{
  BlockSequence, BlockStoreErrors, record_corrupt, record_rejected, set_read_cursor,
  mark_write_block_corrupt, read_is_behind_write, leave_read_block, has_unsent, read_block_size_of,
  advance_past_disposed_read_block, set_present, dispose_read_block, note_device_failure,
  size_failed, dispose_failed,
}
use solid_syslog.BlockSequence.Sized.{HasBound}
use solid_syslog.BlockSequence.Distance.{distance}
use solid_syslog.BlockSequence.Advances.{Advanced}
use solid_syslog.BlockStore.{
  StorePorts, StorePass, by_sequence, by_records, step_past_current, step_past, read_current,
  read_loop, read_next_unsent, judge_read,
}
use solid_syslog.BlockStore.Live.{Works, report_loss-Keeps}
use solid_syslog.BlockStore.Leaves.{went_on-Works, read_next_block-Advanced, abandon-Advanced}
use solid_syslog.BlockStore.Steps.{step_past-Stepped, size_read-Works}
use solid_syslog.RecordStore
use solid_syslog.BlockSequence

distance_mul : (d e b : ℕ) → d < e → d * b + b ≤ e * b
distance_mul d e b less =
    let k = e - (d + 1) in let split : e ≡ d + 1 + k = omega arith in rw split (omega arith)

module _ {W : Type 0} (max max_message_size bound : ℕ) (ports : StorePorts W)
    (has_bound : HasBound ports.block_ports bound)
    (small : bound + (max_message_size + ports.policy.trailer_size + 5) < 2 ^ 32) where
  -- the sizes that the sequence knows
  abbrev pub KnowsSizes : BlockSequence → Type 0
  KnowsSizes s =
      (s.write_position ≤ bound) × (s.read_block_size_known ≡ true → s.read_block_size ≤ bound)

  -- how far it is to the end of the block that is written
  abbrev pub to_go : BlockSequence → ℕ
  to_go s = distance s.read_sequence s.write_sequence * (bound + 1) + (bound - s.read_cursor)

  abbrev Onward : BlockSequence → BlockSequence → Type 0
  Onward s t = KnowsSizes t × (to_go t < to_go s)

  Advanced-Onward :
      (s t : BlockSequence) → KnowsSizes s → Advanced max ports.block_ports s t → Onward s t
  Advanced-Onward s t sized (nearer, (same, unknown)) = (
    (rw same sized.0, λ e. absurd (false≢true (sym unknown ∙ e))),
    omega (
      arith,
      distance_mul (distance t.read_sequence t.write_sequence)
          (distance s.read_sequence s.write_sequence) (bound + 1) nearer,
    ),
  )

  -- what a read remembers of a record whose extent it knows
  abbrev Remembers : ReadResult → StorePass W → Type 0
  Remembers r p =
      record_extent_is_known r ≡ true
      → (p.sequence.read_cursor < p.records.last_sent_flag_offset + 1)
        × (p.records.last_sent_flag_offset + 1 ≤ bound)

  step_past_current-Onward :
      (p : StorePass W)
      → KnowsSizes p.sequence
      → (p.sequence.read_cursor < p.records.last_sent_flag_offset + 1)
        × (p.records.last_sent_flag_offset + 1 ≤ bound)
      → Onward p.sequence (step_past_current max_message_size ports p).1.sequence
  unfolding step_past_current step_past_last_read
  step_past_current-Onward p sized (further, inside) = (sized, omega arith)

  -- the steps that go on
  step_past-Onward :
      (r : ReadResult) (p : StorePass W)
      → Works max p
      → KnowsSizes p.sequence
      → Remembers r p
      → let t = step_past max_message_size ports r p in t.0 ≡ true → Onward p.sequence t.1.sequence
  unfolding step_past step_past_current step_past_last_read
  step_past-Onward rejected p h sized remembers goes_on =
      let Fine : StorePass W → Type 0 =
        λ q. Onward p.sequence (step_past_current max_message_size ports q).1.sequence in
      let onward = step_past_current-Onward p sized (remembers refl) in
      report_loss-Keeps max max_message_size ports Fine record_rejected p onward onward
  step_past-Onward finished_with p h sized remembers goes_on =
      step_past_current-Onward p sized (remembers refl)
  step_past-Onward end_of_data p h sized remembers goes_on =
      Advanced-Onward p.sequence (step_past max_message_size ports end_of_data p).1.sequence sized
        (read_next_block-Advanced max max_message_size ports p h goes_on)
  step_past-Onward corrupt p h sized remembers goes_on =
      Advanced-Onward p.sequence (step_past max_message_size ports corrupt p).1.sequence sized
        (abandon-Advanced max max_message_size ports p h goes_on)
  step_past-Onward succeeded p h sized remembers goes_on = absurd (false≢true goes_on)
  step_past-Onward could_not_open p h sized remembers goes_on = absurd (false≢true goes_on)
  step_past-Onward device_failed p h sized remembers goes_on = absurd (false≢true goes_on)

  -- the size of the read block, where it is known, and what the look at it leaves
  pub size_read-Sized :
      (p : StorePass W)
      → KnowsSizes p.sequence
      → let x = by_sequence (read_block_size_of ports.block_ports) p in
        x.0.0 ≡ true
        → (x.0.1 ≤ bound) × (KnowsSizes x.1.sequence × (to_go x.1.sequence ≡ to_go p.sequence))
  unfolding read_block_size_of
  size_read-Sized p sized =
      let q : BlockSequence.Pass W = record { sequence = p.sequence; world = p.world } in
      let s = p.sequence in
      let (got, w) = ports.block_ports.size s.read_sequence p.world in
      let s1 = record s { read_block_size = got.1; read_block_size_known = got.0 } in
      let asked : (Bool × ℕ) × BlockSequence.Pass W = (
        got,
        record {
          sequence = if not got.0 then note_device_failure size_failed s1 else s1;
          world = w;
        },
      ) in
      let known : (Bool × ℕ) × BlockSequence.Pass W = ((true, s.read_block_size), q) in
      let Fine : (Bool × ℕ) × BlockSequence.Pass W → Type 0 = λ x.
        x.0.0 ≡ true
        → (x.0.1 ≤ bound) × (KnowsSizes x.1.sequence × (to_go x.1.sequence ≡ to_go s)) in
      if_lem Fine (s.read_sequence == s.write_sequence) ((true, s.write_position), q)
        (if s.read_block_size_known then known else asked) (λ active e. (sized.0, (sized, refl)))
        (λ behind.
          if_lem Fine s.read_block_size_known known asked
            (λ remembered e. (sized.1 remembered, (sized, refl)))
            (λ unknown gives.
              let fits = has_bound.size_fits s.read_sequence p.world gives in
              if_lem (λ (t : BlockSequence). (got.1 ≤ bound) × (KnowsSizes t × (to_go t ≡ to_go s)))
                (not got.0) (note_device_failure size_failed s1) s1
                (λ fails. absurd (false≢true (sym (not-true got.0 fails) ∙ gives)))
                (λ fine. (fits, ((sized.0, λ e. fits), refl)))))

  -- a read that has at most so far to go, or failed
  data Ready (furthest : ℕ) : (ReadResult × Bytes) × StorePass W → Type 0 where
    ready :
        (r : ReadResult × Bytes) (q : StorePass W)
        → Works max q
        → KnowsSizes q.sequence
        → Remembers r.0 q
        → to_go q.sequence ≤ furthest
        → Ready furthest (r, q)
    unreadable : (bytes : Bytes) (q : StorePass W) → Ready furthest ((device_failed, bytes), q)

  read_current-Ready :
      (max_size : ℕ) (p : StorePass W)
      → Works max p
      → KnowsSizes p.sequence
      → Ready (to_go p.sequence) (read_current max_message_size ports max_size p)
  unfolding read_current
  read_current-Ready max_size p h sized =
      let x = by_sequence (read_block_size_of ports.block_ports) p in
      let block = x.1.sequence.read_sequence in
      let cursor = x.1.sequence.read_cursor in
      let r =
        by_records
          (RecordStore.read max_message_size ports.device ports.policy block cursor x.0.1 max_size)
          x.1 in
      let (still, works) = size_read-Works max max_message_size ports p h in
      if_lem (Ready (to_go p.sequence)) x.0.0 r ((device_failed, []), x.1)
        (λ known.
          let (fits, (sized_still, as_far)) = size_read-Sized p sized known in
          ready r.0 r.1 (still, works known) sized_still
            (λ extent_known.
              let q : RecordStore.Pass W = record {
                store = x.1.records;
                world = x.1.world;
                calls = x.1.calls;
              } in
              let bounds =
                read-Remembers max_message_size ports.device ports.policy block x.0.1
                  (omega (arith, fits, small)) cursor max_size q extent_known in
              (bounds.0, omega (arith, bounds.1, fits)))
            (omega (arith, as_far)))
        (λ unknown. unreadable [] x.1)

  -- More fuel than there is to go makes no difference.
  read_loop-Ends :
      (a b max_size furthest : ℕ) (x : (ReadResult × Bytes) × StorePass W)
      → Ready furthest x
      → furthest < a
      → furthest < b
      → read_loop max_message_size ports a max_size x.0 x.1
        ≡ read_loop max_message_size ports b max_size x.0 x.1
  unfolding read_loop step_past
  read_loop-Ends zero b max_size furthest x h less_a less_b = absurd (omega (arith, less_a))
  read_loop-Ends (suc a) zero max_size furthest x h less_a less_b = absurd (omega (arith, less_b))
  read_loop-Ends (suc a) (suc b) max_size furthest x (unreadable bytes q) less_a less_b = refl
  read_loop-Ends (suc a) (suc b) max_size furthest x (ready r q h sized remembers near) less_a
        less_b =
      let t = step_past max_message_size ports r.0 q in
      let again = read_current max_message_size ports max_size t.1 in
      branch_eq_on t.0 (read_loop max_message_size ports a max_size again.0 again.1)
        (read_loop max_message_size ports b max_size again.0 again.1) (r, t.1)
        (λ goes_on.
          let works =
            went_on-Works max t (step_past-Stepped max max_message_size ports r.0 q h) goes_on in
          let (sized_still, nearer) = step_past-Onward r.0 q h sized remembers goes_on in
          read_loop-Ends a b max_size (to_go t.1.sequence) again
            (read_current-Ready max_size t.1 works sized_still)
            (omega (arith, nearer, near, less_a)) (omega (arith, nearer, near, less_b)))

  at_most : (s : BlockSequence) → to_go s < 100 * (bound + 1)
  at_most s = omega (
    arith,
    distance_mul (distance s.read_sequence s.write_sequence) 100 (bound + 1) (omega arith),
  )

  pub read_next_unsent-Ends :
      (a b max_size : ℕ) (p : StorePass W)
      → Works max p
      → KnowsSizes p.sequence
      → 100 * (bound + 1) ≤ a
      → 100 * (bound + 1) ≤ b
      → read_next_unsent max_message_size ports a max_size p
        ≡ read_next_unsent max_message_size ports b max_size p
  unfolding read_next_unsent
  read_next_unsent-Ends a b max_size p h sized enough_a enough_b =
      let first = read_current max_message_size ports max_size p in
      ap
        (λ (x : (ReadResult × Bytes) × StorePass W).
          if has_unsent p.sequence
          then ((ltb 0 (length x.0.1), x.0.1), judge_read max_message_size ports x.0.0 x.1)
          else ((false, []), p))
        (read_loop-Ends a b max_size (to_go p.sequence) first
          (read_current-Ready max_size p h sized) (omega (arith, at_most p.sequence, enough_a))
          (omega (arith, at_most p.sequence, enough_b)))
