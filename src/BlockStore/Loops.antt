-- ===== src/BlockStore/Loops.antt =====
-- The loops of a store end by themselves, whatever was asked before.
use mathlib.Core.Bool.{false≢true}
use solid_syslog.Base.{
  ℕ, ◌+◌, ◌*◌, ◌^◌, ◌≤◌, ◌<◌, ◌≡◌, inl, inr, refl, ap, sym, subst, ◌∙◌, Bool, true, false, List, [],
  arith, if◌then◌else◌,
}
use solid_syslog.BlockSequence.{
  BlockSequence, block_count, clamp_to_range, read_failed, size_failed, set_read_cursor,
  read_block_size_of, read_is_behind_write,
}
use solid_syslog.BlockSequence.Resume.{open_sequence}
use solid_syslog.BlockSequence.Sized.{HasBound}
use solid_syslog.BlockStore.{
  BlockStore, StorePorts, StorePass, by_sequence, by_records, on_blocks, on_store, freeze,
  is_scan_failed, is_scan_corrupt, scan_read_block, abandon_rest_of_read_block, judge_write_block,
  check_write_block, resume_loop, resume_from_existing_block, write, store_record, store_write,
  store_read_next_unsent, store_mark_sent, read_next_unsent, mark_sent,
}
use solid_syslog.BlockStore.Live.{Works, Live}
use solid_syslog.BlockStore.Resumed.{scan_read_block-Scanned}
use solid_syslog.BlockStore.Started.{ask_started-Live}
use solid_syslog.BlockStore.Trace.{StoreOperation, ask_all}
use solid_syslog.BlockStore.Rounds.{resume_loop-Ends}
use solid_syslog.BlockStore.Ends.{read_next_unsent-Ends}
use solid_syslog.BlockStore
use solid_syslog.BlockSequence
use solid_syslog.BlockStore.Settled.{Fits, Settled, initialise-Settled, ask_all-Settled}

module _ {W : Type 0} (max_message_size bound : ℕ) (ports : StorePorts W)
    (has_bound : HasBound ports.block_ports bound)
    (wide : 65540 + ports.policy.trailer_size ≤ bound)
    (small : bound + (max_message_size + ports.policy.trailer_size + 5) < 2 ^ 32) where
  read-Ends :
      (max a b max_size : ℕ) (q : StorePass W)
      → Live max q
      → Settled max_message_size bound ports has_bound wide q
      → 100 * (bound + 1) ≤ a
      → 100 * (bound + 1) ≤ b
      → store_read_next_unsent max_message_size ports a max_size q
        ≡ store_read_next_unsent max_message_size ports b max_size q
  read-Ends max a b max_size q live settled enough_a enough_b =
      branch_eq_under q.block_store.frozen ((false, []), q)
        (read_next_unsent max_message_size ports a max_size q)
        (read_next_unsent max_message_size ports b max_size q)
        (λ works.
          read_next_unsent-Ends max max_message_size bound ports has_bound small a b max_size q
            (still_works live works) (still_fits settled works) enough_a enough_b)
    where
      branch_eq_under :
          {A : Type 0} (c : Bool) (x y z : A)
          → (c ≡ false → y ≡ z)
          → (if c then x else y) ≡ (if c then x else z)
      branch_eq_under true x y z h = refl
      branch_eq_under false x y z h = h refl

      still_works : Live max q → q.block_store.frozen ≡ false → Works max q
      still_works (inl h) works = h
      still_works (inr froze) works = absurd (false≢true (sym works ∙ froze.0))

      still_fits :
          Settled max_message_size bound ports has_bound wide q
          → q.block_store.frozen ≡ false
          → (q.sequence.write_position ≤ bound)
            × (q.sequence.read_block_size_known ≡ true → q.sequence.read_block_size ≤ bound)
      still_fits (inl frozen) works = absurd (false≢true (sym works ∙ frozen))
      still_fits (inr sized) works = sized.1

  -- Behind Initialise over a sequence as it was initialised, with no report before, if Open finds no
  -- more blocks than are allowed, and whatever was written, read and marked since, a read ends by
  -- itself within 100 * (`bound` + 1) rounds: more fuel changes neither the answer nor the store.
  -- The rounds of a store that works over the corrupt blocks end within 100. `bound` is at least
  -- every size that the device gives, the size of a block and that of any record, and it and the
  -- largest record are together less than 2 ^ 32.
  pub store_loops-End :
      (max_block_size max_blocks : ℕ) (os : List StoreOperation) (p : StorePass W)
      → p.sequence ≡ BlockSequence.initialise max_block_size max_blocks
      → p.reports ≡ []
      → let max = clamp_to_range max_blocks 2 98 in
        block_count (by_sequence (open_sequence ports.block_ports) p).1.sequence ≤ max
        → p.sequence.max_block_size ≤ bound
        → (a b max_size n : ℕ) (r : StorePass W) → 100 * (bound + 1) ≤ a
        → 100 * (bound + 1) ≤ b
        → 100 ≤ n
        → Works max r
        → let q =
            ask_all max max_message_size ports os
              (BlockStore.initialise max_message_size ports p) in
          let first = scan_read_block max_message_size ports r in
          (store_read_next_unsent max_message_size ports a max_size q
            ≡ store_read_next_unsent max_message_size ports b max_size q)
          × (resume_loop max_message_size ports n first.0 first.1
              ≡ resume_loop max_message_size ports 100 first.0 first.1)
  unfolding BlockSequence.initialise
  store_loops-End max_block_size max_blocks os p same no_report few blocks a b max_size n r enough_a
        enough_b enough works =
      let max = clamp_to_range max_blocks 2 98 in
      let q =
        ask_all max max_message_size ports os (BlockStore.initialise max_message_size ports p) in
      let fits : Fits max_message_size bound ports has_bound wide p = (
        blocks,
        (
          subst (λ k. k ≤ bound) (sym (ap (λ (s : BlockSequence). s.write_position) same))
              (omega arith),
          λ e.
              absurd
                (false≢true (sym (ap (λ (s : BlockSequence). s.read_block_size_known) same) ∙ e)),
        ),
      ) in
      let first = scan_read_block max_message_size ports r in
      (
        read-Ends max a b max_size q
            (ask_started-Live max_message_size ports max_block_size max_blocks os p same no_report
              few)
            (ask_all-Settled max_message_size bound ports has_bound wide max os
              (BlockStore.initialise max_message_size ports p)
              (initialise-Settled max_message_size bound ports has_bound wide p fits))
            enough_a enough_b,
        resume_loop-Ends max max_message_size ports n 100 first
            (scan_read_block-Scanned max max_message_size ports r works) (omega (arith, enough))
            (omega arith),
      )
