-- ===== src/BlockStore/Tests.antt =====
-- A store of three blocks over a memory, with the CRC-16 policy, and the theorems there.
use mathlib.Core.Bool.{false≢true}
use solid_syslog.Base.{
  ℕ, ◌≡◌, ◌≤◌, leb, leb→le, refl, Bool, true, false, ◌||◌, ◌==◌, arith, List, [], ◌∷◌, ◌++◌, none,
  Bytes, length, slice, blit, replicate, if◌then◌else◌,
}
use solid_syslog.Service.{kept}
use solid_syslog.Crc16.{bit_loop, byte_loop, compute, crc16_seal_record}
use solid_syslog.RecordStore.{initialise, append, assemble_record}
use solid_syslog.RecordStore.Crc16Records.{
  crc16_policy, crc16_policy-SealsInPlace, crc16_policy-OpensItsOwn, all_bytes, all_bytes-AreBytes,
}
use solid_syslog.BlockSequence.{
  BlockSequence, prepare_for_write, store_is_full, note_record_written, notify_enabled,
}
use solid_syslog.BlockSequence
use solid_syslog.BlockStore.{
  StorePorts, StorePass, write, store_record, freeze_if_device_failed, report_eviction,
  judge_append, store_write,
}
use solid_syslog.BlockStore.{by_sequence, read_next_unsent, resume_loop, scan_read_block}
use solid_syslog.BlockSequence.{block_count}
use solid_syslog.BlockSequence.Resume.{
  open_sequence, locate_run_boundaries, presence_loop, found_blocks, walk_loop, walk_step,
  first_block, resume_write,
}
use solid_syslog.BlockStore
use solid_syslog.BlockStore.Started.{started-Live}
use solid_syslog.RecordStore.Contents.{IsDevice}
use solid_syslog.RecordStore.Appended.{AppendsBehind}
use solid_syslog.BlockStore.Answers.{LeavesBlocks, HasNothing, Answers}
use solid_syslog.BlockStore.RoundTrip.{kept_record-Answers}
use solid_syslog.BlockStore.{store_read_next_unsent}
use solid_syslog.Base.{ap, ==_iff, Option, some}
use solid_syslog.BlockStore.Loops.{store_loops-End}
use solid_syslog.BlockSequence.Sized.{HasBound}
use solid_syslog.BlockStore.Live.{Live, Works}
use solid_syslog.BlockStore.Trusted.{Trusted}
use solid_syslog.BlockStore.Trace.{StoreOperation, writes, reads_next, marks_sent, ask_all}

-- the blocks that are there, and what they hold; it gives no size above 1000
record Memory : Type 0 where
  present : ℕ → Bool
  bytes : ℕ → Bytes

abbrev put : ℕ → Bytes → Memory → Memory
put block content w = record w { bytes = λ i. if i == block then content else w.bytes i }

abbrev memory_ports : StorePorts Memory
memory_ports = record {
  device = record {
    read = λ block offset count w. ((true, slice (w.bytes block) offset count), w);
    append = λ block content w. (true, put block (w.bytes block ++ content) w);
    write_at = λ block offset content w. (true, put block (blit (w.bytes block) offset content) w);
  };
  policy = crc16_policy;
  block_ports = record {
    exists_block = λ block w. (w.present block, w);
    acquire =
        λ block w. (true, put block [] (record w { present = λ i. i == block || w.present i }));
    dispose =
        λ block w. (true, record w { present = λ i. if i == block then false else w.present i });
    size = λ block w. ((leb (length (w.bytes block)) 1000, length (w.bytes block)), w);
    get_discard_policy = none;
    get_capacity_threshold = none;
    on_threshold_crossed = none;
    report = λ w. w;
  };
  raise = λ r w. w;
}

-- a store whose first block was acquired
abbrev ready_store : StorePass Memory
ready_store = record {
  block_store = record {
    frozen = false;
    loss_reported = false;
    refusal_reported = false;
    eviction_reported = false;
    seal_failure_reported = false;
  };
  records = initialise (replicate 80 0);
  sequence = record (BlockSequence.initialise 200 3) { block_present = λ i. i == 0 };
  world = record { present = λ i. i == 0; bytes = λ i. [] };
  calls = [];
  reports = [];
}

abbrev message : Bytes
message = b'h' ∷ b'i' ∷ []

message_is_kept : (store_write 64 memory_ports message ready_store).0 ≡ kept
unfolding write store_record prepare_for_write freeze_if_device_failed report_eviction append
    assemble_record judge_append BlockSequence.initialise initialise blit slice compute byte_loop
    bit_loop crc16_seal_record
message_is_kept = refl

ready_store-Works : Works 3 ready_store
unfolding BlockSequence.initialise
ready_store-Works = (
  (
    refl,
    (
      (
        record {
          ceiling = refl;
          read_is_oldest = refl;
          oldest_small = omega arith;
          write_small = omega arith;
          oldest_present = refl;
          write_present = refl;
          one_over = omega arith;
        },
        λ works. omega arith,
      ),
      refl,
    ),
  ),
  refl,
)

abbrev session : List StoreOperation
session = writes message ∷ reads_next 9 64 ∷ marks_sent ∷ []

-- before Initialise, over a device with no block
abbrev new_store : StorePass Memory
new_store = record ready_store {
  sequence = BlockSequence.initialise 200 3;
  world = record { present = λ i. false; bytes = λ i. [] };
}

one_block :
    block_count (by_sequence (open_sequence memory_ports.block_ports) new_store).1.sequence ≤ 3
unfolding BlockSequence.initialise open_sequence locate_run_boundaries presence_loop found_blocks
    walk_loop walk_step first_block resume_write notify_enabled
one_block = omega arith

started-Live_example :
    let q = ask_all 3 64 memory_ports session (BlockStore.initialise 64 memory_ports new_store) in
    Live 3 q × Trusted q
unfolding BlockSequence.initialise
started-Live_example = started-Live 64 memory_ports 200 3 session new_store refl refl refl one_block

memory-HasBound : HasBound memory_ports.block_ports 100_000
memory-HasBound = record {
  size_fits = λ block w known.
      let small = leb→le (length (w.bytes block)) 1000 known in omega (arith, small);
}

store_loops-End_example :
    let q = ask_all 3 64 memory_ports session (BlockStore.initialise 64 memory_ports new_store) in
    let first = scan_read_block 64 memory_ports ready_store in
    (store_read_next_unsent 64 memory_ports 10_000_100 64 q
      ≡ store_read_next_unsent 64 memory_ports 20_000_000 64 q)
    × (resume_loop 64 memory_ports 150 first.0 first.1
        ≡ resume_loop 64 memory_ports 100 first.0 first.1)
unfolding BlockSequence.initialise
store_loops-End_example =
    store_loops-End 64 100_000 memory_ports memory-HasBound (omega arith) (omega arith) 200 3
      session new_store refl refl one_block (omega arith) 10_000_100 20_000_000 64 150 ready_store
      (omega arith) (omega arith) (omega arith) ready_store-Works

abbrev memory_contents : Memory → ℕ → Bytes
memory_contents w = w.bytes

memory-IsDevice : IsDevice memory_ports.device memory_contents
memory-IsDevice = record {
  reads_bytes = λ block offset count w ok. refl;
  keeps_blocks = λ block offset count w other. refl;
}

memory-AppendsBehind : AppendsBehind memory_ports.device memory_contents
memory-AppendsBehind = record {
  appends_bytes = λ block bytes w ok. rw ((==_iff block block).1 refl) refl;
}

abbrev asks : Option (Memory → ℕ × Memory) → Bool
asks none = false
asks (some ask) = true

memory-LeavesBlocks : LeavesBlocks 64 memory_ports memory_contents
memory-LeavesBlocks = record {
  raise_leaves = λ r w block. refl;
  threshold_leaves = λ ask w block asked. absurd (false≢true (ap asks asked));
  crossing_leaves = λ w block. refl;
}

ready_store-HasNothing : HasNothing 64 memory_ports memory_contents ready_store
unfolding BlockSequence.initialise
ready_store-HasNothing = record {
  not_frozen = refl;
  works = refl;
  same_block = refl;
  all_read = refl;
  all_there = refl;
}

block_behind_write :
    all_bytes ((store_write 64 memory_ports message ready_store).1.world.bytes 0) ≡ true
unfolding write store_record prepare_for_write freeze_if_device_failed report_eviction append
    assemble_record judge_append BlockSequence.initialise initialise blit slice compute byte_loop
    bit_loop crc16_seal_record note_record_written notify_enabled
block_behind_write = refl

kept_record-Answers_example : Answers 64 memory_ports 0 message 64 (
    store_read_next_unsent 64 memory_ports 9 64 (store_write 64 memory_ports message ready_store).1)
unfolding BlockSequence.initialise initialise
kept_record-Answers_example =
    kept_record-Answers 64 memory_ports memory_contents memory-IsDevice memory-AppendsBehind
      crc16_policy-SealsInPlace (crc16_policy-OpensItsOwn memory_contents) memory-LeavesBlocks
      message 64 9 ready_store ready_store-HasNothing (omega arith) (omega arith) (omega arith)
      (omega arith) (omega arith) (omega arith) refl message_is_kept
      (all_bytes-AreBytes ((store_write 64 memory_ports message ready_store).1.world.bytes 0)
        block_behind_write)
