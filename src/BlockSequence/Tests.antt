-- ===== src/BlockSequence/Tests.antt =====
-- A device that holds any blocks, a resume on three of them, and the theorem there.
use solid_syslog.Base.{
  ℕ, ◌≡◌, refl, Bool, true, false, ◌||◌, ◌==◌, arith, List, [], ◌∷◌, none, some, if◌then◌else◌,
}
use solid_syslog.BlockSequence.{Ports, Pass, initialise, notify_enabled}
use solid_syslog.BlockSequence.Resume.{
  open_sequence, found_blocks, presence_loop, locate_run_boundaries, walk_loop, walk_step,
  resume_write, first_block,
}
use solid_syslog.BlockSequence.Sound.{IsSound}
use solid_syslog.BlockSequence.Trace.{
  Operation, prepares, notes_written, leaves, act_all, sequence-IsSound,
}

-- a device whose blocks all have 40 bytes
abbrev blocks_device : Ports (ℕ → Bool)
blocks_device = record {
  exists_block = λ index w. (w index, w);
  acquire = λ index w. (true, λ i. if i == index then true else w i);
  dispose = λ index w. (true, λ i. if i == index then false else w i);
  size = λ index w. ((true, 40), w);
  get_discard_policy = none;
  get_capacity_threshold = some (λ w. (100, w));
  on_threshold_crossed = none;
  report = λ w. w;
}

-- the blocks 98, 99 and 0
abbrev wrapped_run : ℕ → Bool
wrapped_run i = i == 98 || (i == 99 || i == 0)

abbrev opened : Bool × Pass (ℕ → Bool)
opened = open_sequence blocks_device (record { sequence = initialise 64 3; world = wrapped_run })

opened_ready : opened.0 ≡ true
unfolding open_sequence found_blocks presence_loop locate_run_boundaries walk_loop walk_step
    resume_write first_block initialise notify_enabled
opened_ready = refl

oldest_is_98 : opened.1.sequence.oldest_sequence ≡ 98
unfolding open_sequence found_blocks presence_loop locate_run_boundaries walk_loop walk_step
    resume_write first_block initialise notify_enabled
oldest_is_98 = refl

written_is_0 : opened.1.sequence.write_sequence ≡ 0
unfolding open_sequence found_blocks presence_loop locate_run_boundaries walk_loop walk_step
    resume_write first_block initialise notify_enabled
written_is_0 = refl

-- a record that needs a new block, and evicts the oldest one
abbrev busy : List Operation
busy = prepares 30 ∷ notes_written 30 ∷ leaves ∷ []

sequence-IsSound_example : IsSound 3 (act_all blocks_device busy opened.1).sequence
sequence-IsSound_example =
    sequence-IsSound blocks_device 64 3 busy wrapped_run opened_ready
      (omega (arith, oldest_is_98, written_is_0))
