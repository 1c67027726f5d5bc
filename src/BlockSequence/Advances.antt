-- ===== src/BlockSequence/Advances.antt =====
-- A read that leaves its block comes nearer to the block that is written.
use solid_syslog.Base.{
  ℕ, ◌<◌, ◌≡◌, ◌≢◌, Bool, refl, sym, subst, ◌∙◌, true, false, arith, not, if_lem, Bool-cases, inl,
  inr, ap,
}
use mathlib.Core.Bool.{false≢true}
use solid_syslog.BlockSequence.{
  BlockSequence, BlockStoreErrors, note_device_failure, dispose_failed, Ports, Pass, set_present,
  start_reading_block, next_present_sequence, advance_past_disposed_read_block, dispose_read_block,
}
use solid_syslog.BlockSequence.Distance.{distance}
use solid_syslog.BlockSequence.Sound.{IsRun, left_behind-Nearer, notify-Keeps}

failure_noted :
    (operation : BlockStoreErrors) (s : BlockSequence)
    → (note_device_failure operation s).device_failed ≡ true
failure_noted operation s =
    if_lem (λ (t : BlockSequence). t.device_failed ≡ true) (not s.device_failed)
      (record s { device_failed = true; failed_operation = operation }) s (λ works. refl)
      (λ failed. was_true s.device_failed failed)
  where
    was_true : (b : Bool) → not b ≡ false → b ≡ true
    was_true true e = refl
    was_true false e = sym e

module _ {W : Type 0} (max : ℕ) (ports : Ports W) where
  -- the read went on to a block nearer to the one that is written, which is as it was, and whose own
  -- size is not known yet
  abbrev pub Advanced : BlockSequence → BlockSequence → Type 0
  Advanced s t =
      (distance t.read_sequence t.write_sequence < distance s.read_sequence s.write_sequence)
      × ((t.write_position ≡ s.write_position) × (t.read_block_size_known ≡ false))

  pub dispose_read_block-Advanced :
      (p : Pass W)
      → IsRun max p.sequence
      → p.sequence.read_sequence ≢ p.sequence.write_sequence
      → (dispose_read_block ports p).0 ≡ true
      → Advanced p.sequence (dispose_read_block ports p).1.sequence
  unfolding dispose_read_block advance_past_disposed_read_block
  dispose_read_block-Advanced p r apart disposed =
      let s = p.sequence in
      let (ok, w) = ports.dispose s.read_sequence p.world in
      rw disposed (
        subst
          (λ k.
            Advanced s
              (advance_past_disposed_read_block ports
                (record { sequence = set_present k false s; world = w })).sequence)
          (sym r.read_is_oldest) (past w (λ e. apart (r.read_is_oldest ∙ e))))
    where
      past :
          (w : W)
          → p.sequence.oldest_sequence ≢ p.sequence.write_sequence
          → Advanced p.sequence
              (advance_past_disposed_read_block ports (record {
                sequence = set_present p.sequence.oldest_sequence false p.sequence;
                world = w;
              })).sequence
      past w apart =
          let s = p.sequence in
          let t = set_present s.oldest_sequence false s in
          let next = next_present_sequence s.oldest_sequence t in
          let (there, n) = left_behind-Nearer max s r apart in
          let nearer : distance next s.write_sequence < distance s.read_sequence s.write_sequence =
            omega (arith, n.nearer, r.read_is_oldest) in
          notify-Keeps max ports (Advanced s) ports.get_capacity_threshold
            (record {
              sequence = record (start_reading_block next (record t { oldest_sequence = next })) {
                at_capacity = false;
              };
              world = w;
            })
            (nearer, (refl, refl)) (λ b. (nearer, (refl, refl)))

  -- A read block that could not be disposed of is a failure of the device.
  pub disposed_if_works :
      (p : Pass W)
      → not (dispose_read_block ports p).1.sequence.device_failed ≡ true
      → (dispose_read_block ports p).0 ≡ true
  unfolding dispose_read_block
  disposed_if_works p works =
      let noted : (ports.dispose p.sequence.read_sequence p.world).0 ≡ false
          → (dispose_read_block ports p).1.sequence.device_failed ≡ true =
        λ failed. rw failed (failure_noted dispose_failed p.sequence) in
      elim (Bool-cases (ports.dispose p.sequence.read_sequence p.world).0) [
        | inl disposed ↦ disposed
        | inr failed ↦ absurd (false≢true (sym (ap not (noted failed)) ∙ works))
      ]
