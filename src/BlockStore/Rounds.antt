-- ===== src/BlockStore/Rounds.antt =====
-- The loop over the corrupt blocks at the start ends by itself: how many rounds are enough.
use mathlib.Core.Bool.{false≢true}
use solid_syslog.Base.{
  ℕ, zero, suc, ◌<◌, ◌≡◌, refl, true, if_lem, not, arith, branch_eq_on, branch_eq, if◌then◌else◌,
}
use solid_syslog.RecordStore.{ScanResult, scan_device_failed}
use solid_syslog.BlockSequence.{
  BlockSequence, set_read_cursor, read_block_size_of, size_failed, read_failed,
}
use solid_syslog.BlockSequence.Distance.{distance}
use solid_syslog.BlockSequence.Sound.{read_block_size-Keeps}
use solid_syslog.BlockStore.{
  StorePorts, StorePass, by_sequence, by_records, on_blocks, freeze, abandon_rest_of_read_block,
  scan_read_block, resume_loop, is_scan_failed, is_scan_corrupt,
}
use solid_syslog.BlockStore.Leaves.{went_on-Works, abandon-Advanced}
use solid_syslog.BlockStore.Resumed.{
  Scanned, scanned, scan_froze, scan_read_block-Scanned, failed_not_corrupt,
}
use solid_syslog.BlockStore.Steps.{abandon-Stepped}
use solid_syslog.RecordStore.Scan.{find_first_unsent}

module _ {W : Type 0} (max max_message_size : ℕ) (ports : StorePorts W) where
  -- how many blocks there are to the one that is written
  abbrev blocks_left : StorePass W → ℕ
  blocks_left p = distance p.sequence.read_sequence p.sequence.write_sequence

  scan_read_block-as_far :
      (p : StorePass W) → blocks_left (scan_read_block max_message_size ports p).1 ≡ blocks_left p
  unfolding scan_read_block freeze
  scan_read_block-as_far p =
      let x = by_sequence (read_block_size_of ports.block_ports) p in
      let found =
        by_records
          (find_first_unsent max_message_size ports.device ports.policy x.1.sequence.read_sequence
            x.0.1)
          x.1 in
      let q = on_blocks (set_read_cursor found.0.cursor) found.1 in
      let frozen = freeze max_message_size ports read_failed q in
      let known : ScanResult × StorePass W =
        (found.0.scanned, if is_scan_failed found.0.scanned then frozen else q) in
      let AsFar : BlockSequence → Type 0 =
        λ s. distance s.read_sequence s.write_sequence ≡ blocks_left p in
      let sized : AsFar x.1.sequence =
        read_block_size-Keeps max ports.block_ports AsFar
          (record { sequence = p.sequence; world = p.world }) refl
          (λ size b.
            let s = record p.sequence { read_block_size = size; read_block_size_known = b } in
            (
              refl,
              if_lem AsFar (not s.device_failed)
                  (record s { device_failed = true; failed_operation = size_failed }) s (λ e. refl)
                  (λ e. refl),
            )) in
      if_lem (λ (y : ScanResult × StorePass W). AsFar y.1.sequence) x.0.0 known
        (scan_device_failed, freeze max_message_size ports size_failed x.1)
        (λ ok.
          if_lem (λ (y : StorePass W). AsFar y.sequence) (is_scan_failed found.0.scanned) frozen q
            (λ failed. sized) (λ fine. sized))
        (λ bad. sized)

  -- More rounds than there are blocks to go make no difference.
  pub resume_loop-Ends :
      (a b : ℕ) (x : ScanResult × StorePass W)
      → Scanned max max_message_size ports x
      → blocks_left x.1 < a
      → blocks_left x.1 < b
      → resume_loop max_message_size ports a x.0 x.1 ≡ resume_loop max_message_size ports b x.0 x.1
  unfolding resume_loop
  resume_loop-Ends zero b x h less_a less_b = absurd (omega (arith, less_a))
  resume_loop-Ends (suc a) zero x h less_a less_b = absurd (omega (arith, less_b))
  resume_loop-Ends (suc a) (suc b) x (scan_froze r q failed froze) less_a less_b =
      let moved = abandon_rest_of_read_block max_message_size ports q in
      let again = scan_read_block max_message_size ports moved.1 in
      let rest : ℕ → ScanResult × StorePass W = λ n.
        if moved.0 then resume_loop max_message_size ports n again.0 again.1 else (r, moved.1) in
      branch_eq_on (is_scan_corrupt r) (rest a) (rest b) (r, q)
        (λ damaged. absurd (false≢true (failed_not_corrupt r failed damaged)))
  resume_loop-Ends (suc a) (suc b) x (scanned r q fine works) less_a less_b =
      let moved = abandon_rest_of_read_block max_message_size ports q in
      let again = scan_read_block max_message_size ports moved.1 in
      let loop : ℕ → ScanResult × StorePass W =
        λ n. resume_loop max_message_size ports n again.0 again.1 in
      branch_eq (is_scan_corrupt r) (if moved.0 then loop a else (r, moved.1))
        (if moved.0 then loop b else (r, moved.1)) (r, q)
        (branch_eq_on moved.0 (loop a) (loop b) (r, moved.1)
          (λ goes_on.
            let nearer = (abandon-Advanced max max_message_size ports q works goes_on).0 in
            let still =
              went_on-Works max moved (abandon-Stepped max max_message_size ports q works)
                goes_on in
            let as_far = scan_read_block-as_far moved.1 in
            resume_loop-Ends a b again
              (scan_read_block-Scanned max max_message_size ports moved.1 still)
              (omega (arith, as_far, nearer, less_a)) (omega (arith, as_far, nearer, less_b))))
