-- ===== src/BlockStore/Resumed.antt =====
-- The scan of the blocks that are there at the start, past those that are corrupt.
use mathlib.Core.Bool.{false≢true}
use solid_syslog.Base.{ℕ, ◌≡◌, sym, ◌∙◌, Bool, true, false, if_lem, not, if◌then◌else◌}
use solid_syslog.Base.{not-true}
use solid_syslog.BlockSequence.{
  read_failed, size_failed, set_read_cursor, read_is_behind_write, read_block_size_of,
}
use solid_syslog.BlockStore.{
  StorePorts, StorePass, by_sequence, by_records, on_blocks, abandon_rest_of_read_block,
}
use solid_syslog.BlockStore.Live.{Works, Froze, Stepped, stepped, step_froze}
use solid_syslog.Base.{suc, zero, refl, inl, inr, ◌⊎◌, ◌&&◌, and_true}
use solid_syslog.RecordStore.{ScanResult, scan_clean, scan_corrupt, scan_device_failed}
use solid_syslog.RecordStore.Scan.{find_first_unsent, scan_to_end}
use solid_syslog.BlockStore.{
  is_scan_failed, is_scan_corrupt, scan_read_block, resume_loop, resume_from_existing_block,
  check_write_block, judge_write_block, freeze,
}
use solid_syslog.BlockStore.Live.{Froze, Live, freeze-Froze}
use solid_syslog.BlockStore.Steps.{abandon-Stepped, size_read-Works}

pub failed_not_corrupt :
    (r : ScanResult) → is_scan_failed r ≡ true → is_scan_corrupt r ≡ true → false ≡ true
failed_not_corrupt scan_clean e f = e
failed_not_corrupt scan_corrupt e f = e
failed_not_corrupt scan_device_failed e f = f

module _ {W : Type 0} (max max_message_size : ℕ) (ports : StorePorts W) where
  -- the outcome of a scan of the read block: one that failed froze the store
  pub data Scanned : ScanResult × StorePass W → Type 0 where
    scanned :
        (r : ScanResult) (q : StorePass W) → is_scan_failed r ≡ false → Works max q → Scanned (r, q)
    scan_froze :
        (r : ScanResult) (q : StorePass W) → is_scan_failed r ≡ true → Froze max q → Scanned (r, q)

  pub scan_read_block-Scanned :
      (p : StorePass W) → Works max p → Scanned (scan_read_block max_message_size ports p)
  unfolding scan_read_block
  scan_read_block-Scanned p h =
      let sized = by_sequence (read_block_size_of ports.block_ports) p in
      let found =
        by_records
          (find_first_unsent max_message_size ports.device ports.policy
            sized.1.sequence.read_sequence sized.0.1)
          sized.1 in
      let q = on_blocks (set_read_cursor found.0.cursor) found.1 in
      let r = found.0.scanned in
      let known : ScanResult × StorePass W =
        (r, if is_scan_failed r then freeze max_message_size ports read_failed q else q) in
      let (still, works) = size_read-Works max max_message_size ports p h in
      if_lem Scanned sized.0.0 known
        (scan_device_failed, freeze max_message_size ports size_failed sized.1)
        (λ size_known.
          if_lem (λ (x : StorePass W). Scanned (r, x)) (is_scan_failed r)
            (freeze max_message_size ports read_failed q) q
            (λ failed.
              scan_froze r (freeze max_message_size ports read_failed q) failed
                (freeze-Froze max max_message_size ports read_failed q still.1.1))
            (λ fine. scanned r q fine (still, works size_known)))
        (λ unknown.
          scan_froze scan_device_failed (freeze max_message_size ports size_failed sized.1) refl
            (freeze-Froze max max_message_size ports size_failed sized.1 still.1.1))

  -- how the loop over the corrupt blocks leaves the store
  data Resumed : ScanResult × StorePass W → Type 0 where
    resumed : (r : ScanResult) (q : StorePass W) → Works max q → Resumed (r, q)
    resume_froze :
        (r : ScanResult) (q : StorePass W)
        → Froze max q
        → (is_scan_failed r ≡ true) ⊎ (q.sequence.device_failed ≡ true)
        → Resumed (r, q)

  Scanned-Resumed : (x : ScanResult × StorePass W) → Scanned x → Resumed x
  Scanned-Resumed x (scanned r q fine works) = resumed r q works
  Scanned-Resumed x (scan_froze r q failed froze) = resume_froze r q froze (inl failed)

  resume_loop-Resumed :
      (fuel : ℕ) (x : ScanResult × StorePass W)
      → Scanned x
      → Resumed (resume_loop max_message_size ports fuel x.0 x.1)
  unfolding resume_loop
  resume_loop-Resumed zero x h = Scanned-Resumed x h
  resume_loop-Resumed (suc fuel) x (scan_froze r q failed froze) =
      let moved = abandon_rest_of_read_block max_message_size ports q in
      let again = scan_read_block max_message_size ports moved.1 in
      let rest = resume_loop max_message_size ports fuel again.0 again.1 in
      let next : ScanResult × StorePass W = if moved.0 then rest else (r, moved.1) in
      if_lem Resumed (is_scan_corrupt r) next (r, q)
        (λ damaged. absurd (false≢true (failed_not_corrupt r failed damaged)))
        (λ other. resume_froze r q froze (inl failed))
  resume_loop-Resumed (suc fuel) x (scanned r q fine works) =
      let moved = abandon_rest_of_read_block max_message_size ports q in
      let again = scan_read_block max_message_size ports moved.1 in
      let rest = resume_loop max_message_size ports fuel again.0 again.1 in
      let next : ScanResult × StorePass W = if moved.0 then rest else (r, moved.1) in
      if_lem Resumed (is_scan_corrupt r) next (r, q)
        (λ damaged.
          goes_on (resume_loop-Resumed fuel) r moved
            (abandon-Stepped max max_message_size ports q works))
        (λ other. resumed r q works)
    where
      goes_on :
          ((y : ScanResult × StorePass W)
            → Scanned y
            → Resumed (resume_loop max_message_size ports fuel y.0 y.1))
          → (r : ScanResult) (t : Bool × StorePass W) → Stepped max t
          → let again = scan_read_block max_message_size ports t.1 in
            let rest = resume_loop max_message_size ports fuel again.0 again.1 in
            let next : ScanResult × StorePass W = if t.0 then rest else (r, t.1) in Resumed next
      goes_on ih r t (stepped b p works) =
          let again = scan_read_block max_message_size ports p in
          if_lem Resumed b (resume_loop max_message_size ports fuel again.0 again.1) (r, p)
            (λ moved. ih again (scan_read_block-Scanned p works)) (λ ends. resumed r p works)
      goes_on ih r t (step_froze p froze failed) = resume_froze r p froze (inr failed)

  check_write_block-Live :
      (p : StorePass W) → Works max p → Live max (check_write_block max_message_size ports p)
  unfolding check_write_block judge_write_block
  check_write_block-Live p h =
      let s = p.sequence in
      let from = if read_is_behind_write s then 0 else s.read_cursor in
      let x =
        by_records
          (scan_to_end max_message_size ports.device ports.policy s.write_sequence from
            s.write_position)
          p in
      judged x.0 x.1 h
    where
      judged :
          (r : ScanResult) (q : StorePass W)
          → Works max q
          → Live max (judge_write_block max_message_size ports r q)
      judged scan_device_failed q works =
          inr (freeze-Froze max max_message_size ports read_failed q works.0.1.1)
      judged scan_corrupt q works = inl works
      judged scan_clean q works = inl works

  -- What is found at the start: the store works, or it froze.
  pub resume-Live :
      (p : StorePass W)
      → Works max p
      → Live max (resume_from_existing_block max_message_size ports p)
  unfolding resume_from_existing_block
  resume-Live p h =
      let first = scan_read_block max_message_size ports p in
      checks (resume_loop max_message_size ports 100 first.0 first.1)
        (resume_loop-Resumed 100 first (scan_read_block-Scanned p h))
    where
      still_fine :
          (r : ScanResult) (q : StorePass W)
          → not (is_scan_failed r) ≡ true
          → not q.sequence.device_failed ≡ true
          → (is_scan_failed r ≡ true) ⊎ (q.sequence.device_failed ≡ true)
          → false ≡ true
      still_fine r q clean device (inl failed) = sym (not-true (is_scan_failed r) clean) ∙ failed
      still_fine r q clean device (inr failed) =
          sym (not-true q.sequence.device_failed device) ∙ failed

      checks :
          (x : ScanResult × StorePass W)
          → Resumed x
          → Live max (
              if not (is_scan_failed x.0) && not x.1.sequence.device_failed
              then check_write_block max_message_size ports x.1
              else x.1)
      checks x (resumed r q works) =
          if_lem (Live max) (not (is_scan_failed r) && not q.sequence.device_failed)
            (check_write_block max_message_size ports q) q (λ fine. check_write_block-Live q works)
            (λ failed. inl works)
      checks x (resume_froze r q froze why) =
          if_lem (Live max) (not (is_scan_failed r) && not q.sequence.device_failed)
            (check_write_block max_message_size ports q) q
            (λ fine.
              let (clean, device) =
                and_true (not (is_scan_failed r)) (not q.sequence.device_failed) fine in
              absurd (false≢true (still_fine r q clean device why)))
            (λ failed. inr froze)
