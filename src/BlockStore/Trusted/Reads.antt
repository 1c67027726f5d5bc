-- ===== src/BlockStore/Trusted/Reads.antt =====
-- Whether a store that is frozen or not agrees with its device: what is read and marked.
use mathlib.Core.Bool.{false≢true}
use solid_syslog.Base.{
  ℕ, zero, suc, ◌≡◌, ◌⊎◌, inl, inr, refl, sym, ◌∙◌, Bool, true, false, Bool-cases, if_lem, not,
  ◌&&◌, ltb, [], Bytes, length, if◌then◌else◌,
}
use solid_syslog.RecordStore.{
  Call, ReadResult, succeeded, end_of_data, corrupt, rejected, finished_with, could_not_open,
  device_failed, AppendResult, append_succeeded, append_seal_failed, append_device_failed,
  MarkResult, mark_succeeded, mark_nothing_read, mark_device_failed, ScanResult, scan_clean,
  scan_corrupt, scan_device_failed, record_size, forget_last_read, step_past_last_read,
  mark_last_read_as_sent,
}
use solid_syslog.RecordStore.Scan.{is_device_failed}
use solid_syslog.BlockSequence.{
  BlockSequence, BlockStoreErrors, read_failed, size_failed, record_rejected, record_corrupt,
  record_refused, seal_failed, open_failed, block_evicted, append_failed, mark_sent_failed,
  set_read_cursor, mark_write_block_corrupt, read_is_behind_write, leave_read_block, has_unsent,
  prepare_for_write, read_block_size_of, dispose_read_block_if_drained, note_record_written,
  note_device_failure, is_read_block_active_write,
}
use solid_syslog.BlockStore.{
  StorePorts, StorePass, by_sequence, by_records, to_sequence, on_blocks, on_store, freeze,
  freeze_if_device_failed, report_loss, forget_read, read_current, read_next_block_if_behind,
  abandon_rest_of_read_block, step_past_current, step_past, read_loop, judge_read, read_next_unsent,
  judge_mark, mark_sent, is_read_succeeded, is_read_failed,
}
use solid_syslog.BlockStore.Failures.{any_failed, is_mark_failed, read-Told, mark-Told}
use solid_syslog.BlockStore.Live.{report_loss-Keeps}
use solid_syslog.BlockSequence
use solid_syslog.RecordStore
use solid_syslog.BlockStore.Trusted.{
  HasFailed, Untroubled, Halted, Trusted, TrustedBy, records_of, freeze_if-Trusted,
}

as_read_failed : (r : ReadResult) → is_device_failed r ≡ true → r ≡ device_failed
as_read_failed succeeded e = absurd (false≢true e)
as_read_failed end_of_data e = absurd (false≢true e)
as_read_failed corrupt e = absurd (false≢true e)
as_read_failed rejected e = absurd (false≢true e)
as_read_failed finished_with e = absurd (false≢true e)
as_read_failed could_not_open e = absurd (false≢true e)
as_read_failed device_failed e = refl

same_test : (r : ReadResult) → is_read_failed r ≡ is_device_failed r
same_test succeeded = refl
same_test end_of_data = refl
same_test corrupt = refl
same_test rejected = refl
same_test finished_with = refl
same_test could_not_open = refl
same_test device_failed = refl

pub noted-failed :
    (operation : BlockStoreErrors) (s : BlockSequence)
    → (note_device_failure operation s).device_failed ≡ true
noted-failed operation s =
    if_lem (λ (t : BlockSequence). t.device_failed ≡ true) (not s.device_failed)
      (record s { device_failed = true; failed_operation = operation }) s (λ first. refl)
      (λ again. was_true s.device_failed again)
  where
    was_true : (b : Bool) → not b ≡ false → b ≡ true
    was_true true e = refl
    was_true false e = sym e

pub noted_unless-failed :
    (ok : Bool) (operation : BlockStoreErrors) (s : BlockSequence)
    → ok ≡ false
    → (if not ok then note_device_failure operation s else s).device_failed ≡ true
noted_unless-failed true operation s e = absurd (false≢true (sym e))
noted_unless-failed false operation s e = noted-failed operation s

-- A size that is not known is a failure that the sequence noted.
pub size_read-HasFailed :
    {W : Type 0} (ports : BlockSequence.Ports W) (p : BlockSequence.Pass W)
    → let x = read_block_size_of ports p in x.0.0 ≡ false → x.1.sequence.device_failed ≡ true
unfolding read_block_size_of
size_read-HasFailed {W} ports p =
    let self = p.sequence in
    let (got, w) = ports.size self.read_sequence p.world in
    let s1 = record self { read_block_size = got.1; read_block_size_known = got.0 } in
    let s2 = if not got.0 then note_device_failure size_failed s1 else s1 in
    let asked : (Bool × ℕ) × BlockSequence.Pass W = (got, record { sequence = s2; world = w }) in
    let known : (Bool × ℕ) × BlockSequence.Pass W = ((true, self.read_block_size), p) in
    let Fine : (Bool × ℕ) × BlockSequence.Pass W → Type 0 =
      λ x. x.0.0 ≡ false → x.1.sequence.device_failed ≡ true in
    if_lem Fine (is_read_block_active_write self) ((true, self.write_position), p)
      (if self.read_block_size_known then known else asked)
      (λ writing e. absurd (false≢true (sym e)))
      (λ behind.
        if_lem Fine self.read_block_size_known known asked (λ k e. absurd (false≢true (sym e)))
          (λ unknown e. noted_unless-failed got.0 size_failed s1 e))

module _ {W : Type 0} (max_message_size : ℕ) (ports : StorePorts W) where
  -- the outcome of a step: one that froze the store ends the loop
  abbrev pub Stepped : Bool × StorePass W → Type 0
  Stepped x =
      Untroubled x.1
      ⊎ ((x.0 ≡ false) × ((x.1.block_store.frozen ≡ true) × (x.1.sequence.device_failed ≡ true)))

  read_next_block-Stepped :
      (p : StorePass W)
      → Untroubled p
      → Stepped (read_next_block_if_behind max_message_size ports p)
  unfolding read_next_block_if_behind forget_last_read freeze_if_device_failed freeze
  read_next_block-Stepped p h =
      let left =
        forget_read max_message_size ports (to_sequence (leave_read_block ports.block_ports) p) in
      let x = freeze_if_device_failed max_message_size ports left in
      if_lem Stepped (read_is_behind_write p.sequence) (not x.0, x.1) (false, p)
        (λ behind. by_flag left.sequence.device_failed left refl h) (λ writing. inl h)
    where
      by_flag :
          (b : Bool) (left : StorePass W)
          → left.sequence.device_failed ≡ b
          → Untroubled left
          → Stepped (
            not b,
            if b then freeze max_message_size ports left.sequence.failed_operation left else left,
          )
      by_flag true left e h = inr (refl, (refl, e))
      by_flag false left e h = inl h

  pub abandon-Stepped :
      (p : StorePass W)
      → Untroubled p
      → Stepped (abandon_rest_of_read_block max_message_size ports p)
  unfolding abandon_rest_of_read_block
  abandon-Stepped p h =
      closes (read_next_block_if_behind max_message_size ports p) (read_next_block-Stepped p h)
    where
      closes :
          (x : Bool × StorePass W)
          → Stepped x
          → let p2 = report_loss max_message_size ports record_corrupt x.1 in
            let closed =
              on_blocks (λ s. mark_write_block_corrupt (set_read_cursor s.write_position s)) p2 in
            Stepped (
              x.0,
              if not x.1.sequence.device_failed then (if not x.0 then closed else p2) else x.1,
            )
      closes x h =
          let p2 = report_loss max_message_size ports record_corrupt x.1 in
          let closed =
            on_blocks (λ s. mark_write_block_corrupt (set_read_cursor s.write_position s)) p2 in
          let Fine : StorePass W → Type 0 = λ q. Stepped (x.0, q) in
          let told : Fine p2 =
            report_loss-Keeps 0 max_message_size ports Fine record_corrupt x.1 h h in
          if_lem Fine (not x.1.sequence.device_failed) (if not x.0 then closed else p2) x.1
            (λ works. if_lem Fine (not x.0) closed p2 (λ stays. told) (λ goes. told)) (λ fails. h)

  step_past_current-Stepped :
      (p : StorePass W) → Untroubled p → Stepped (step_past_current max_message_size ports p)
  unfolding step_past_current step_past_last_read forget_last_read
  step_past_current-Stepped p h = inl h

  step_past-Stepped :
      (r : ReadResult) (p : StorePass W)
      → Untroubled p
      → Stepped (step_past max_message_size ports r p)
  unfolding step_past
  step_past-Stepped rejected p h =
      step_past_current-Stepped (report_loss max_message_size ports record_rejected p)
        (report_loss-Keeps 0 max_message_size ports Untroubled record_rejected p h h)
  step_past-Stepped finished_with p h = step_past_current-Stepped p h
  step_past-Stepped end_of_data p h = read_next_block-Stepped p h
  step_past-Stepped corrupt p h = abandon-Stepped p h
  step_past-Stepped succeeded p h = inl h
  step_past-Stepped could_not_open p h = inl h
  step_past-Stepped device_failed p h = inl h

  -- the outcome of a read, before it is judged
  abbrev Read : (ReadResult × Bytes) × StorePass W → Type 0
  Read x =
      ((is_device_failed x.0.0 ≡ true) × HasFailed x.1)
      ⊎ ((is_device_failed x.0.0 ≡ false) × Untroubled x.1)

  read_current-Read :
      (max_size : ℕ) (p : StorePass W)
      → Untroubled p
      → Read (read_current max_message_size ports max_size p)
  unfolding read_current
  read_current-Read max_size p h =
      let x = by_sequence (read_block_size_of ports.block_ports) p in
      let r =
        by_records
          (RecordStore.read max_message_size ports.device ports.policy x.1.sequence.read_sequence
            x.1.sequence.read_cursor x.0.1 max_size)
          x.1 in
      let told =
        read-Told max_message_size ports.device ports.policy x.1.sequence.read_sequence x.0.1
          x.1.sequence.read_cursor max_size (records_of x.1) h.1 in
      if_lem Read x.0.0 r ((device_failed, []), x.1)
        (λ known. elim (Bool-cases (is_device_failed r.0.0)) [
          | inl failed ↦ inl (failed, inl (told ∙ failed))
          | inr works ↦ inr (works, (h.0, told ∙ works))
        ])
        (λ unknown. inl (
          refl,
          inr (
              size_read-HasFailed ports.block_ports
                (record { sequence = p.sequence; world = p.world }) unknown),
        ))

  -- and of the reads
  abbrev AreRead : (ReadResult × Bytes) × StorePass W → Type 0
  AreRead x = Read x ⊎ Halted x.1

  read_loop-AreRead :
      (fuel max_size : ℕ) (x : (ReadResult × Bytes) × StorePass W)
      → Read x
      → AreRead (read_loop max_message_size ports fuel max_size x.0 x.1)
  unfolding read_loop step_past
  read_loop-AreRead zero max_size x h = inl h
  read_loop-AreRead (suc fuel) max_size x (inl failed) =
      let stopped : step_past max_message_size ports x.0.0 x.1 ≡ (false, x.1) =
        rw (as_read_failed x.0.0 failed.0) refl in
      rw stopped (inl (inl failed))
  read_loop-AreRead (suc fuel) max_size x (inr (works, h)) =
      let t = step_past max_message_size ports x.0.0 x.1 in
      let again = read_current max_message_size ports max_size t.1 in
      let rest = read_loop max_message_size ports fuel max_size again.0 again.1 in
      elim (step_past-Stepped x.0.0 x.1 h) [
        | inl still ↦
            if_lem AreRead t.0 rest (x.0, t.1)
              (λ goes. read_loop-AreRead fuel max_size again (read_current-Read max_size t.1 still))
              (λ ends. inl (inr (works, still)))
        | inr stopped ↦
            if_lem AreRead t.0 rest (x.0, t.1) (λ goes. absurd (false≢true (sym stopped.0 ∙ goes)))
              (λ ends. inr (stopped.1.0, inr stopped.1.1))
      ]

  -- a store whose device has failed is frozen, if it was not
  frozen_by_failure :
      (p : StorePass W)
      → HasFailed p
      → let x = freeze_if_device_failed max_message_size ports p in
        Halted (if not x.0 then freeze max_message_size ports read_failed x.1 else x.1)
  unfolding freeze_if_device_failed freeze
  frozen_by_failure p failed = by_flag p.sequence.device_failed
    where
      by_flag :
          (b : Bool)
          → let q = if b then freeze max_message_size ports p.sequence.failed_operation p else p in
            Halted (if not b then freeze max_message_size ports read_failed q else q)
      by_flag true = (refl, failed)
      by_flag false = (refl, failed)

  judge_read-Trusted :
      (r : ReadResult × Bytes) (p : StorePass W)
      → AreRead (r, p)
      → Trusted (judge_read max_message_size ports r.0 p)
  unfolding judge_read
  judge_read-Trusted r p (inl (inl (e, failed))) =
      rw (as_read_failed r.0 e) (inr (frozen_by_failure p failed))
  judge_read-Trusted r p (inl (inr (works, h))) =
      let x = freeze_if_device_failed max_message_size ports p in
      let frozen : StorePass W =
        if not x.0 then freeze max_message_size ports read_failed x.1 else x.1 in
      if_lem Trusted (is_read_succeeded r.0) (on_store (λ s. record s { loss_reported = false }) p)
        (if is_read_failed r.0 then frozen else p) (λ fine. inl h)
        (λ other.
          if_lem Trusted (is_read_failed r.0) frozen p
            (λ failed. absurd (false≢true (sym works ∙ sym (same_test r.0) ∙ failed)))
            (λ rest. inl h))
  judge_read-Trusted r p (inr h) =
      let x = freeze_if_device_failed max_message_size ports p in
      let frozen : StorePass W =
        if not x.0 then freeze max_message_size ports read_failed x.1 else x.1 in
      if_lem Trusted (is_read_succeeded r.0) (on_store (λ s. record s { loss_reported = false }) p)
        (if is_read_failed r.0 then frozen else p) (λ fine. inr h)
        (λ other.
          if_lem Trusted (is_read_failed r.0) frozen p (λ failed. inr (frozen_by_failure p h.1))
            (λ rest. inr h))

  pub read_next_unsent-Trusted :
      (fuel max_size : ℕ) (p : StorePass W)
      → Untroubled p
      → TrustedBy max_message_size ports (read_next_unsent max_message_size ports fuel max_size p)
  unfolding read_next_unsent
  read_next_unsent-Trusted fuel max_size p h =
      let first = read_current max_message_size ports max_size p in
      let x = read_loop max_message_size ports fuel max_size first.0 first.1 in
      if_lem (λ (y : (Bool × Bytes) × StorePass W). Trusted y.1) (has_unsent p.sequence)
        ((ltb 0 (length x.0.1), x.0.1), judge_read max_message_size ports x.0.0 x.1)
        ((false, []), p)
        (λ some_unsent.
          judge_read-Trusted x.0 x.1
            (read_loop-AreRead fuel max_size first (read_current-Read max_size p h)))
        (λ none_unsent. inl h)

  judge_mark-Trusted :
      (r : MarkResult) (next_cursor : ℕ) (p : StorePass W)
      → p.block_store.frozen ≡ false
      → any_failed p.calls ≡ is_mark_failed r
      → Trusted (judge_mark max_message_size ports r next_cursor p)
  unfolding judge_mark freeze forget_last_read
  judge_mark-Trusted mark_device_failed next_cursor p works told = inr (refl, inl told)
  judge_mark-Trusted mark_nothing_read next_cursor p works told = inl (works, told)
  judge_mark-Trusted mark_succeeded next_cursor p works told =
      let moved = on_blocks (set_read_cursor next_cursor) p in
      let d = by_sequence (dispose_read_block_if_drained ports.block_ports) moved in
      let x = freeze_if_device_failed max_message_size ports d.1 in
      let still = freeze_if-Trusted max_message_size ports d.1 (inl (works, told)) in
      if_lem Trusted (not x.0 && d.0) (forget_read max_message_size ports x.1) x.1 (λ gone. still)
        (λ stays. still)

  pub mark_sent-Trusted :
      (p : StorePass W) → Untroubled p → Trusted (mark_sent max_message_size ports p)
  unfolding mark_sent
  mark_sent-Trusted p h =
      let m = by_records (mark_last_read_as_sent max_message_size ports.device ports.policy 0) p in
      judge_mark-Trusted m.0.0 m.0.1 m.1 h.0
        (mark-Told max_message_size ports.device ports.policy 0 0 0 (records_of p) h.1)
