-- ===== src/BlockStore/Live.antt =====
-- A store works over a sound sequence whose device has not failed, or it froze, which it reported once.
use solid_syslog.Base.{
  ℕ, suc, ◌%◌, ◌^◌, ◌≤◌, ◌<◌, ◌≡◌, ◌⊎◌, inl, inr, refl, ap, Bool, true, false, if_lem, not, List,
  [], ◌∷◌, Bytes, length, if◌then◌else◌,
}
use solid_syslog.Base.{add_size}
use solid_syslog.Service.{StoreWriteResult, not_retained}
use solid_syslog.Senders.{severity_error, severity_warning}
use solid_syslog.BlockSequence.{
  BlockStoreErrors, append_failed, block_evicted, record_refused, seal_failed, note_record_written,
  prepare_for_write,
}
use solid_syslog.BlockSequence.Sound.{IsSound, notify-Keeps}
use solid_syslog.BlockSequence.Trace.{prepare-IsSound}
use solid_syslog.RecordStore.{
  AppendResult, append_succeeded, append_seal_failed, append_device_failed, ReadResult, succeeded,
  end_of_data, corrupt, rejected, finished_with, could_not_open, device_failed, MarkResult,
  mark_succeeded, mark_nothing_read, mark_device_failed, record_size,
}
use solid_syslog.BlockStore.{
  StorePorts, StorePass, StoreReport, StoreCategory, store_frozen, store_records_lost,
  store_write_failed, store_record_discarded, by_sequence, by_records, on_store, report, freeze,
  freeze_if_device_failed, report_refusal, report_eviction, report_seal_failed, report_loss,
  judge_append, store_record, forget_read, is_read_failed,
}
use solid_syslog.RecordStore

abbrev count_if : StoreCategory → ℕ → ℕ
count_if store_frozen n = suc n
count_if store_records_lost n = n
count_if store_write_failed n = n
count_if store_record_discarded n = n

-- how often it was reported that the store froze
abbrev pub frozen_count : List StoreReport → ℕ
frozen_count [] = 0
frozen_count (r ∷ rs) = count_if r.category (frozen_count rs)

module _ {W : Type 0} (max : ℕ) where
  -- the store did not freeze, and its sequence is sound
  abbrev pub Unfrozen : StorePass W → Type 0
  Unfrozen p =
      (p.block_store.frozen ≡ false) × (IsSound max p.sequence × (frozen_count p.reports ≡ 0))

  -- nor did its device fail
  abbrev pub Works : StorePass W → Type 0
  Works p = Unfrozen p × (p.sequence.device_failed ≡ false)

  abbrev pub Froze : StorePass W → Type 0
  Froze p = (p.block_store.frozen ≡ true) × (frozen_count p.reports ≡ 1)

  -- how an operation leaves the store
  abbrev pub Live : StorePass W → Type 0
  Live p = Works p ⊎ Froze p

  -- what the look at the device finds
  pub data Checked (p : StorePass W) : Bool × StorePass W → Type 0 where
    checked : Works p → Checked p (false, p)
    check_froze :
        (q : StorePass W) → Froze q → q.sequence.device_failed ≡ true → Checked p (true, q)

  -- the outcome of a step, which says whether it went on
  pub data Stepped : Bool × StorePass W → Type 0 where
    stepped : (b : Bool) (p : StorePass W) → Works p → Stepped (b, p)
    step_froze : (p : StorePass W) → Froze p → p.sequence.device_failed ≡ true → Stepped (false, p)

  -- the outcome of a read
  pub data IsRead : (ReadResult × Bytes) × StorePass W → Type 0 where
    read_works : (r : ReadResult × Bytes) (q : StorePass W) → Works q → IsRead (r, q)
    read_failing :
        (bytes : Bytes) (q : StorePass W) → Unfrozen q → IsRead ((device_failed, bytes), q)

  -- the outcome of the reads; those that froze the store did not fail themselves
  pub data AreRead : (ReadResult × Bytes) × StorePass W → Type 0 where
    was_read : (x : (ReadResult × Bytes) × StorePass W) → IsRead x → AreRead x
    reads_froze :
        (r : ReadResult × Bytes) (q : StorePass W)
        → is_read_failed r.0 ≡ false
        → Froze q
        → AreRead (r, q)

  module _ (max_message_size : ℕ) (ports : StorePorts W) where
    pub freeze-Froze :
        (code : BlockStoreErrors) (p : StorePass W)
        → frozen_count p.reports ≡ 0
        → Froze (freeze max_message_size ports code p)
    unfolding freeze
    freeze-Froze code p none_told = (refl, ap suc none_told)

    pub freeze_if-Checked :
        (p : StorePass W)
        → Unfrozen p
        → Checked p (freeze_if_device_failed max_message_size ports p)
    unfolding freeze_if_device_failed freeze
    freeze_if-Checked p u = by_flag p.sequence.device_failed refl
      where
        by_flag :
            (b : Bool)
            → p.sequence.device_failed ≡ b
            → Checked p
                (b, if b then freeze max_message_size ports p.sequence.failed_operation p else p)
        by_flag true e =
            check_froze (freeze max_message_size ports p.sequence.failed_operation p)
              (freeze-Froze p.sequence.failed_operation p u.1.1) e
        by_flag false e = checked (u, e)

    pub report_loss-Keeps :
        (P : StorePass W → Type 0) (code : BlockStoreErrors) (p : StorePass W)
        → P p
        → P (
            on_store
              (λ s. record s { loss_reported = true })
              (report max_message_size ports severity_error store_record_discarded code p))
        → P (report_loss max_message_size ports code p)
    unfolding report_loss
    report_loss-Keeps P code p h told =
        if_lem P (not p.block_store.loss_reported)
          (on_store (λ s. record s { loss_reported = true })
            (report max_message_size ports severity_error store_record_discarded code p))
          p (λ first. told) (λ again. h)

    report_eviction-Works :
        (p : StorePass W) → Works p → Works (report_eviction max_message_size ports p)
    unfolding report_eviction
    report_eviction-Works p h =
        let told : StorePass W =
          on_store (λ s. record s { eviction_reported = true })
            (report max_message_size ports severity_warning store_records_lost block_evicted p) in
        if_lem Works (not p.sequence.evicted_unsent)
          (on_store (λ s. record s { eviction_reported = false }) p)
          (if not p.block_store.eviction_reported then told else p) (λ none_lost. h)
          (λ some_lost.
            if_lem Works (not p.block_store.eviction_reported) told p (λ first. h) (λ again. h))

    report_refusal-Works :
        (p : StorePass W) → Works p → Works (report_refusal max_message_size ports p)
    unfolding report_refusal
    report_refusal-Works p h =
        if_lem Works (not p.block_store.refusal_reported)
          (on_store (λ s. record s { refusal_reported = true })
            (report max_message_size ports severity_warning store_records_lost record_refused p))
          p (λ first. h) (λ again. h)

    report_seal_failed-Works :
        (p : StorePass W) → Works p → Works (report_seal_failed max_message_size ports p)
    unfolding report_seal_failed
    report_seal_failed-Works p h =
        if_lem Works (not p.block_store.seal_failure_reported)
          (on_store (λ s. record s { seal_failure_reported = true })
            (report max_message_size ports severity_error store_write_failed seal_failed p))
          p (λ first. h) (λ again. h)

    judge_append-Live :
        (r : AppendResult) (record_bytes : ℕ) (p : StorePass W)
        → Works p
        → Live (judge_append max_message_size ports r record_bytes p).1
    unfolding judge_append note_record_written
    judge_append-Live append_succeeded record_bytes p ((not_frozen, (sound, none_told)), works) =
        let noted =
          notify-Keeps max ports.block_ports (λ s. IsSound max s × (s.device_failed ≡ false))
            ports.block_ports.get_capacity_threshold
            (record {
              sequence = record p.sequence {
                write_position = add_size p.sequence.write_position record_bytes;
                at_capacity = false;
              };
              world = p.world;
            })
            (sound, works) (λ b. (sound, works)) in
        inl ((not_frozen, (noted.0, none_told)), noted.1)
    judge_append-Live append_device_failed record_bytes p h =
        inr (freeze-Froze append_failed p h.0.1.1)
    judge_append-Live append_seal_failed record_bytes p h = inl (report_seal_failed-Works p h)

    module _ (some_block : 0 < max) (low : max ≤ 98) where
      pub store_record-Live :
          (message : Bytes) (p : StorePass W)
          → Works p
          → Live (store_record max_message_size ports message p).1
      unfolding store_record
      store_record-Live message p ((not_frozen, (sound, none_told)), works) =
          let record_bytes =
            record_size max_message_size ports.device ports.policy (length message % 2 ^ 16) in
          let prepared = by_sequence (prepare_for_write ports.block_ports record_bytes) p in
          let u : Unfrozen prepared.1 = (
            not_frozen,
            (
              prepare-IsSound ports.block_ports max some_block low record_bytes
                  (record { sequence = p.sequence; world = p.world }) sound works,
              none_told,
            ),
          ) in
          placed record_bytes prepared.0 (freeze_if_device_failed max_message_size ports prepared.1)
            (freeze_if-Checked prepared.1 u)
        where
          placed :
              (record_bytes : ℕ) (prepared : Bool × Bool) {p1 : StorePass W}
              (x : Bool × StorePass W)
              → Checked p1 x
              → let p3 = report_eviction max_message_size ports x.1 in
                let forgotten : StorePass W =
                  if prepared.1 then forget_read max_message_size ports p3 else p3 in
                let a =
                  by_records
                    (RecordStore.append max_message_size ports.device ports.policy
                      forgotten.sequence.write_sequence message)
                    forgotten in
                let answer : StoreWriteResult × StorePass W =
                  if x.0
                  then (not_retained, x.1)
                  else if not prepared.0
                  then (not_retained, report_refusal max_message_size ports x.1)
                  else judge_append max_message_size ports a.0 record_bytes a.1 in
                Live answer.1
          placed record_bytes prepared x (check_froze q h failed) = inr h
          placed record_bytes prepared {p1} x (checked h) =
              let p3 = report_eviction max_message_size ports p1 in
              let forgotten : StorePass W =
                if prepared.1 then forget_read max_message_size ports p3 else p3 in
              let still : Works forgotten =
                if_lem Works prepared.1 (forget_read max_message_size ports p3) p3
                  (λ changed. report_eviction-Works p1 h) (λ same. report_eviction-Works p1 h) in
              let a =
                by_records
                  (RecordStore.append max_message_size ports.device ports.policy
                    forgotten.sequence.write_sequence message)
                  forgotten in
              if_lem (λ (y : StoreWriteResult × StorePass W). Live y.1) (not prepared.0)
                (not_retained, report_refusal max_message_size ports p1)
                (judge_append max_message_size ports a.0 record_bytes a.1)
                (λ refused. inl (report_refusal-Works p1 h))
                (λ room. judge_append-Live a.0 record_bytes a.1 still)
