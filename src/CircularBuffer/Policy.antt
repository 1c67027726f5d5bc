-- ===== src/CircularBuffer/Policy.antt =====
-- What `Write` does under each discard policy.
use solid_syslog.Base.{
  ℕ, ◌+◌, ◌≤◌, ◌<◌, ◌≡◌, ◌≢◌, refl, ◌⊎◌, inl, inr, Bool, true, false, not, ◌&&◌, List, [], ◌∷◌,
  ◌++◌, arith, length, Bytes, add_size, Bool-cases, leb, if◌then◌else◌,
}
use solid_syslog.CircularBuffer.{
  DiscardPolicy, oldest, RunStarted, none_started, evictions, record_refused,
  record_exceeds_max_message_size, records_evicted, Event, lock, unlock, ask_policy, report,
  CircularBuffer, record_fits_at_tail, record_fits_after_wrap, record_fits, could_hold_when_empty,
  wrap_tail, store_record, keep_record, refuse_record, keep_or_refuse, report_run_started,
}
use solid_syslog.CircularBuffer.Layout.{Holds}
use solid_syslog.CircularBuffer.Layout.{Holds-latches}
use solid_syslog.CircularBuffer.Append.{store_at_tail, store_after_wrap}

-- There are `n` bytes in one piece for the next record of a ring that holds `q`: anywhere in an empty
-- ring; else behind the newest record, or from the start up to the oldest one. The tail never meets
-- the head.
abbrev pub Room : List Bytes → CircularBuffer → ℕ → Type 0
Room [] s n = n ≤ s.capacity
Room (d ∷ ds) s n =
    ((s.head ≤ s.tail) × ((s.tail + n ≤ s.capacity) ⊎ (n < s.head)))
    ⊎ ((s.tail < s.head) × (s.tail + n < s.head))

-- What a write of `r` may do to a ring `s` that holds `q`, under a limit of `m` bytes.
pub data WriteOutcome (m : ℕ) (p : DiscardPolicy) (s : CircularBuffer) (q : List Bytes) (r : Bytes)
    (out : CircularBuffer × List Event) : Type 0 where
  exceeds :
      m < length r
      → out ≡ (s, report record_exceeds_max_message_size ∷ [])
      → WriteOutcome m p s q r out
  kept :
      length r ≤ m
      → Room q s (2 + length r)
      → Holds out.0 (q ++ r ∷ [])
      → out.0.full ≡ false
      → out.0.loss_reported ≡ false
      → out.0.eviction_reported ≡ false
      → out.1 ≡ ask_policy ∷ lock ∷ unlock ∷ []
      → WriteOutcome m p s q r out
  evicting :
      (d : Bytes) (ds rest : List Bytes)
      → length r ≤ m
      → ¬ Room q s (2 + length r)
      → p ≡ oldest
      → q ≡ d ∷ ds ++ rest
      → 2 + length r ≤ s.capacity
      → Holds out.0 (rest ++ r ∷ [])
      → out.0.full ≡ true
      → out.0.loss_reported ≡ false
      → out.0.eviction_reported ≡ true
      → out.1
        ≡ ask_policy
          ∷ lock
          ∷ unlock
          ∷ (if s.eviction_reported then [] else report records_evicted ∷ [])
      → WriteOutcome m p s q r out
  refused :
      length r ≤ m
      → ¬ Room q s (2 + length r)
      → (p ≢ oldest) ⊎ (s.capacity < 2 + length r)
      → Holds out.0 q
      → out.0.full ≡ leb (2 + length r) s.capacity
      → out.0.loss_reported ≡ true
      → out.0.eviction_reported ≡ false
      → out.1
        ≡ ask_policy ∷ lock ∷ unlock ∷ (if s.loss_reported then [] else report record_refused ∷ [])
      → WriteOutcome m p s q r out

-- the outcome of `StoreApplyingPolicy`, with its report raised
abbrev pub finish : RunStarted × CircularBuffer → CircularBuffer × List Event
finish out = (out.1, ask_policy ∷ lock ∷ unlock ∷ report_run_started out.0)

-- `KeepRecord` appends wherever the record fits.
keep_record-Holds :
    {s : CircularBuffer} {q : List Bytes} (r : Bytes) (evicted : Bool)
    → length r < 65536
    → record_fits s (add_size 2 (length r)) ≡ true
    → Holds s q
    → Holds (keep_record s r evicted).1 (q ++ r ∷ [])
unfolding keep_record record_fits
keep_record-Holds {s} r evicted small fits h =
    elim (Bool-cases (record_fits_at_tail s (add_size 2 (length r)))) [
      | inl at_tail ↦
          let t = store_record s r in
          rw at_tail (
            Holds-latches false evicted t.too_large_reported evicted
              (store_at_tail r small at_tail h))
      | inr elsewhere ↦
          let t = store_record (wrap_tail s) r in
          let after : record_fits_after_wrap s (add_size 2 (length r)) ≡ true = ground arith in
          rw elsewhere (
            Holds-latches false evicted t.too_large_reported evicted
              (store_after_wrap r small after h))
    ]

keep_record_started :
    (s : CircularBuffer) (r : Bytes) (evicted : Bool)
    → (keep_record s r evicted).0
      ≡ (if evicted && not s.eviction_reported then evictions else none_started)
unfolding keep_record store_record
keep_record_started s r evicted = ground arith

keep_record_latches :
    (s : CircularBuffer) (r : Bytes) (evicted : Bool)
    → let t = (keep_record s r evicted).1 in
      (t.full ≡ evicted) × (t.loss_reported ≡ false) × (t.eviction_reported ≡ evicted)
unfolding keep_record
keep_record_latches s r evicted = (refl, refl, refl)

refuse_record-Holds :
    {s : CircularBuffer} {q : List Bytes} (n : ℕ) → Holds s q → Holds (refuse_record s n).1 q
unfolding refuse_record
refuse_record-Holds {s} n h =
    Holds-latches true false s.too_large_reported (could_hold_when_empty s n) h

module _ (m : ℕ) (p : DiscardPolicy) (s : CircularBuffer) (q : List Bytes) (r : Bytes)
    (small : length r < 65536) (within : length r ≤ m) where
  pub keep_outcome :
      {t : CircularBuffer}
      → Room q s (2 + length r)
      → Holds t q
      → record_fits t (add_size 2 (length r)) ≡ true
      → WriteOutcome m p s q r (finish (keep_or_refuse t r false))
  unfolding keep_or_refuse report_run_started
  keep_outcome {t} room h fits =
      let (full, loss, eviction) = keep_record_latches t r false in
      rw fits (
        kept within room (keep_record-Holds r false small fits h) full loss eviction
          (rw (keep_record_started t r false)))

  pub evict_outcome :
      {t : CircularBuffer} (d : Bytes) (ds rest : List Bytes)
      → ¬ Room q s (2 + length r)
      → p ≡ oldest
      → q ≡ d ∷ ds ++ rest
      → 2 + length r ≤ s.capacity
      → t.eviction_reported ≡ s.eviction_reported
      → Holds t rest
      → record_fits t (add_size 2 (length r)) ≡ true
      → WriteOutcome m p s q r (finish (keep_or_refuse t r true))
  unfolding keep_or_refuse report_run_started
  evict_outcome {t} d ds rest crowded e splits holdable same h fits =
      let (full, loss, eviction) = keep_record_latches t r true in
      rw fits (
        evicting d ds rest within crowded e splits holdable (keep_record-Holds r true small fits h)
          full loss eviction (rw (keep_record_started t r true, same) (ground arith)))

  pub refuse_outcome :
      {t : CircularBuffer}
      → ¬ Room q s (2 + length r)
      → (p ≢ oldest) ⊎ (s.capacity < 2 + length r)
      → t.capacity ≡ s.capacity
      → t.loss_reported ≡ s.loss_reported
      → Holds t q
      → record_fits t (add_size 2 (length r)) ≡ false
      → WriteOutcome m p s q r (finish (keep_or_refuse t r false))
  unfolding keep_or_refuse refuse_record report_run_started
  refuse_outcome {t} crowded why cap loss h full = rw full (
      refused within crowded why
        (unfold refuse_record in refuse_record-Holds (add_size 2 (length r)) h) (ground arith) refl
        refl (ground arith))
