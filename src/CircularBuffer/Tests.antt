-- ===== src/CircularBuffer/Tests.antt =====
-- Runs of the buffer on small rings, and the theorems at them.
use solid_syslog.Base.{◌≡◌, refl, false, List, [], ◌∷◌, ◌++◌, arith, Bytes, slice, blit}
use solid_syslog.CircularBuffer.{
  oldest, newest, halt, CircularBuffer, peek_record_size, load_record, read_head, read, record_fits,
  policy_evicts_for, is_oldest, drop_head, evict_until_record_fits, store_record, keep_record,
  refuse_record, keep_or_refuse, store_applying_policy, write,
}
use solid_syslog.CircularBuffer.Layout.{Holds, flat}
use solid_syslog.CircularBuffer.Read.{ReadOutcome, read_lem}
use solid_syslog.CircularBuffer.Evict.{Evicted, evict_lem}
use solid_syslog.CircularBuffer.Trace.{put, get, run, Ordered, run-Ordered}
use solid_syslog.CircularBuffer.Reports.{
  write_all, is_refusal, is_eviction, AllLeave, run_reports_once, refusals, evictions, count,
}

-- eight bytes, filled by a record of three bytes and one of one byte
abbrev filled : CircularBuffer
filled = record {
  ring = 3 ∷ 0 ∷ 1 ∷ 2 ∷ 3 ∷ 1 ∷ 0 ∷ 9 ∷ [];
  capacity = 8;
  head = 0;
  tail = 8;
  wrap_point = 8;
  loss_reported = false;
  eviction_reported = false;
  too_large_reported = false;
  full = false;
}

abbrev held : List Bytes
held = (1 ∷ 2 ∷ 3 ∷ []) ∷ (9 ∷ []) ∷ []

filled-Holds : Holds filled held
unfolding slice
filled-Holds = flat (omega arith) (record {
  ordered = omega arith;
  inside = omega arith;
  unmarked = refl;
  records = (
    record { low = refl; high = refl; bytes = refl; small = omega arith },
    (record { low = refl; high = refl; bytes = refl; small = omega arith }, refl),
  );
})

-- the oldest record goes, and the new one wraps to the start
evicts :
    (run 480 filled (put oldest (7 ∷ []) ∷ get 5 ∷ get 5 ∷ get 5 ∷ [])).0 ≡ (9 ∷ []) ∷ (7 ∷ []) ∷ []
unfolding run write store_applying_policy record_fits policy_evicts_for is_oldest
    evict_until_record_fits drop_head peek_record_size keep_or_refuse keep_record store_record
    refuse_record read read_head load_record slice blit
evicts = refl

run-Ordered_example :
    Ordered
      (run 480 filled (put oldest (7 ∷ []) ∷ get 5 ∷ put newest (4 ∷ 4 ∷ []) ∷ get 0 ∷ []))
      (held ++ (7 ∷ []) ∷ (4 ∷ 4 ∷ []) ∷ [])
run-Ordered_example =
    run-Ordered 480 (put oldest (7 ∷ []) ∷ get 5 ∷ put newest (4 ∷ 4 ∷ []) ∷ get 0 ∷ []) filled held
      (omega arith) filled-Holds

read_lem_example : ReadOutcome 2 filled held (read filled 2)
read_lem_example = read_lem held 2 filled-Holds

evict_lem_example : Evicted filled held 8 (evict_until_record_fits 9 filled 8)
evict_lem_example = evict_lem 9 held 8 filled-Holds tt (omega arith) (omega arith)

refused_twice : AllLeave (λ t. t.loss_reported) 480 filled ((newest, 7 ∷ []) ∷ (halt, []) ∷ [])
unfolding write store_applying_policy record_fits policy_evicts_for is_oldest keep_or_refuse
    refuse_record
refused_twice = (refl, (refl, tt))

run_reports_once_example :
    count is_refusal (write_all 480 filled ((newest, 7 ∷ []) ∷ (halt, []) ∷ [])).1 ≡ 1
run_reports_once_example =
    run_reports_once refusals 480 filled held (newest, 7 ∷ []) ((halt, []) ∷ []) (omega arith)
      filled-Holds refused_twice

evicting_twice :
    AllLeave (λ t. t.eviction_reported) 480 filled ((oldest, 7 ∷ 7 ∷ []) ∷ (oldest, 5 ∷ []) ∷ [])
unfolding write store_applying_policy record_fits policy_evicts_for is_oldest
    evict_until_record_fits drop_head peek_record_size keep_or_refuse keep_record store_record
    refuse_record slice blit
evicting_twice = (refl, (refl, tt))

evictions_told_once :
    count is_eviction (write_all 480 filled ((oldest, 7 ∷ 7 ∷ []) ∷ (oldest, 5 ∷ []) ∷ [])).1 ≡ 1
evictions_told_once =
    run_reports_once evictions 480 filled held (oldest, 7 ∷ 7 ∷ []) ((oldest, 5 ∷ []) ∷ [])
      (omega arith) filled-Holds evicting_twice
