-- ===== src/Service/Tests.antt =====
-- A world of lists: the buffer's records, the answers of the store and the sender, and the theorems
-- about a pass at it.
use solid_syslog.Base.{
  ℕ, ◌≤◌, ◌<◌, true, false, List, [], ◌∷◌, ◌++◌, Option, none, some, Bytes, ◌≡◌, refl, arith,
  length,
}
use mathlib.Core.Bool.{false≢true}
use solid_syslog.CircularBuffer.{DiscardPolicy, halt}
use solid_syslog.Service.{
  StoreWriteResult, not_retained, kept, Logger, Pass, Ports, ask_policy, halt_at,
  halted_store_refused, is_transient, write_store, read_buffer, is_some, service_logger,
  resume_if_policy_changed, drain_loop, process_messages, drain_buffer_into_store,
  apply_policy_to_held_record_if_buffer_full, deal_with_held_record,
  store_or_sender_takes_held_record, store_deals_with_held_record, report_pending_events,
  report_loop, report_if_pending, hold_next_record, halt_if_policy_halts, halt_logger,
  send_one_from_store, ready_or_idle, drop_held_record, hold_pending_report,
}
use solid_syslog.Service.Protocol.{state_of}
use solid_syslog.Service.Whole.{Served, service_logger-Served}
use solid_syslog.Service.Account.{waiting, records, settled, reads, service_accounts}
use solid_syslog.Service.Halts.{HaltsLast, service-HaltsLast}
use solid_syslog.Service.Ends.{Drains, drain_loop_ends}

record World : Type 0 where
  buffer : List Bytes
  -- the store's answers, then it keeps what it is given
  answers : List StoreWriteResult
  policy_is : DiscardPolicy

abbrev next_record : List Bytes → World → Option Bytes × World
next_record [] w = (none, w)
next_record (r ∷ rs) w = (some r, record w { buffer = rs })

abbrev next_answer : List StoreWriteResult → World → StoreWriteResult × World
next_answer [] w = (kept, w)
next_answer (a ∷ rest) w = (a, record w { answers = rest })

-- a store that retains records, and a sender that is down
abbrev ports : Ports World ℕ
ports = record {
  is_full = λ w. (false, w);
  read = λ capacity w. next_record w.buffer w;
  write = λ r w. next_answer w.answers w;
  transient = λ w. (false, w);
  next_unsent = λ capacity w. (none, w);
  mark = λ w. w;
  unsent = λ w. (false, w);
  send = λ r w. (false, w);
  policy = λ w. (w.policy_is, w);
  reporting_on = λ w. (true, w);
  pending = λ index w. (false, w);
  any_pending = λ w. (false, w);
  take = λ index w. ((false, 0), w);
  format = λ capacity event w. ([], w);
  report = λ detail w. w;
  on_halt = λ w. w;
}

abbrev logger : Logger
logger = record {
  has_slot = true;
  record_capacity = 64;
  slot = [];
  holds_record = false;
  held_record_is_report = false;
  held_record_loss_reported = false;
  report_turned_down = false;
  halted = false;
}

-- three records, the second of which the store refuses while the policy answers Halt
abbrev begun : Pass World
begun = record {
  logger = logger;
  world = record {
    buffer = (1 ∷ []) ∷ (2 ∷ []) ∷ (3 ∷ []) ∷ [];
    answers = kept ∷ not_retained ∷ [];
    policy_is = halt;
  };
  calls = [];
}

halts_at_refusal :
    (service_logger ports 9 begun).1.calls
    ≡ halt_at halted_store_refused
      ∷ ask_policy halt
      ∷ is_transient false (2 ∷ []) false
      ∷ write_store false (2 ∷ []) not_retained
      ∷ read_buffer (some (2 ∷ []))
      ∷ write_store false (1 ∷ []) kept
      ∷ read_buffer (some (1 ∷ []))
      ∷ []
unfolding service_logger resume_if_policy_changed process_messages drain_buffer_into_store
    apply_policy_to_held_record_if_buffer_full deal_with_held_record
    store_or_sender_takes_held_record store_deals_with_held_record report_pending_events report_loop
    report_if_pending hold_next_record halt_if_policy_halts halt_logger send_one_from_store
    ready_or_idle drop_held_record drain_loop hold_pending_report
halts_at_refusal = refl

drains : Drains ports (λ w. length w.buffer)
drains = record {
  read_takes = λ capacity w found. takes w.buffer w refl found;
  write_quiet = λ r w. same w.answers w;
  transient_quiet = λ w. omega arith;
  policy_quiet = λ w. omega arith;
  send_quiet = λ r w. omega arith;
  halt_quiet = λ at w. omega arith;
}
  where
    takes :
        (rs : List Bytes) (w : World)
        → w.buffer ≡ rs
        → is_some (next_record rs w).0 ≡ true
        → length (next_record rs w).1.buffer < length w.buffer
    takes [] w e found = absurd (false≢true found)
    takes (r ∷ rs) w e found = rw e (omega arith)

    same :
        (rest : List StoreWriteResult) (w : World)
        → length (next_answer rest w).1.buffer ≤ length w.buffer
    same [] w = omega arith
    same (a ∷ rest) w = omega arith

service_logger-Served_example :
    Served (resume_if_policy_changed ports begun) (service_logger ports 9 begun)
service_logger-Served_example = service_logger-Served ports 9 begun

service_accounts_example :
    let r = (service_logger ports 9 begun).1 in
    waiting (state_of r.logger).slot ++ records (settled r.calls)
    ≡ reads r.calls ++ waiting (state_of begun.logger).slot
service_accounts_example = service_accounts ports 9 begun refl

service-HaltsLast_example :
    let q = resume_if_policy_changed ports begun in
    let r = (service_logger ports 9 begun).1 in
    HaltsLast (state_of q.logger) q.calls r.calls (state_of r.logger)
service-HaltsLast_example = service-HaltsLast ports 9 begun

drain_loop_ends_example : drain_loop ports 4 true false begun ≡ drain_loop ports 9 true false begun
drain_loop_ends_example =
    drain_loop_ends ports (λ w. length w.buffer) drains 4 9 true false begun (omega arith)
      (omega arith)
