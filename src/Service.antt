-- ===== src/Service.antt =====
-- Core/Source/SolidSyslog.c, the Service half: a pass takes records from the buffer, reports what
-- is pending, hands records to the store and the sender, and halts where the policy says so. What
-- is behind the vtables and callbacks (buffer, store, sender, discard policy, halt callback,
-- reporting switch, the pending events and the formatting of a report) is the record of ports
-- below over a state of the world. Beside its result, an operation logs its calls, the last one
-- first.
pub mod Protocol
pub mod Offer
pub mod Deal
pub mod Report
pub mod Whole
pub mod Account
pub mod Halts
pub mod Ends
mod Tests
use solid_syslog.Base.{
  ℕ, zero, suc, ◌+◌, Bool, true, false, not, ◌&&◌, ◌||◌, List, [], ◌∷◌, Option, none, some, Bytes,
  if◌then◌else◌,
}
use solid_syslog.CircularBuffer.{DiscardPolicy, oldest, newest, halt}

-- `enum SolidSyslogStoreWriteResult`
pub data StoreWriteResult : Type 0 where
  not_retained kept lost : StoreWriteResult

-- `enum SolidSyslogServiceStatus`
pub data ServiceStatus : Type 0 where
  idle ready blocked service_halted : ServiceStatus

-- the details that the pass reports
pub data Detail : Type 0 where
  service_null_handle held_record_dropped halted_store_refused halted_buffer_full : Detail

pub data Call : Type 0 where
  buffer_is_full : Bool → Call
  ask_policy : DiscardPolicy → Call
  -- the record that is dropped, and whether the drop is reported
  drop_held : Bytes → Bool → Call
  halt_at : Detail → Call
  ask_switch : Bool → Call
  make_report : Bytes → Call
  read_buffer : Option Bytes → Call
  -- whether the record is a report, the record, and the answer
  write_store : Bool → Bytes → StoreWriteResult → Call
  is_transient : Bool → Bytes → Bool → Call
  send_held : Bool → Bytes → Bool → Call
  read_next_unsent : Option Bytes → Call
  send_stored : Bytes → Bool → Call
  mark_sent : Call
  has_unsent : Bool → Call

-- What the logger calls. `W` is the state of everything outside it, `E` an event to report. The
-- capacity of the slot is passed to the reads.
pub record Ports (W E : Type 0) : Type 0 where
  pub is_full : W → Bool × W
  pub read : ℕ → W → Option Bytes × W
  pub write : Bytes → W → StoreWriteResult × W
  pub transient : W → Bool × W
  pub next_unsent : ℕ → W → Option Bytes × W
  pub mark : W → W
  pub unsent : W → Bool × W
  pub send : Bytes → W → Bool × W
  pub policy : W → DiscardPolicy × W
  pub reporting_on : W → Bool × W
  pub pending : ℕ → W → Bool × W
  pub any_pending : W → Bool × W
  pub take : ℕ → W → (Bool × E) × W
  pub format : ℕ → E → W → Bytes × W
  pub report : Detail → W → W
  pub on_halt : W → W

-- `struct SolidSyslog`, as far as Service uses it. `has_slot` says that `RecordStorage` is not NULL.
pub record Logger : Type 0 where
  pub has_slot : Bool
  pub record_capacity : ℕ
  pub slot : Bytes
  pub holds_record : Bool
  pub held_record_is_report : Bool
  pub held_record_loss_reported : Bool
  pub report_turned_down : Bool
  pub halted : Bool

pub record Pass (W : Type 0) : Type 0 where
  pub logger : Logger
  pub world : W
  pub calls : List Call

-- SOLIDSYSLOG_PENDING_EVENT_KIND_COUNT
abbrev pub kind_count : ℕ
kind_count = 16

abbrev pub is_halt : DiscardPolicy → Bool
is_halt oldest = false
is_halt newest = false
is_halt halt = true

abbrev pub is_kept : StoreWriteResult → Bool
is_kept not_retained = false
is_kept kept = true
is_kept lost = false

abbrev pub is_lost : StoreWriteResult → Bool
is_lost not_retained = false
is_lost kept = false
is_lost lost = true

abbrev pub is_some : Option Bytes → Bool
is_some none = false
is_some (some r) = true

-- What a read leaves in the slot. A read that finds nothing says that its length is 0.
abbrev pub read_into : Option Bytes → Bytes
read_into none = []
read_into (some r) = r

module _ {W E : Type 0} (ports : Ports W E) where
  -- a call, its answer written to the log
  abbrev pub log : {A : Type 0} → Pass W → (A → Call) → A × W → A × Pass W
  log p call answer = (answer.0, record p { world = answer.1; calls = call answer.0 ∷ p.calls })

  abbrev pub get_discard_policy : Pass W → DiscardPolicy × Pass W
  get_discard_policy p = log p ask_policy (ports.policy p.world)

  unfoldable pub halt_logger : Pass W → Detail → Pass W
  halt_logger p at = record {
    logger = record p.logger { halted = true };
    world = ports.on_halt (ports.report at p.world);
    calls = halt_at at ∷ p.calls;
  }

  unfoldable pub halt_if_policy_halts : Pass W → Pass W
  halt_if_policy_halts p =
      let (policy, p1) = get_discard_policy p in
      if is_halt policy then halt_logger p1 halted_store_refused else p1

  unfoldable pub drop_held_record : Pass W → Pass W
  drop_held_record p =
      let run_started = not p.logger.held_record_loss_reported in
      record {
        logger = record p.logger { holds_record = false; held_record_loss_reported = true };
        world = if run_started then ports.report held_record_dropped p.world else p.world;
        calls = drop_held p.logger.slot run_started ∷ p.calls;
      }

  abbrev pub apply_policy : DiscardPolicy → Pass W → Pass W
  apply_policy oldest p = if not p.logger.held_record_is_report then drop_held_record p else p
  apply_policy halt p = halt_logger p halted_buffer_full
  apply_policy newest p = p

  unfoldable pub apply_policy_to_held_record_if_buffer_full : Pass W → Pass W
  apply_policy_to_held_record_if_buffer_full p =
      let (full, p1) = log p buffer_is_full (ports.is_full p.world) in
      let (policy, p2) = get_discard_policy p1 in
      if p.logger.holds_record then (if full then apply_policy policy p2 else p1) else p

  unfoldable pub hold_next_record : Pass W → Bool × Pass W
  hold_next_record p =
      let (found, p1) = log p read_buffer (ports.read p.logger.record_capacity p.world) in
      (
        is_some found,
        record p1 {
          logger = record p.logger {
            slot = read_into found;
            holds_record = is_some found;
            held_record_is_report = false;
          };
        },
      )

  -- The store is asked whether it is transient only when it did not retain the record.
  abbrev pub is_refused : StoreWriteResult → Pass W → Bool × Pass W
  is_refused not_retained p =
      let (transient, p1) =
        log p (is_transient p.logger.held_record_is_report p.logger.slot)
          (ports.transient p.world) in
      (not transient, p1)
  is_refused kept p = (false, p)
  is_refused lost p = (false, p)

  -- `StoreDealsWithHeldRecord` behind the write
  abbrev pub judge_write : StoreWriteResult → Pass W → Bool × Pass W
  judge_write result p =
      let (refused, p1) = is_refused result p in
      let not_kept = refused || is_lost result in
      let p2 = if refused then halt_if_policy_halts p1 else p1 in
      (is_kept result || (not_kept && not p2.logger.held_record_is_report), p2)

  unfoldable pub store_deals_with_held_record : Pass W → Bool × Pass W
  store_deals_with_held_record p =
      let (result, p1) =
        log p (write_store p.logger.held_record_is_report p.logger.slot)
          (ports.write p.logger.slot p.world) in
      judge_write result p1

  unfoldable pub store_or_sender_takes_held_record : Pass W → Bool × Pass W
  store_or_sender_takes_held_record p =
      let (dealt, p1) = store_deals_with_held_record p in
      let sent =
        log p1 (send_held p1.logger.held_record_is_report p1.logger.slot)
          (ports.send p1.logger.slot p1.world) in
      if dealt then (true, p1) else if not p1.logger.halted then sent else (false, p1)

  -- what `DealWithHeldRecord` notes down
  abbrev pub note_taken : Bool → Pass W → Pass W
  note_taken taken p = record p {
    logger = record p.logger {
      holds_record = not taken;
      held_record_loss_reported =
          p.logger.held_record_loss_reported && not (taken && not p.logger.held_record_is_report);
    };
  }

  unfoldable pub deal_with_held_record : Pass W → Bool × Pass W
  deal_with_held_record p =
      let (taken, p1) = store_or_sender_takes_held_record p in
      let p2 = if p.logger.holds_record then note_taken taken p1 else p in
      (not p2.logger.holds_record, p2)

  -- `HoldPendingReport` and `FormatReport`
  unfoldable pub hold_pending_report : Pass W → ℕ → Pass W
  hold_pending_report p index =
      let ((taken, event), w1) = ports.take index p.world in
      let (text, w2) = ports.format p.logger.record_capacity event w1 in
      record {
        logger = record p.logger {
          slot = text;
          holds_record = taken;
          held_record_is_report = taken;
        };
        world = w2;
        calls = if taken then make_report text ∷ p.calls else p.calls;
      }

  unfoldable pub report_if_pending : Pass W → ℕ → Bool × Pass W
  report_if_pending p index =
      let (waiting, w1) = ports.pending index p.world in
      let p1 = record p { world = w1 } in
      let (on, p2) = log p1 ask_switch (ports.reporting_on w1) in
      let p3 = record p2 { logger = record p2.logger { report_turned_down = not on } } in
      let (free, p4) = deal_with_held_record (hold_pending_report p3 index) in
      if waiting
      then (if on then (free && not p4.logger.halted, p4) else (false, p3))
      else (true, p1)

  -- the loop of `ReportPendingEvents`, with `left` kinds to go
  unfoldable pub report_loop : ℕ → ℕ → Bool → Pass W → Pass W
  report_loop zero index walking p = p
  report_loop (suc left) index walking p =
      let (goes_on, p1) = report_if_pending p index in
      let rest = report_loop left (index + 1) goes_on p1 in if walking then rest else p

  unfoldable pub report_pending_events : Pass W → Bool × Pass W
  report_pending_events p =
      let p1 = report_loop kind_count 0 p.logger.has_slot p in (not p1.logger.holds_record, p1)

  -- The loop of `DrainBufferIntoStore`, from a state of `dealtWith` and `drained`. Each round takes
  -- a record from the buffer: `Ends.drain_loop_ends` says which fuel is enough.
  unfoldable pub drain_loop : ℕ → Bool → Bool → Pass W → Bool × Pass W
  drain_loop zero dealt_with drained p = (drained, p)
  drain_loop (suc fuel) dealt_with drained p =
      let (found, p1) = hold_next_record p in
      let (dealt, p2) = deal_with_held_record p1 in
      let rest = drain_loop fuel dealt true p2 in
      if dealt_with && not p.logger.halted
      then (if found then rest else (drained, p1))
      else (drained, p)

  unfoldable pub drain_buffer_into_store : ℕ → Pass W → Bool × Pass W
  drain_buffer_into_store fuel p =
      let p1 = apply_policy_to_held_record_if_buffer_full p in
      let dealt = if p1.logger.halted then (false, p1) else deal_with_held_record p1 in
      let (dealt_with, p2) =
        if dealt.0 && not dealt.1.logger.halted then report_pending_events dealt.1 else dealt in
      drain_loop fuel dealt_with false p2

  abbrev pub send_next : Option Bytes → Pass W → Bool × Pass W
  send_next none p = log p has_unsent (ports.unsent p.world)
  send_next (some r) p =
      let (sent, p1) = log p (send_stored r) (ports.send r p.world) in
      let marked = record p1 { world = ports.mark p1.world; calls = mark_sent ∷ p1.calls } in
      if sent then (false, marked) else (true, p1)

  -- `SendOneFromStore` and `TakeNextFromStore`
  unfoldable pub send_one_from_store : Pass W → Bool × Pass W
  send_one_from_store p =
      let (found, p1) =
        log p read_next_unsent (ports.next_unsent p.logger.record_capacity p.world) in
      let taken =
        send_next found (record p1 { logger = record p.logger { slot = read_into found } }) in
      let held = log p has_unsent (ports.unsent p.world) in
      if p.logger.holds_record then held else taken

  abbrev pub is_blocked : Pass W → Bool → Bool → Bool
  is_blocked p store_blocked drained = p.logger.holds_record || (store_blocked && not drained)

  -- the status of a pass that neither halted nor is blocked
  unfoldable pub ready_or_idle : Bool → Pass W → ServiceStatus × Pass W
  ready_or_idle drained p =
      let (more, p1) = log p has_unsent (ports.unsent p.world) in
      let (any, w2) = ports.any_pending p1.world in
      let asks = p1.logger.has_slot && not p1.logger.report_turned_down in
      let p2 = if asks then record p1 { world = w2 } else p1 in
      if drained
      then (ready, p)
      else if more
      then (ready, p1)
      else if asks && any
      then (ready, p2)
      else (idle, p2)

  unfoldable pub process_messages : ℕ → Pass W → ServiceStatus × Pass W
  process_messages fuel p =
      let start = record p { logger = record p.logger { report_turned_down = false } } in
      let (drained, p1) = drain_buffer_into_store fuel start in
      let (store_blocked, p2) = if p1.logger.halted then (false, p1) else send_one_from_store p1 in
      if p2.logger.halted
      then (service_halted, p2)
      else if is_blocked p2 store_blocked drained
      then (blocked, p2)
      else ready_or_idle drained p2

  -- The policy is asked only while the logger is halted.
  unfoldable pub resume_if_policy_changed : Pass W → Pass W
  resume_if_policy_changed p =
      let (policy, p1) = get_discard_policy p in
      if p.logger.halted
      then record p1 { logger = record p.logger { halted = is_halt policy } }
      else p

  -- a pass over a logger
  unfoldable pub service_logger : ℕ → Pass W → ServiceStatus × Pass W
  service_logger fuel p =
      let p1 = resume_if_policy_changed p in
      if not p1.logger.halted then process_messages fuel p1 else (service_halted, p1)

  -- `SolidSyslog_Service`: the handle may be NULL
  unfoldable pub service : ℕ → Option Logger → W → ServiceStatus × (Option Logger × (W × List Call))
  service fuel none w = (idle, (none, (ports.report service_null_handle w, [])))
  service fuel (some logger) w =
      let (status, p) = service_logger fuel (record { logger = logger; world = w; calls = [] }) in
      (status, (some p.logger, (p.world, p.calls)))
