-- ===== src/Service/Whole.antt =====
-- A whole pass of Service follows the protocol.
use solid_syslog.Base.{
  if_lem, and_true, not-true, ℕ, zero, suc, Bool, true, false, not, ◌&&◌, List, ◌∷◌, Option, none,
  some, Bytes, if◌then◌else◌, ◌≡◌, refl, sym, subst, ◌∙◌, Bool-cases, inl, inr,
}
use mathlib.Core.Bool.{false≢true}
use solid_syslog.Service.{
  Call, read_next_unsent, send_stored, mark_sent, has_unsent, Pass, Ports, read_into, ServiceStatus,
  idle, ready, blocked, service_halted, log, apply_policy_to_held_record_if_buffer_full,
  hold_next_record, deal_with_held_record, report_pending_events, drain_loop,
  drain_buffer_into_store, send_next, send_one_from_store, ready_or_idle, process_messages,
  resume_if_policy_changed, service_logger, is_blocked,
}
use solid_syslog.Service.Protocol.{
  free, sent, State, store_hands_out, store_hands_out_none, sender_answers_stored, marks,
  asks_unsent_free, asks_unsent_held, Reached, begin, step, state_of,
}
use solid_syslog.Service.Offer.{At}
use solid_syslog.Service.Deal.{Here, holding, freed, deal_with_held_record_lem}
use solid_syslog.Service.Report.{
  apply_policy_to_held_record_if_buffer_full_lem, hold_next_record_lem, report_pending_events_lem,
}

abbrev pub says_halted : ServiceStatus → Bool
says_halted idle = false
says_halted ready = false
says_halted blocked = false
says_halted service_halted = true

module _ {W E : Type 0} (ports : Ports W E) (start : State) (before : List Call) where
  -- `dealt_with` says at most that the slot is free
  abbrev Dealt : Bool × Pass W → Type 0
  Dealt a = Here ports start before a.1 × (a.0 ≡ true → a.1.logger.holds_record ≡ false)

  shown_free :
      (a : Bool × Pass W)
      → a.0 ≡ not a.1.logger.holds_record
      → a.0 ≡ true
      → a.1.logger.holds_record ≡ false
  shown_free a shown e = not-true a.1.logger.holds_record (sym shown ∙ e)

  drain_loop_lem :
      (fuel : ℕ) (dealt_with drained : Bool) (p : Pass W)
      → Dealt (dealt_with, p)
      → Here ports start before (drain_loop ports fuel dealt_with drained p).1
  unfolding drain_loop
  drain_loop_lem zero dealt_with drained p (here, nothing) = here
  drain_loop_lem (suc fuel) dealt_with drained p (here, nothing) =
      let a = hold_next_record ports p in
      let d = deal_with_held_record ports a.1 in
      if_lem (λ (r : Bool × Pass W). Here ports start before r.1)
        (dealt_with && not p.logger.halted)
        (if a.0 then drain_loop ports fuel d.0 true d.1 else (drained, a.1)) (drained, p)
        (λ e.
          let (dealt, going) = and_true dealt_with (not p.logger.halted) e in
          let (held_here, on) =
            hold_next_record_lem ports start before p here (not-true p.logger.halted going)
              (nothing dealt) in
          if_lem (λ (r : Bool × Pass W). Here ports start before r.1) a.0
            (drain_loop ports fuel d.0 true d.1) (drained, a.1)
            (λ found.
              let (there, shown) = deal_with_held_record_lem ports start before a.1 held_here on in
              drain_loop_lem fuel d.0 true d.1 (there, shown_free d shown))
            (λ e. held_here))
        (λ e. here)

  drain_buffer_into_store_lem :
      (fuel : ℕ) (p : Pass W)
      → Here ports start before p
      → p.logger.halted ≡ false
      → Here ports start before (drain_buffer_into_store ports fuel p).1
  unfolding drain_buffer_into_store
  drain_buffer_into_store_lem fuel p here on =
      let there = apply_policy_to_held_record_if_buffer_full_lem ports start before p here on in
      let p1 = apply_policy_to_held_record_if_buffer_full ports p in
      let d = deal_with_held_record ports p1 in
      let dealt : Dealt (if p1.logger.halted then (false, p1) else d) =
        if_lem Dealt p1.logger.halted (false, p1) d (λ e. (there, λ f. absurd (false≢true f)))
          (λ going.
            let (behind, shown) = deal_with_held_record_lem ports start before p1 there going in
            (behind, shown_free d shown)) in
      reports (if p1.logger.halted then (false, p1) else d) dealt
    where
      reports :
          (d : Bool × Pass W)
          → Dealt d
          → let r = if d.0 && not d.1.logger.halted then report_pending_events ports d.1 else d in
            Here ports start before (drain_loop ports fuel r.0 false r.1).1
      reports d (here, nothing) =
          let e = report_pending_events ports d.1 in
          let r = if d.0 && not d.1.logger.halted then e else d in
          drain_loop_lem fuel r.0 false r.1 (
            if_lem Dealt (d.0 && not d.1.logger.halted) e d
              (λ both.
                let (dealt, going) = and_true d.0 (not d.1.logger.halted) both in
                let (there, shown) =
                  report_pending_events_lem ports start before d.1 here
                    (not-true d.1.logger.halted going) (nothing dealt) in
                (there, shown_free e shown))
              (λ e. (here, nothing)))

  has_unsent_lem :
      (p : Pass W) (answer : Bool) (w : W)
      → Here ports start before p
      → p.logger.halted ≡ false
      → Here ports start before (record p { world = w; calls = has_unsent answer ∷ p.calls })
  has_unsent_lem p answer w here on = elim (Bool-cases p.logger.holds_record) [
    | inl holds ↦
        let b = p.logger.held_record_is_report in
        let r = p.logger.slot in
        let l = p.logger.held_record_loss_reported in
        rw (holds, on)
          (step (holding ports start before p here on holds) (asks_unsent_held b r l answer))
    | inr nothing ↦
        let l = p.logger.held_record_loss_reported in
        rw (nothing, on)
          (step (freed ports start before p here on nothing) (asks_unsent_free l answer))
  ]

  -- A step of a pass that has not halted leaves one that has not.
  abbrev Goes : Bool × Pass W → Type 0
  Goes a = Here ports start before a.1 × (a.1.logger.halted ≡ false)

  send_next_lem :
      (found : Option Bytes) (p : Pass W)
      → Here ports start before p
      → p.logger.halted ≡ false
      → p.logger.holds_record ≡ false
      → Goes (
          send_next ports found (record p {
            logger = record p.logger { slot = read_into found };
            calls = read_next_unsent found ∷ p.calls;
          }))
  send_next_lem none p here on nothing =
      let l = p.logger.held_record_loss_reported in
      let at = step (freed ports start before p here on nothing) (store_hands_out_none l) in
      (rw (nothing, on) (step at (asks_unsent_free l (ports.unsent p.world).0)), on)
  send_next_lem (some r) p here on nothing =
      let l = p.logger.held_record_loss_reported in
      let answer = ports.send r p.world in
      let at = step (freed ports start before p here on nothing) (store_hands_out r l) in
      let sends = step at (sender_answers_stored r l answer.0) in
      let p1 : Pass W = record {
        logger = record p.logger { slot = r };
        world = answer.1;
        calls = send_stored r answer.0 ∷ read_next_unsent (some r) ∷ p.calls;
      } in
      let marked : Pass W = record p1 {
        world = ports.mark answer.1;
        calls = mark_sent ∷ p1.calls;
      } in
      if_lem Goes answer.0 (false, marked) (true, p1)
        (λ taken. (rw (nothing, on) (step (subst (Sends r l p.calls) taken sends) (marks l)), on))
        (λ refused. (rw (nothing, on) (subst (Sends r l p.calls) refused sends), on))
    where
      Sends : Bytes → Bool → List Call → Bool → Type 0
      Sends r l calls taken =
          At ports start before
            (send_stored r (ports.send r p.world).0 ∷ read_next_unsent (some r) ∷ calls)
            (if taken then sent else free) false l

  send_one_from_store_lem :
      (p : Pass W)
      → Here ports start before p
      → p.logger.halted ≡ false
      → Goes (send_one_from_store ports p)
  unfolding send_one_from_store
  send_one_from_store_lem p here on =
      let found = ports.next_unsent p.logger.record_capacity p.world in
      let unsent = ports.unsent p.world in
      if_lem Goes p.logger.holds_record (log ports p has_unsent unsent)
        (send_next ports found.0 (record {
          logger = record p.logger { slot = read_into found.0 };
          world = found.1;
          calls = read_next_unsent found.0 ∷ p.calls;
        }))
        (λ e. (has_unsent_lem p unsent.0 unsent.1 here on, on))
        (λ nothing. send_next_lem found.0 (record p { world = found.1 }) here on nothing)

  -- what a pass ends with: where the logger says, and told to be halted if it is
  abbrev Ends : ServiceStatus × Pass W → Type 0
  Ends r = Here ports start before r.1 × (says_halted r.0 ≡ r.1.logger.halted)

  ready_or_idle_lem :
      (drained : Bool) (p : Pass W)
      → Here ports start before p
      → p.logger.halted ≡ false
      → Ends (ready_or_idle ports drained p)
  unfolding ready_or_idle
  ready_or_idle_lem drained p here on =
      let more = ports.unsent p.world in
      let any = ports.any_pending more.1 in
      let asks = p.logger.has_slot && not p.logger.report_turned_down in
      let p1 : Pass W = record p { world = more.1; calls = has_unsent more.0 ∷ p.calls } in
      let p2 : Pass W = if asks then record p1 { world = any.1 } else p1 in
      let asked = has_unsent_lem p more.0 more.1 here on in
      let idle_here : Goes (true, p2) =
        if_lem (λ (q : Pass W). Goes (true, q)) asks (record p1 { world = any.1 }) p1
          (λ e. (asked, on)) (λ e. (asked, on)) in
      if_lem Ends drained (ready, p)
        (if more.0 then (ready, p1) else if asks && any.0 then (ready, p2) else (idle, p2))
        (λ e. (here, sym on))
        (λ e.
          if_lem Ends more.0 (ready, p1) (if asks && any.0 then (ready, p2) else (idle, p2))
            (λ e. (asked, sym on))
            (λ e.
              if_lem Ends (asks && any.0) (ready, p2) (idle, p2)
                (λ e. (idle_here.0, sym idle_here.1)) (λ e. (idle_here.0, sym idle_here.1))))

  process_messages_lem :
      (fuel : ℕ) (p : Pass W)
      → Here ports start before p
      → p.logger.halted ≡ false
      → Ends (process_messages ports fuel p)
  unfolding process_messages
  process_messages_lem fuel p here on =
      let begun : Pass W = record p { logger = record p.logger { report_turned_down = false } } in
      let d = drain_buffer_into_store ports fuel begun in
      let drained_here = drain_buffer_into_store_lem fuel begun here on in
      let s = send_one_from_store ports d.1 in
      status d.0 (if d.1.logger.halted then (false, d.1) else s) (
        if_lem (λ (a : Bool × Pass W). Here ports start before a.1) d.1.logger.halted (false, d.1) s
          (λ e. drained_here) (λ going. (send_one_from_store_lem d.1 drained_here going).0))
    where
      status :
          (drained : Bool) (a : Bool × Pass W)
          → Here ports start before a.1
          → Ends (
              if a.1.logger.halted
              then (service_halted, a.1)
              else if is_blocked ports a.1 a.0 drained
              then (blocked, a.1)
              else ready_or_idle ports drained a.1)
      status drained a here =
          if_lem Ends a.1.logger.halted (service_halted, a.1)
            (if is_blocked ports a.1 a.0 drained
              then (blocked, a.1)
              else ready_or_idle ports drained a.1)
            (λ e. (here, sym e))
            (λ on.
              if_lem Ends (is_blocked ports a.1 a.0 drained) (blocked, a.1)
                (ready_or_idle ports drained a.1) (λ e. (here, sym on))
                (λ e. ready_or_idle_lem drained a.1 here on))

-- what a pass promises from the moment where a halt has been looked at
pub record Served {W : Type 0} (resumed : Pass W) (r : ServiceStatus × Pass W) : Type 0 where
  pub follows : Reached (state_of resumed.logger) resumed.calls r.1.calls (state_of r.1.logger)
  pub told : says_halted r.0 ≡ r.1.logger.halted

-- Whatever the buffer, store, sender and callbacks answer, and with any fuel, the calls of a pass follow the
-- protocol, from the state of the logger after the halt was looked at to the state it is left in,
-- and the status says that it is halted exactly when it is.
pub service_logger-Served :
    {W E : Type 0} (ports : Ports W E) (fuel : ℕ) (p : Pass W)
    → Served (resume_if_policy_changed ports p) (service_logger ports fuel p)
unfolding service_logger
service_logger-Served ports fuel p =
    let q = resume_if_policy_changed ports p in
    if_lem (Served q) (not q.logger.halted) (process_messages ports fuel q) (service_halted, q)
      (λ going.
        let (follows, told) =
          process_messages_lem ports (state_of q.logger) q.calls fuel q begin
            (not-true q.logger.halted going) in
        record { follows = follows; told = told })
      (λ stays. record { follows = begin; told = not_false q.logger.halted stays })
  where
    not_false : (b : Bool) → not b ≡ false → true ≡ b
    not_false true e = refl
    not_false false e = absurd (false≢true (sym e))
