-- ===== src/Service/Report.antt =====
-- The policy at a full buffer, the walk over the pending events and the reads of the buffer follow
-- the protocol.
use solid_syslog.Base.{
  if_lem, and_true, not-true, ℕ, zero, suc, ◌+◌, Bool, true, false, not, ◌&&◌, List, ◌∷◌, Option,
  none, some, Bytes, if◌then◌else◌, ◌≡◌, refl, sym, subst, ◌∙◌,
}
use mathlib.Core.Bool.{false≢true}
use solid_syslog.CircularBuffer.{DiscardPolicy, oldest, newest, halt}
use solid_syslog.Service.{
  Call, buffer_is_full, ask_policy, ask_switch, make_report, read_buffer, Pass, Ports, is_some,
  read_into, halt_logger, drop_held_record, apply_policy,
  apply_policy_to_held_record_if_buffer_full, hold_next_record, deal_with_held_record,
  hold_pending_report, report_if_pending, report_loop, report_pending_events, kind_count,
}
use solid_syslog.Service.Protocol.{
  held, crowded, State, buffer_full, policy_drops, policy_spares_report, policy_keeps, policy_halts,
  halts_full, drops, switched, made, took, found_none, Reached, step, slot_of,
}
use solid_syslog.Service.Offer.{At}
use solid_syslog.Service.Deal.{Here, holding, freed, deal_with_held_record_lem}

module _ {W E : Type 0} (ports : Ports W E) (start : State) (before : List Call) where
  -- where the buffer is full behind the held record, the policy is asked
  apply_policy_lem :
      (policy : DiscardPolicy) (b : Bool) (p : Pass W) (w : W)
      → p.logger.held_record_is_report ≡ b
      → p.logger.halted ≡ false
      → p.logger.holds_record ≡ true
      → At ports start before p.calls
          (crowded b p.logger.slot)
          false
          p.logger.held_record_loss_reported
      → Here ports start before
          (apply_policy ports policy (record p { world = w; calls = ask_policy policy ∷ p.calls }))
  unfolding drop_held_record halt_logger
  apply_policy_lem oldest true p w e on holds at =
      let r = p.logger.slot in
      let l = p.logger.held_record_loss_reported in
      rw (e, holds, on) (step at (policy_spares_report r l))
  apply_policy_lem oldest false p w e on holds at =
      let r = p.logger.slot in
      let l = p.logger.held_record_loss_reported in
      rw (e, on) (step (step at (policy_drops r l)) (drops r l))
  apply_policy_lem newest b p w e on holds at =
      rw (e, holds, on) (step at (policy_keeps b p.logger.slot p.logger.held_record_loss_reported))
  apply_policy_lem halt b p w e on holds at =
      let r = p.logger.slot in
      let l = p.logger.held_record_loss_reported in
      rw (e, holds) (step (step at (policy_halts b r l)) (halts_full b r l))

  pub apply_policy_to_held_record_if_buffer_full_lem :
      (p : Pass W)
      → Here ports start before p
      → p.logger.halted ≡ false
      → Here ports start before (apply_policy_to_held_record_if_buffer_full ports p)
  unfolding apply_policy_to_held_record_if_buffer_full
  apply_policy_to_held_record_if_buffer_full_lem p here on =
      let b = p.logger.held_record_is_report in
      let full = ports.is_full p.world in
      let policy = ports.policy full.1 in
      let p1 : Pass W = record p { world = full.1; calls = buffer_is_full full.0 ∷ p.calls } in
      let p2 : Pass W = record p1 { world = policy.1; calls = ask_policy policy.0 ∷ p1.calls } in
      if_lem (Here ports start before) p.logger.holds_record
        (if full.0 then apply_policy ports policy.0 p2 else p1) p
        (λ holds.
          let at =
            step (holding ports start before p here on holds)
              (buffer_full b p.logger.slot p.logger.held_record_loss_reported full.0) in
          if_lem (Here ports start before) full.0 (apply_policy ports policy.0 p2) p1
            (λ e. apply_policy_lem policy.0 b p1 policy.1 refl on holds (subst Fullness e at))
            (λ e. rw (holds, on) (subst Fullness e at)))
        (λ e. here)
    where
      Fullness : Bool → Type 0
      Fullness full =
          At ports start before (buffer_is_full (ports.is_full p.world).0 ∷ p.calls)
            (if full
              then crowded p.logger.held_record_is_report p.logger.slot
              else held p.logger.held_record_is_report p.logger.slot)
            false p.logger.held_record_loss_reported

  pub hold_next_record_lem :
      (p : Pass W)
      → Here ports start before p
      → p.logger.halted ≡ false
      → p.logger.holds_record ≡ false
      → let a = hold_next_record ports p in
        Here ports start before a.1 × (a.1.logger.halted ≡ false)
  unfolding hold_next_record
  hold_next_record_lem p here on nothing =
      (reads (ports.read p.logger.record_capacity p.world).0, on)
    where
      reads :
          (found : Option Bytes)
          → Reached start before (read_buffer found ∷ p.calls) (record {
            slot = slot_of (is_some found) false (read_into found);
            halted = p.logger.halted;
            loss_reported = p.logger.held_record_loss_reported;
          })
      reads none = rw on (
          step (freed ports start before p here on nothing)
            (found_none p.logger.held_record_loss_reported))
      reads (some r) = rw on (
          step (freed ports start before p here on nothing)
            (took r p.logger.held_record_loss_reported))

  pub hold_pending_report_lem :
      (p : Pass W) (index : ℕ)
      → Here ports start before p
      → p.logger.halted ≡ false
      → p.logger.holds_record ≡ false
      → let q = hold_pending_report ports p index in
        Here ports start before q × (q.logger.halted ≡ false)
  unfolding hold_pending_report
  hold_pending_report_lem p index here on nothing = (makes (ports.take index p.world).0.0, on)
    where
      text : Bytes
      text =
          (ports.format p.logger.record_capacity (ports.take index p.world).0.1
            (ports.take index p.world).1).0

      makes :
          (taken : Bool)
          → Reached start before (if taken then make_report text ∷ p.calls else p.calls) (record {
            slot = slot_of taken taken text;
            halted = p.logger.halted;
            loss_reported = p.logger.held_record_loss_reported;
          })
      makes true = rw on (
          step (freed ports start before p here on nothing)
            (made text p.logger.held_record_loss_reported))
      makes false = rw on (freed ports start before p here on nothing)

  -- a walk that goes on leaves the slot free and the logger going
  abbrev pub Walks : Bool × Pass W → Type 0
  Walks a =
      Here ports start before a.1
      × (a.0 ≡ true → (a.1.logger.halted ≡ false) × (a.1.logger.holds_record ≡ false))

  report_if_pending_lem :
      (p : Pass W) (index : ℕ)
      → Here ports start before p
      → p.logger.halted ≡ false
      → p.logger.holds_record ≡ false
      → Walks (report_if_pending ports p index)
  unfolding report_if_pending
  report_if_pending_lem p index here on nothing =
      if_lem Walks waits.0
        (if answer.0 then (dealt.0 && not dealt.1.logger.halted, dealt.1) else (false, asked))
        (true, record p { world = waits.1 })
        (λ e.
          if_lem Walks answer.0 (dealt.0 && not dealt.1.logger.halted, dealt.1) (false, asked)
            (λ e. reports) (λ e. (asked_here, λ d. absurd (false≢true d))))
        (λ e. (here, λ d. (on, nothing)))
    where
      waits : Bool × W
      waits = ports.pending index p.world

      answer : Bool × W
      answer = ports.reporting_on waits.1

      asked : Pass W
      asked = record {
        logger = record p.logger { report_turned_down = not answer.0 };
        world = answer.1;
        calls = ask_switch answer.0 ∷ p.calls;
      }

      dealt : Bool × Pass W
      dealt = deal_with_held_record ports (hold_pending_report ports asked index)

      asked_here : Here ports start before asked
      asked_here =
          rw (nothing, on)
            (step (freed ports start before p here on nothing)
              (switched p.logger.held_record_loss_reported answer.0))

      reports : Walks (dealt.0 && not dealt.1.logger.halted, dealt.1)
      reports =
          let (made_here, still_on) = hold_pending_report_lem asked index asked_here on nothing in
          let (there, shown) =
            deal_with_held_record_lem ports start before (hold_pending_report ports asked index)
              made_here still_on in
          (
            there,
            λ e.
                let (all_dealt, going) = and_true dealt.0 (not dealt.1.logger.halted) e in
                (
                  not-true dealt.1.logger.halted going,
                  not-true dealt.1.logger.holds_record (sym shown ∙ all_dealt),
                ),
          )

  report_loop_lem :
      (left index : ℕ) (walking : Bool) (p : Pass W)
      → Walks (walking, p)
      → Here ports start before (report_loop ports left index walking p)
  unfolding report_loop
  report_loop_lem zero index walking p (here, goes_on) = here
  report_loop_lem (suc left) index walking p (here, goes_on) =
      let a = report_if_pending ports p index in
      if_lem (Here ports start before) walking (report_loop ports left (index + 1) a.0 a.1) p
        (λ e.
          let (on, nothing) = goes_on e in
          report_loop_lem left (index + 1) a.0 a.1 (report_if_pending_lem p index here on nothing))
        (λ e. here)

  pub report_pending_events_lem :
      (p : Pass W)
      → Here ports start before p
      → p.logger.halted ≡ false
      → p.logger.holds_record ≡ false
      → let a = report_pending_events ports p in
        Here ports start before a.1 × (a.0 ≡ not a.1.logger.holds_record)
  unfolding report_pending_events
  report_pending_events_lem p here on nothing =
      (report_loop_lem kind_count 0 p.logger.has_slot p (here, λ e. (on, nothing)), refl)
