-- ===== src/Service/Deal.antt =====
-- Handing the held record to the store and the sender follows the protocol.
use solid_syslog.Base.{
  if_yes, if_no, Bool, true, false, not, ◌&&◌, List, ◌∷◌, Bytes, if◌then◌else◌, ◌≡◌, refl, ap, sym,
  subst, ◌∙◌, Bool-cases, inl, inr,
}
use solid_syslog.Service.{
  Call, send_held, Logger, Pass, Ports, log, store_deals_with_held_record,
  store_or_sender_takes_held_record, note_taken, deal_with_held_record,
}
use solid_syslog.Service.Protocol.{
  free, held, unkept, State, ends_run, sender_answers, Reached, step, slot_of, state_of,
}
use solid_syslog.Service.Offer.{Unmoved, dealt_slot, At, Judged, store_deals_with_held_record_lem}

ends_run_lem : (taken b l : Bool) → (l && not (taken && not b)) ≡ ends_run taken b l
ends_run_lem true true true = refl
ends_run_lem true true false = refl
ends_run_lem true false true = refl
ends_run_lem true false false = refl
ends_run_lem false true true = refl
ends_run_lem false true false = refl
ends_run_lem false false true = refl
ends_run_lem false false false = refl

module _ {W E : Type 0} (ports : Ports W E) (start : State) (before : List Call) where
  -- what an offer to the store and the sender leaves
  abbrev Offered : Bool → Bytes → Bool → Logger → Bool × Pass W → Type 0
  Offered b r l g a =
      Unmoved g a.1.logger
      × At ports start before a.1.calls (if a.0 then free else held b r) a.1.logger.halted
          (ends_run a.0 b l)

  abbrev sent_to : Pass W → Bool × Pass W
  sent_to q =
      log ports q (send_held q.logger.held_record_is_report q.logger.slot)
        (ports.send q.logger.slot q.world)

  send_step :
      (b : Bool) (r : Bytes) (l h : Bool) {cs : List Call}
      → h ≡ false
      → At ports start before cs (dealt_slot false h b r) h l
      → (k : Bool) (s : Bytes) → k ≡ b
      → s ≡ r
      → (taken : Bool)
      → At ports start before
          (send_held k s taken ∷ cs)
          (if taken then free else held b r)
          h
          (ends_run taken b l)
  send_step b r l h on at k s e same taken =
      rw (e, same, on) (step (rw on at at) (sender_answers b r l taken))

  -- the sender's part
  offer_sender :
      (b l : Bool) (g : Logger) (dealt : Bool) (q : Pass W)
      → g.held_record_is_report ≡ b
      → Judged ports start before b g.slot l g (dealt, q)
      → Offered b g.slot l g
          (if dealt then (true, q) else if not q.logger.halted then sent_to q else (false, q))
  offer_sender b l g true q e judged = judged
  offer_sender b l g false q e (unmoved, at) = elim (Bool-cases q.logger.halted) [
    | inl halted ↦
        subst (Offered b g.slot l g) (sym (if_no (sent_to q) (false, q) (ap not halted)))
          (unmoved, stays halted at)
    | inr on ↦
        subst (Offered b g.slot l g) (sym (if_yes (sent_to q) (false, q) (ap not on)))
          (unmoved, goes on at)
  ]
    where
      stays :
          q.logger.halted ≡ true
          → At ports start before q.calls
              (dealt_slot false q.logger.halted b g.slot)
              q.logger.halted
              l
          → At ports start before q.calls (held b g.slot) q.logger.halted l
      stays halted at =
          subst (λ s. At ports start before q.calls s q.logger.halted l)
            (if_yes (held b g.slot) (unkept b g.slot) halted) at

      report : q.logger.held_record_is_report ≡ b
      report = ap (λ (h : Logger). h.held_record_is_report) unmoved ∙ e

      slot : q.logger.slot ≡ g.slot
      slot = ap (λ (h : Logger). h.slot) unmoved

      goes :
          q.logger.halted ≡ false
          → At ports start before q.calls
              (dealt_slot false q.logger.halted b g.slot)
              q.logger.halted
              l
          → At ports start before
              (sent_to q).1.calls
              (if (sent_to q).0 then free else held b g.slot)
              q.logger.halted
              (ends_run (sent_to q).0 b l)
      goes on at =
          send_step b g.slot l q.logger.halted on at q.logger.held_record_is_report q.logger.slot
            report slot (sent_to q).0

  store_or_sender_takes_held_record_lem :
      (p : Pass W) (b : Bool)
      → p.logger.held_record_is_report ≡ b
      → At ports start before p.calls
          (held b p.logger.slot)
          false
          p.logger.held_record_loss_reported
      → p.logger.halted ≡ false
      → Offered b p.logger.slot p.logger.held_record_loss_reported p.logger
          (store_or_sender_takes_held_record ports p)
  unfolding store_or_sender_takes_held_record
  store_or_sender_takes_held_record_lem p b e at on =
      let a = store_deals_with_held_record ports p in
      offer_sender b p.logger.held_record_loss_reported p.logger a.0 a.1 e
        (store_deals_with_held_record_lem ports start before p b e at on)

  -- The pass has come to where the logger says.
  abbrev pub Here : Pass W → Type 0
  Here p = Reached start before p.calls (state_of p.logger)

  note_state :
      (taken h b l : Bool) (r : Bytes) {cs : List Call}
      → At ports start before cs (if taken then free else held b r) h (ends_run taken b l)
      → At ports start before cs (slot_of (not taken) b r) h (l && not (taken && not b))
  note_state true h b l r at = rw (ends_run_lem true b l) at
  note_state false h b l r at = rw (ends_run_lem false b l) at

  noted :
      (g : Logger) (taken : Bool) (q : Pass W)
      → Offered g.held_record_is_report g.slot g.held_record_loss_reported g (taken, q)
      → Here (note_taken ports taken q)
  noted g taken q (unmoved, at) =
      subst (λ (h : Logger). Here (note_taken ports taken (record q { logger = h }))) (sym unmoved)
        (note_state taken q.logger.halted g.held_record_is_report g.held_record_loss_reported g.slot
          at)

  pub holding :
      (p : Pass W)
      → Here p
      → p.logger.halted ≡ false
      → p.logger.holds_record ≡ true
      → At ports start before p.calls
          (held p.logger.held_record_is_report p.logger.slot)
          false
          p.logger.held_record_loss_reported
  holding p here on holds = rw (holds, on) at here

  pub freed :
      (p : Pass W)
      → Here p
      → p.logger.halted ≡ false
      → p.logger.holds_record ≡ false
      → At ports start before p.calls free false p.logger.held_record_loss_reported
  freed p here on nothing = rw (nothing, on) at here

  -- what dealing with the held record leaves: the state the logger shows, and the slot free if it
  -- says so
  pub deal_with_held_record_lem :
      (p : Pass W)
      → Here p
      → p.logger.halted ≡ false
      → let a = deal_with_held_record ports p in Here a.1 × (a.0 ≡ not a.1.logger.holds_record)
  unfolding deal_with_held_record
  deal_with_held_record_lem p here on = (there, refl)
    where
      a : Bool × Pass W
      a = store_or_sender_takes_held_record ports p

      there : Here (if p.logger.holds_record then note_taken ports a.0 a.1 else p)
      there = elim (Bool-cases p.logger.holds_record) [
        | inr nothing ↦ subst Here (sym (if_no (note_taken ports a.0 a.1) p nothing)) here
        | inl holds ↦ subst Here (sym (if_yes (note_taken ports a.0 a.1) p holds)) (
            noted p.logger a.0 a.1 (
              store_or_sender_takes_held_record_lem p p.logger.held_record_is_report refl
                (holding p here on holds) on))
      ]
