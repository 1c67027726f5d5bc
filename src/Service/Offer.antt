-- ===== src/Service/Offer.antt =====
-- Offering the held record to the store follows the protocol.
use solid_syslog.Base.{
  Bool, true, false, not, List, ◌∷◌, Bytes, if◌then◌else◌, ◌≡◌, refl, ap, sym, subst, ◌∙◌,
  Bool-cases, inl, inr,
}
use solid_syslog.Service.{
  StoreWriteResult, not_retained, kept, lost, Call, write_store, is_transient, Logger, Pass, Ports,
  is_halt, halt_logger, halt_if_policy_halts, judge_write, store_deals_with_held_record,
}
use solid_syslog.Service.Protocol.{
  Slot, free, held, asked, refused, unkept, State, unless_report, ends_run, store_kept, store_lost,
  store_not_retained, store_answers, refusal_asks, refusal_halts, halts_refused, Reached, step,
}

-- the operation changed nothing of the logger but whether it is halted
abbrev pub Unmoved : Logger → Logger → Type 0
Unmoved before after = after ≡ record before { halted = after.halted }

-- where a record is that was offered to the store
abbrev pub dealt_slot : Bool → Bool → Bool → Bytes → Slot
dealt_slot dealt halted b r = if dealt then free else if halted then held b r else unkept b r

abbrev written_slot : StoreWriteResult → Bool → Bytes → Slot
written_slot kept b r = free
written_slot lost b r = unless_report b r (unkept b r)
written_slot not_retained b r = asked b r

abbrev written_run : StoreWriteResult → Bool → Bool → Bool
written_run kept b l = ends_run true b l
written_run lost b l = ends_run (not b) b l
written_run not_retained b l = l

module _ {W E : Type 0} (ports : Ports W E) (start : State) (before : List Call) where
  abbrev pub At : List Call → Slot → Bool → Bool → Type 0
  At cs s h l = Reached start before cs (record { slot = s; halted = h; loss_reported = l })

  halt_if_policy_halts_lem :
      (p : Pass W) (b : Bool) (r : Bytes) (l : Bool)
      → At p.calls (refused b r) false l
      → p.logger.halted ≡ false
      → let q = halt_if_policy_halts ports p in
        Unmoved p.logger q.logger
        × At q.calls
            (unless_report b r (if q.logger.halted then held b r else unkept b r))
            q.logger.halted
            (ends_run (not b) b l)
  unfolding halt_if_policy_halts halt_logger
  halt_if_policy_halts_lem p b r l at on =
      let policy = (ports.policy p.world).0 in
      elim (Bool-cases (is_halt policy)) [
        | inl halts ↦
            rw halts (refl, step (step at (refusal_halts b r l policy halts)) (halts_refused b r l))
        | inr goes_on ↦ rw goes_on (refl, rw on (step at (refusal_asks b r l policy goes_on)))
      ]

  -- what an offer to the store leaves, from the logger before it
  abbrev pub Judged : Bool → Bytes → Bool → Logger → Bool × Pass W → Type 0
  Judged b r l g a =
      Unmoved g a.1.logger
      × At a.1.calls (dealt_slot a.0 a.1.logger.halted b r) a.1.logger.halted (ends_run a.0 b l)

  -- a record that the store refused under its discard policy
  refused_lem :
      (b : Bool) (p : Pass W) (r : Bytes) (l : Bool)
      → p.logger.held_record_is_report ≡ b
      → At p.calls (refused b r) false l
      → p.logger.halted ≡ false
      → let q = halt_if_policy_halts ports p in
        Judged b r l p.logger (not q.logger.held_record_is_report, q)
  refused_lem true p r l e at on =
      let q = halt_if_policy_halts ports p in
      let (same, reached) = halt_if_policy_halts_lem p true r l at on in
      let report : q.logger.held_record_is_report ≡ true =
        ap (λ (g : Logger). g.held_record_is_report) same ∙ e in
      rw report (same, reached)
  refused_lem false p r l e at on =
      let q = halt_if_policy_halts ports p in
      let (same, reached) = halt_if_policy_halts_lem p false r l at on in
      let report : q.logger.held_record_is_report ≡ false =
        ap (λ (g : Logger). g.held_record_is_report) same ∙ e in
      rw report (same, reached)

  judge_write_lem :
      (result : StoreWriteResult) (b : Bool) (p : Pass W) (r : Bytes) (l : Bool)
      → p.logger.held_record_is_report ≡ b
      → p.logger.slot ≡ r
      → At p.calls (written_slot result b r) false (written_run result b l)
      → p.logger.halted ≡ false
      → Judged b r l p.logger (judge_write ports result p)
  judge_write_lem kept b p r l e same at on = (refl, rw on at)
  judge_write_lem lost true p r l e same at on = (refl, rw (e, on) at)
  judge_write_lem lost false p r l e same at on = (refl, rw (e, on) at)
  judge_write_lem not_retained b p r l e same at on =
      let answer = (ports.transient p.world).0 in
      let asked_step = step at (store_answers b r l answer) in
      elim (Bool-cases answer) [
        | inl transient ↦ rw (transient, e, same) (refl, rw on (rw transient at asked_step))
        | inr refuses ↦
            let p1 : Pass W = record p {
              world = (ports.transient p.world).1;
              calls = is_transient p.logger.held_record_is_report p.logger.slot false ∷ p.calls;
            } in
            rw refuses (refused_lem b p1 r l e (rw (e, same) (rw refuses at asked_step)) on)
      ]

  write_step :
      (result : StoreWriteResult) (b : Bool) (r : Bytes) (l : Bool) {cs : List Call}
      → At cs (held b r) false l
      → At (write_store b r result ∷ cs) (written_slot result b r) false (written_run result b l)
  write_step kept b r l at = step at (store_kept b r l)
  write_step lost b r l at = step at (store_lost b r l)
  write_step not_retained b r l at = step at (store_not_retained b r l)

  pub store_deals_with_held_record_lem :
      (p : Pass W) (b : Bool)
      → p.logger.held_record_is_report ≡ b
      → At p.calls (held b p.logger.slot) false p.logger.held_record_loss_reported
      → p.logger.halted ≡ false
      → Judged b p.logger.slot p.logger.held_record_loss_reported p.logger
          (store_deals_with_held_record ports p)
  unfolding store_deals_with_held_record
  store_deals_with_held_record_lem p b e at on =
      let r = p.logger.slot in
      let l = p.logger.held_record_loss_reported in
      let a = ports.write r p.world in
      let p1 : Pass W = record p {
        world = a.1;
        calls = write_store p.logger.held_record_is_report r a.0 ∷ p.calls;
      } in
      judge_write_lem a.0 b p1 r l e refl
        (subst
          (λ k.
            At (write_store k r a.0 ∷ p.calls) (written_slot a.0 b r) false (written_run a.0 b l))
          (sym e) (write_step a.0 b r l at))
        on
