-- ===== src/Service/Ends.antt =====
-- The drain of the buffer ends by itself: which fuel is enough.
use solid_syslog.Base.{
  branch_eq, branch_eq_on, if_lem, ℕ, zero, suc, ◌≤◌, ◌<◌, Bool, true, false, not, ◌&&◌, ◌∷◌, Bytes,
  if◌then◌else◌, ◌≡◌, arith,
}
use solid_syslog.Service.{
  StoreWriteResult, not_retained, kept, lost, Detail, Pass, Ports, is_some, is_halt, write_store,
  is_transient, send_held, halted_store_refused, ask_policy, log, halt_logger, halt_if_policy_halts,
  judge_write, store_deals_with_held_record, store_or_sender_takes_held_record, note_taken,
  deal_with_held_record, hold_next_record, drain_loop,
}

-- The buffer holds `stock` records, a read that finds one takes one, and nothing that the drain
-- calls puts one in: no callback and no handler logs.
pub record Drains {W E : Type 0} (ports : Ports W E) (stock : W → ℕ) : Type 0 where
  pub read_takes :
      (capacity : ℕ) (w : W)
      → is_some (ports.read capacity w).0 ≡ true
      → stock (ports.read capacity w).1 < stock w
  pub write_quiet : (r : Bytes) (w : W) → stock (ports.write r w).1 ≤ stock w
  pub transient_quiet : (w : W) → stock (ports.transient w).1 ≤ stock w
  pub policy_quiet : (w : W) → stock (ports.policy w).1 ≤ stock w
  pub send_quiet : (r : Bytes) (w : W) → stock (ports.send r w).1 ≤ stock w
  pub halt_quiet : (at : Detail) (w : W) → stock (ports.on_halt (ports.report at w)) ≤ stock w

module _ {W E : Type 0} (ports : Ports W E) (stock : W → ℕ) (drains : Drains ports stock) where
  -- the buffer holds no more than before
  abbrev AtMost : ℕ → Pass W → Type 0
  AtMost n p = stock p.world ≤ n

  abbrev AtMostPair : ℕ → Bool × Pass W → Type 0
  AtMostPair n a = stock a.1.world ≤ n

  halt_if_policy_halts-AtMost : (p : Pass W) → AtMost (stock p.world) (halt_if_policy_halts ports p)
  unfolding halt_if_policy_halts halt_logger
  halt_if_policy_halts-AtMost p =
      let policy = ports.policy p.world in
      let asked : Pass W = record p { world = policy.1; calls = ask_policy policy.0 ∷ p.calls } in
      let quiet = drains.policy_quiet p.world in
      if_lem (AtMost (stock p.world)) (is_halt policy.0)
        (halt_logger ports asked halted_store_refused) asked
        (λ e. omega (arith, drains.halt_quiet halted_store_refused policy.1)) (λ e. quiet)

  judge_write-AtMost :
      (result : StoreWriteResult) (p : Pass W)
      → AtMostPair (stock p.world) (judge_write ports result p)
  judge_write-AtMost kept p = omega arith
  judge_write-AtMost lost p = omega arith
  judge_write-AtMost not_retained p =
      let answer = ports.transient p.world in
      let asked : Pass W = record p {
        world = answer.1;
        calls = is_transient p.logger.held_record_is_report p.logger.slot answer.0 ∷ p.calls;
      } in
      let quiet = drains.transient_quiet p.world in
      if_lem (AtMost (stock p.world)) (not answer.0) (halt_if_policy_halts ports asked) asked
        (λ e. omega (arith, halt_if_policy_halts-AtMost asked)) (λ e. quiet)

  store_deals_with_held_record-AtMost :
      (p : Pass W) → AtMostPair (stock p.world) (store_deals_with_held_record ports p)
  unfolding store_deals_with_held_record
  store_deals_with_held_record-AtMost p =
      let a = ports.write p.logger.slot p.world in
      let p1 : Pass W = record p {
        world = a.1;
        calls = write_store p.logger.held_record_is_report p.logger.slot a.0 ∷ p.calls;
      } in
      omega (arith, drains.write_quiet p.logger.slot p.world, judge_write-AtMost a.0 p1)

  deal_with_held_record-AtMost :
      (p : Pass W) → AtMostPair (stock p.world) (deal_with_held_record ports p)
  unfolding deal_with_held_record store_or_sender_takes_held_record
  deal_with_held_record-AtMost p =
      let d = store_deals_with_held_record ports p in
      let at_most = store_deals_with_held_record-AtMost p in
      let sent =
        log ports d.1 (send_held d.1.logger.held_record_is_report d.1.logger.slot)
          (ports.send d.1.logger.slot d.1.world) in
      let taken =
        if d.0 then (true, d.1) else if not d.1.logger.halted then sent else (false, d.1) in
      let offered : AtMostPair (stock p.world) taken =
        if_lem (AtMostPair (stock p.world)) d.0 (true, d.1)
          (if not d.1.logger.halted then sent else (false, d.1)) (λ e. at_most)
          (λ e.
            if_lem (AtMostPair (stock p.world)) (not d.1.logger.halted) sent (false, d.1)
              (λ e. omega (arith, at_most, drains.send_quiet d.1.logger.slot d.1.world))
              (λ e. at_most)) in
      if_lem (AtMost (stock p.world)) p.logger.holds_record (note_taken ports taken.0 taken.1) p
        (λ e. offered) (λ e. omega arith)

  -- If the buffer has a stock of which every read that finds a record takes some, and to which nothing
  -- that the drain calls adds, then more fuel than the stock changes nothing: the loop has ended by
  -- its test.
  pub drain_loop_ends :
      (a b : ℕ) (dealt_with drained : Bool) (p : Pass W)
      → stock p.world < a
      → stock p.world < b
      → drain_loop ports a dealt_with drained p ≡ drain_loop ports b dealt_with drained p
  unfolding drain_loop hold_next_record
  drain_loop_ends zero b dealt_with drained p h k = absurd (omega arith)
  drain_loop_ends (suc a) zero dealt_with drained p h k = absurd (omega arith)
  drain_loop_ends (suc a) (suc b) dealt_with drained p h k =
      let found = hold_next_record ports p in
      let d = deal_with_held_record ports found.1 in
      branch_eq (dealt_with && not p.logger.halted)
        (if found.0 then drain_loop ports a d.0 true d.1 else (drained, found.1))
        (if found.0 then drain_loop ports b d.0 true d.1 else (drained, found.1)) (drained, p)
        (branch_eq_on found.0 (drain_loop ports a d.0 true d.1) (drain_loop ports b d.0 true d.1)
          (drained, found.1)
          (λ took.
            let less = drains.read_takes p.logger.record_capacity p.world took in
            let at_most = deal_with_held_record-AtMost found.1 in
            drain_loop_ends a b d.0 true d.1 (omega arith) (omega arith)))
