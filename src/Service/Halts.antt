-- ===== src/Service/Halts.antt =====
-- A halt ends the pass: the logger makes no call after it.
use solid_syslog.Base.{
  inl, inr, Bool-cases, ℕ, suc, ◌+◌, true, false, List, [], ◌∷◌, if◌then◌else◌, ◌≡◌, refl, ap, sym,
  ◌∙◌, arith,
}
use mathlib.Core.Bool.{false≢true}
use solid_syslog.Service.{
  Detail, Call, buffer_is_full, ask_policy, drop_held, halt_at, ask_switch, make_report,
  read_buffer, write_store, is_transient, send_held, read_next_unsent, send_stored, mark_sent,
  has_unsent, Pass, Ports, resume_if_policy_changed, service_logger,
}
use solid_syslog.Service.Protocol.{
  State, Step, buffer_full, policy_drops, policy_spares_report, policy_keeps, policy_halts,
  halts_full, drops, switched, made, took, found_none, store_kept, store_lost, store_not_retained,
  store_answers, refusal_asks, refusal_halts, halts_refused, sender_answers, store_hands_out,
  store_hands_out_none, sender_answers_stored, marks, asks_unsent_free, asks_unsent_held, Reached,
  begin, step, state_of,
}
use solid_syslog.Service.Whole.{service_logger-Served}

-- how often the calls halt the logger
abbrev pub halts : List Call → ℕ
halts [] = 0
halts (halt_at at ∷ cs) = suc (halts cs)
halts (c ∷ cs) = halts cs

-- No step leaves a halted state.
Step-going : {s t : State} {c : Call} → Step s c t → s.halted ≡ false
Step-going (buffer_full b r l answer) = refl
Step-going (policy_drops r l) = refl
Step-going (policy_spares_report r l) = refl
Step-going (policy_keeps b r l) = refl
Step-going (policy_halts b r l) = refl
Step-going (halts_full b r l) = refl
Step-going (drops r l) = refl
Step-going (switched l answer) = refl
Step-going (made r l) = refl
Step-going (took r l) = refl
Step-going (found_none l) = refl
Step-going (store_kept b r l) = refl
Step-going (store_lost b r l) = refl
Step-going (store_not_retained b r l) = refl
Step-going (store_answers b r l transient) = refl
Step-going (refusal_asks b r l policy e) = refl
Step-going (refusal_halts b r l policy e) = refl
Step-going (halts_refused b r l) = refl
Step-going (sender_answers b r l taken) = refl
Step-going (store_hands_out r l) = refl
Step-going (store_hands_out_none l) = refl
Step-going (sender_answers_stored r l taken) = refl
Step-going (marks l) = refl
Step-going (asks_unsent_free l answer) = refl
Step-going (asks_unsent_held b r l answer) = refl

-- A step is a halt exactly when it leads to a halted state.
Step-counts :
    {s t : State} {c : Call}
    → Step s c t
    → (cs : List Call) → halts (c ∷ cs) ≡ halts cs + (if t.halted then 1 else 0)
Step-counts (buffer_full b r l answer) cs = omega arith
Step-counts (policy_drops r l) cs = omega arith
Step-counts (policy_spares_report r l) cs = omega arith
Step-counts (policy_keeps b r l) cs = omega arith
Step-counts (policy_halts b r l) cs = omega arith
Step-counts (halts_full b r l) cs = omega arith
Step-counts (drops r l) cs = omega arith
Step-counts (switched l answer) cs = omega arith
Step-counts (made r l) cs = omega arith
Step-counts (took r l) cs = omega arith
Step-counts (found_none l) cs = omega arith
Step-counts (store_kept b r l) cs = omega arith
Step-counts (store_lost b r l) cs = omega arith
Step-counts (store_not_retained b r l) cs = omega arith
Step-counts (store_answers b r l transient) cs = omega arith
Step-counts (refusal_asks b r l policy e) cs = omega arith
Step-counts (refusal_halts b r l policy e) cs = omega arith
Step-counts (halts_refused b r l) cs = omega arith
Step-counts (sender_answers b r l taken) cs = omega arith
Step-counts (store_hands_out r l) cs = omega arith
Step-counts (store_hands_out_none l) cs = omega arith
Step-counts (sender_answers_stored r l taken) cs = omega arith
Step-counts (marks l) cs = omega arith
Step-counts (asks_unsent_free l answer) cs = omega arith
Step-counts (asks_unsent_held b r l answer) cs = omega arith

-- what a pass that began with `before` and made the calls `cs` does about a halt
record Counts (start : State) (before cs : List Call) (s : State) : Type 0 where
  -- a pass over a logger that stays halted makes no call
  stands : start.halted ≡ true → cs ≡ before
  -- another halts at most once, and is halted after it if it does
  once : start.halted ≡ false → halts cs ≡ halts before + (if s.halted then 1 else 0)
  -- and the halt is its last call
  last :
      start.halted ≡ false
      → s.halted ≡ true
      → (at : Detail) × (rest : List Call) × (cs ≡ halt_at at ∷ rest)

-- A call that counts is a halt.
counted :
    (c : Call) (cs : List Call) → halts (c ∷ cs) ≡ halts cs + 1 → (at : Detail) × (c ≡ halt_at at)
counted (halt_at at) cs e = (at, refl)
counted (buffer_is_full a) cs e = absurd (omega arith)
counted (ask_policy a) cs e = absurd (omega arith)
counted (drop_held r a) cs e = absurd (omega arith)
counted (ask_switch a) cs e = absurd (omega arith)
counted (make_report r) cs e = absurd (omega arith)
counted (write_store b r a) cs e = absurd (omega arith)
counted (is_transient b r a) cs e = absurd (omega arith)
counted (send_held b r a) cs e = absurd (omega arith)
counted (read_next_unsent a) cs e = absurd (omega arith)
counted (send_stored r a) cs e = absurd (omega arith)
counted mark_sent cs e = absurd (omega arith)
counted (has_unsent a) cs e = absurd (omega arith)
counted (read_buffer a) cs e = absurd (omega arith)

Step-last :
    {s t : State} {c : Call} → Step s c t → t.halted ≡ true → (at : Detail) × (c ≡ halt_at at)
Step-last {c = c} s e = counted c [] (Step-counts s [] ∙ rw e refl)

reached_lem :
    {start : State} {before cs : List Call} {s : State}
    → Reached start before cs s
    → Counts start before cs s
reached_lem begin = record {
  stands = λ e. refl;
  once = λ e. rw e (omega arith);
  last = λ e f. absurd (false≢true (sym e ∙ f));
}
reached_lem {s = s} (step {cs = cs} reached s') =
    let h = reached_lem reached in
    let going = Step-going s' in
    record {
      stands = λ e. absurd (false≢true (sym going ∙ still e reached));
      once = λ e.
          Step-counts s' cs
          ∙ ap (λ n. n + (if s.halted then 1 else 0)) (h.once e ∙ rw going (omega arith));
      last = λ e f. let (at, same) = Step-last s' f in (at, cs, ap (λ k. k ∷ cs) same);
    }
  where
    still :
        {start : State} {before cs : List Call} {m : State}
        → start.halted ≡ true
        → Reached start before cs m
        → m.halted ≡ true
    still e begin = e
    still e (step reached s) = absurd (false≢true (sym (Step-going s) ∙ still e reached))

-- The three ways of a pass that began with `before` and made the calls `cs`.
pub data HaltsLast (start : State) (before cs : List Call) (s : State) : Type 0 where
  -- the logger stays halted, and makes no call
  stays_halted : start.halted ≡ true → cs ≡ before → HaltsLast start before cs s
  -- it is not halted, and no call halted it
  goes_on :
      start.halted ≡ false
      → s.halted ≡ false
      → halts cs ≡ halts before
      → HaltsLast start before cs s
  -- its last call halts it, and none before that
  halts_at :
      start.halted ≡ false
      → s.halted ≡ true
      → (at : Detail) (rest : List Call) → cs ≡ halt_at at ∷ rest
      → halts rest ≡ halts before
      → HaltsLast start before cs s

counts_lem :
    {start : State} {before cs : List Call} {s : State}
    → Counts start before cs s
    → HaltsLast start before cs s
counts_lem {start} {before} {cs} {s} c = elim (Bool-cases start.halted) [
  | inl halted ↦ stays_halted halted (c.stands halted)
  | inr going ↦ elim (Bool-cases s.halted) [
    | inr still_going ↦ goes_on going still_going (c.once going ∙ rw still_going (omega arith))
    | inl stopped ↦
        let (at, rest, same) = c.last going stopped in
        let counted_once : halts cs ≡ halts before + 1 = c.once going ∙ rw stopped refl in
        halts_at going stopped at rest same (omega (arith, counted_once, ap halts same))
  ]
]

-- A pass over a logger that is still halted makes no call after asking the policy. Any other pass
-- halts at most once, is halted afterwards exactly if it did, and makes no call after the halt: it
-- writes, reads and sends nothing more.
pub service-HaltsLast :
    {W E : Type 0} (ports : Ports W E) (fuel : ℕ) (p : Pass W)
    → let q = resume_if_policy_changed ports p in
      let r = (service_logger ports fuel p).1 in
      HaltsLast (state_of q.logger) q.calls r.calls (state_of r.logger)
service-HaltsLast ports fuel p =
    counts_lem (reached_lem (service_logger-Served ports fuel p).follows)
