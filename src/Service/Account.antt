-- ===== src/Service/Account.antt =====
-- No record is lost without account: what a pass of Service took from the buffer, and what became of
-- it.
use solid_syslog.Base.{
  if_lem, ℕ, true, false, List, [], ◌∷◌, ◌++◌, some, Bytes, if◌then◌else◌, ◌≡◌, ap, append-nil,
}
use solid_syslog.Service.{
  kept, lost, Call, ask_policy, drop_held, read_buffer, write_store, is_transient, send_held, Pass,
  Ports, resume_if_policy_changed, service_logger, is_halt,
}
use solid_syslog.Service.Protocol.{
  Slot, free, held, crowded, dropping, halting_full, asked, refused, halting_refused, unkept,
  handed_out, sent, State, Step, buffer_full, policy_drops, policy_spares_report, policy_keeps,
  policy_halts, halts_full, drops, switched, made, took, found_none, store_kept, store_lost,
  store_not_retained, store_answers, refusal_asks, refusal_halts, halts_refused, sender_answers,
  store_hands_out, store_hands_out_none, sender_answers_stored, marks, asks_unsent_free,
  asks_unsent_held, Reached, begin, step, state_of,
}
use solid_syslog.Service.Whole.{service_logger-Served}

-- what becomes of a record from the buffer
pub data Fate : Type 0 where
  kept_by_store lost_by_store refused_by_store taken_by_sender dropped : Fate

-- the records taken from the buffer, the last one first
abbrev pub reads : List Call → List Bytes
reads [] = []
reads (read_buffer (some r) ∷ cs) = r ∷ reads cs
reads (c ∷ cs) = reads cs

-- the records from the buffer whose fate the calls decide, the last one first
abbrev pub settled : List Call → List (Bytes × Fate)
settled [] = []
settled (write_store false r kept ∷ cs) = (r, kept_by_store) ∷ settled cs
settled (write_store false r lost ∷ cs) = (r, lost_by_store) ∷ settled cs
settled (is_transient false r false ∷ cs) = (r, refused_by_store) ∷ settled cs
settled (send_held false r true ∷ cs) = (r, taken_by_sender) ∷ settled cs
settled (drop_held r reported ∷ cs) = (r, dropped) ∷ settled cs
settled (c ∷ cs) = settled cs

abbrev pub records : List (Bytes × Fate) → List Bytes
records [] = []
records ((r, fate) ∷ rest) = r ∷ records rest

-- the record from the buffer that waits in the slot
abbrev pub waiting : Slot → List Bytes
waiting free = []
waiting (held b r) = if b then [] else r ∷ []
waiting (crowded b r) = if b then [] else r ∷ []
waiting (dropping r) = r ∷ []
waiting (halting_full b r) = if b then [] else r ∷ []
waiting (asked b r) = if b then [] else r ∷ []
waiting (refused b r) = []
waiting (halting_refused b r) = []
waiting (unkept b r) = if b then [] else r ∷ []
waiting (handed_out r) = []
waiting sent = []

-- All records taken are settled, in their order, but for the one that waits.
abbrev Accounted : List Bytes → List Call → State → Type 0
Accounted first cs s = waiting s.slot ++ records (settled cs) ≡ reads cs ++ first

Step-accounts :
    (first : List Bytes) (cs : List Call) {s t : State} {c : Call}
    → Step s c t
    → Accounted first cs s
    → Accounted first (c ∷ cs) t
Step-accounts first cs (buffer_full b r l true) h = h
Step-accounts first cs (buffer_full b r l false) h = h
Step-accounts first cs (policy_drops r l) h = h
Step-accounts first cs (policy_spares_report r l) h = h
Step-accounts first cs (policy_keeps b r l) h = h
Step-accounts first cs (policy_halts b r l) h = h
Step-accounts first cs (halts_full b r l) h = h
Step-accounts first cs (drops r l) h = h
Step-accounts first cs (switched l answer) h = h
Step-accounts first cs (made r l) h = h
Step-accounts first cs (took r l) h = ap (◌∷◌ r) h
Step-accounts first cs (found_none l) h = h
Step-accounts first cs (store_kept true r l) h = h
Step-accounts first cs (store_kept false r l) h = h
Step-accounts first cs (store_lost true r l) h = h
Step-accounts first cs (store_lost false r l) h = h
Step-accounts first cs (store_not_retained true r l) h = h
Step-accounts first cs (store_not_retained false r l) h = h
Step-accounts first cs (store_answers true r l true) h = h
Step-accounts first cs (store_answers true r l false) h = h
Step-accounts first cs (store_answers false r l true) h = h
Step-accounts first cs (store_answers false r l false) h = h
Step-accounts first cs (refusal_asks true r l policy e) h = h
Step-accounts first cs (refusal_asks false r l policy e) h = h
Step-accounts first cs (refusal_halts b r l policy e) h = h
Step-accounts first cs (halts_refused true r l) h = h
Step-accounts first cs (halts_refused false r l) h = h
Step-accounts first cs (sender_answers true r l true) h = h
Step-accounts first cs (sender_answers true r l false) h = h
Step-accounts first cs (sender_answers false r l true) h = h
Step-accounts first cs (sender_answers false r l false) h = h
Step-accounts first cs (store_hands_out r l) h = h
Step-accounts first cs (store_hands_out_none l) h = h
Step-accounts first cs (sender_answers_stored r l true) h = h
Step-accounts first cs (sender_answers_stored r l false) h = h
Step-accounts first cs (marks l) h = h
Step-accounts first cs (asks_unsent_free l answer) h = h
Step-accounts first cs (asks_unsent_held b r l answer) h = h

-- the protocol keeps account
Reached-accounts :
    (first : List Bytes) {start : State} {before cs : List Call} {s : State}
    → Reached start before cs s
    → Accounted first before start
    → Accounted first cs s
Reached-accounts first begin h = h
Reached-accounts first (step {cs = cs} reached s) h =
    Step-accounts first cs s (Reached-accounts first reached h)

-- From an empty log and with any fuel, the records that a pass took from the buffer, behind the record that
-- waited in the slot before, are the records whose fate its calls decided, and the one that waits
-- in the slot now: each once and in the order in which they were taken. A fate is one of: kept by
-- the store, reported lost by the store, refused by its discard policy, taken by the sender, or
-- dropped from the slot under the policy.
pub service_accounts :
    {W E : Type 0} (ports : Ports W E) (fuel : ℕ) (p : Pass W)
    → p.calls ≡ []
    → let r = (service_logger ports fuel p).1 in
      waiting (state_of r.logger).slot ++ records (settled r.calls)
      ≡ reads r.calls ++ waiting (state_of p.logger).slot
unfolding resume_if_policy_changed
service_accounts ports fuel p nothing =
    let first = waiting (state_of p.logger).slot in
    let policy = ports.policy p.world in
    let at_start : first ++ records (settled p.calls) ≡ reads p.calls ++ first =
      rw nothing (append-nil first) in
    Reached-accounts first (service_logger-Served ports fuel p).follows (
      if_lem (λ (q : Pass _). Accounted first q.calls (state_of q.logger)) p.logger.halted
        (record {
          logger = record p.logger { halted = is_halt policy.0 };
          world = policy.1;
          calls = ask_policy policy.0 ∷ p.calls;
        })
        p (λ e. at_start) (λ e. at_start))
