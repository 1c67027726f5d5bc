-- ===== src/Service/Protocol.antt =====
-- What a pass of Service promises its buffer, store and sender: the calls it makes, as the steps of
-- a machine whose state says where the one record of the slot stands.
use solid_syslog.Base.{Bool, true, false, not, List, ◌∷◌, none, some, Bytes, if◌then◌else◌, ◌≡◌}
use solid_syslog.CircularBuffer.{DiscardPolicy, oldest, newest, halt}
use solid_syslog.Service.{
  not_retained, kept, lost, halted_store_refused, halted_buffer_full, Call, buffer_is_full,
  ask_policy, drop_held, halt_at, ask_switch, make_report, read_buffer, write_store, is_transient,
  send_held, read_next_unsent, send_stored, mark_sent, has_unsent, Logger, is_halt,
}

-- Where the slot's record stands. The flag says whether it is a report.
pub data Slot : Type 0 where
  free : Slot
  held : Bool → Bytes → Slot
  -- held, with the buffer full behind it
  crowded : Bool → Bytes → Slot
  dropping : Bytes → Slot
  halting_full : Bool → Bytes → Slot
  -- not retained by the store, which is asked why
  asked : Bool → Bytes → Slot
  refused : Bool → Bytes → Slot
  halting_refused : Bool → Bytes → Slot
  -- for the sender
  unkept : Bool → Bytes → Slot
  -- the store's, on its way to the sender
  handed_out : Bytes → Slot
  sent : Slot

pub record State : Type 0 where
  pub slot : Slot
  pub halted : Bool
  pub loss_reported : Bool

-- what becomes of a record that the store refused or lost: only a report is kept for the sender
abbrev pub unless_report : Bool → Bytes → Slot → Slot
unless_report report r other = if report then other else free

-- A record from the buffer that is dealt with ends the run of drops.
abbrev pub ends_run : Bool → Bool → Bool → Bool
ends_run true false l = false
ends_run true true l = l
ends_run false b l = l

-- The steps. No step leaves a halted state: a halt is the end of a pass.
pub data Step : State → Call → State → Type 0 where
  buffer_full :
      (b : Bool) (r : Bytes) (l answer : Bool)
      → Step
          (record { slot = held b r; halted = false; loss_reported = l })
          (buffer_is_full answer)
          (record {
            slot = if answer then crowded b r else held b r;
            halted = false;
            loss_reported = l;
          })
  policy_drops :
      (r : Bytes) (l : Bool)
      → Step
          (record { slot = crowded false r; halted = false; loss_reported = l })
          (ask_policy oldest)
          (record { slot = dropping r; halted = false; loss_reported = l })
  policy_spares_report :
      (r : Bytes) (l : Bool)
      → Step
          (record { slot = crowded true r; halted = false; loss_reported = l })
          (ask_policy oldest)
          (record { slot = held true r; halted = false; loss_reported = l })
  policy_keeps :
      (b : Bool) (r : Bytes) (l : Bool)
      → Step
          (record { slot = crowded b r; halted = false; loss_reported = l })
          (ask_policy newest)
          (record { slot = held b r; halted = false; loss_reported = l })
  policy_halts :
      (b : Bool) (r : Bytes) (l : Bool)
      → Step
          (record { slot = crowded b r; halted = false; loss_reported = l })
          (ask_policy halt)
          (record { slot = halting_full b r; halted = false; loss_reported = l })
  halts_full :
      (b : Bool) (r : Bytes) (l : Bool)
      → Step
          (record { slot = halting_full b r; halted = false; loss_reported = l })
          (halt_at halted_buffer_full)
          (record { slot = held b r; halted = true; loss_reported = l })
  -- the first drop of a run is reported
  drops :
      (r : Bytes) (l : Bool)
      → Step
          (record { slot = dropping r; halted = false; loss_reported = l })
          (drop_held r (not l))
          (record { slot = free; halted = false; loss_reported = true })
  switched :
      (l answer : Bool)
      → Step
          (record { slot = free; halted = false; loss_reported = l })
          (ask_switch answer)
          (record { slot = free; halted = false; loss_reported = l })
  made :
      (r : Bytes) (l : Bool)
      → Step
          (record { slot = free; halted = false; loss_reported = l })
          (make_report r)
          (record { slot = held true r; halted = false; loss_reported = l })
  took :
      (r : Bytes) (l : Bool)
      → Step
          (record { slot = free; halted = false; loss_reported = l })
          (read_buffer (some r))
          (record { slot = held false r; halted = false; loss_reported = l })
  found_none :
      (l : Bool)
      → Step
          (record { slot = free; halted = false; loss_reported = l })
          (read_buffer none)
          (record { slot = free; halted = false; loss_reported = l })
  store_kept :
      (b : Bool) (r : Bytes) (l : Bool)
      → Step
          (record { slot = held b r; halted = false; loss_reported = l })
          (write_store b r kept)
          (record { slot = free; halted = false; loss_reported = ends_run true b l })
  store_lost :
      (b : Bool) (r : Bytes) (l : Bool)
      → Step
          (record { slot = held b r; halted = false; loss_reported = l })
          (write_store b r lost)
          (record {
            slot = unless_report b r (unkept b r);
            halted = false;
            loss_reported = ends_run (not b) b l;
          })
  store_not_retained :
      (b : Bool) (r : Bytes) (l : Bool)
      → Step
          (record { slot = held b r; halted = false; loss_reported = l })
          (write_store b r not_retained)
          (record { slot = asked b r; halted = false; loss_reported = l })
  store_answers :
      (b : Bool) (r : Bytes) (l transient : Bool)
      → Step
          (record { slot = asked b r; halted = false; loss_reported = l })
          (is_transient b r transient)
          (record {
            slot = if transient then unkept b r else refused b r;
            halted = false;
            loss_reported = l;
          })
  refusal_asks :
      (b : Bool) (r : Bytes) (l : Bool) (policy : DiscardPolicy)
      → is_halt policy ≡ false
      → Step
          (record { slot = refused b r; halted = false; loss_reported = l })
          (ask_policy policy)
          (record {
            slot = unless_report b r (unkept b r);
            halted = false;
            loss_reported = ends_run (not b) b l;
          })
  refusal_halts :
      (b : Bool) (r : Bytes) (l : Bool) (policy : DiscardPolicy)
      → is_halt policy ≡ true
      → Step
          (record { slot = refused b r; halted = false; loss_reported = l })
          (ask_policy policy)
          (record { slot = halting_refused b r; halted = false; loss_reported = l })
  halts_refused :
      (b : Bool) (r : Bytes) (l : Bool)
      → Step
          (record { slot = halting_refused b r; halted = false; loss_reported = l })
          (halt_at halted_store_refused)
          (record {
            slot = unless_report b r (held b r);
            halted = true;
            loss_reported = ends_run (not b) b l;
          })
  sender_answers :
      (b : Bool) (r : Bytes) (l taken : Bool)
      → Step
          (record { slot = unkept b r; halted = false; loss_reported = l })
          (send_held b r taken)
          (record {
            slot = if taken then free else held b r;
            halted = false;
            loss_reported = ends_run taken b l;
          })
  store_hands_out :
      (r : Bytes) (l : Bool)
      → Step
          (record { slot = free; halted = false; loss_reported = l })
          (read_next_unsent (some r))
          (record { slot = handed_out r; halted = false; loss_reported = l })
  store_hands_out_none :
      (l : Bool)
      → Step
          (record { slot = free; halted = false; loss_reported = l })
          (read_next_unsent none)
          (record { slot = free; halted = false; loss_reported = l })
  sender_answers_stored :
      (r : Bytes) (l taken : Bool)
      → Step
          (record { slot = handed_out r; halted = false; loss_reported = l })
          (send_stored r taken)
          (record { slot = if taken then sent else free; halted = false; loss_reported = l })
  marks :
      (l : Bool)
      → Step
          (record { slot = sent; halted = false; loss_reported = l })
          mark_sent
          (record { slot = free; halted = false; loss_reported = l })
  asks_unsent_free :
      (l answer : Bool)
      → Step
          (record { slot = free; halted = false; loss_reported = l })
          (has_unsent answer)
          (record { slot = free; halted = false; loss_reported = l })
  asks_unsent_held :
      (b : Bool) (r : Bytes) (l answer : Bool)
      → Step
          (record { slot = held b r; halted = false; loss_reported = l })
          (has_unsent answer)
          (record { slot = held b r; halted = false; loss_reported = l })

-- The calls `cs`, the last one first, lead from a state with the calls `before` to a state.
pub data Reached (start : State) (before : List Call) : List Call → State → Type 0 where
  begin : Reached start before before start
  step :
      {cs : List Call} {s : State} {c : Call} {t : State}
      → Reached start before cs s
      → Step s c t
      → Reached start before (c ∷ cs) t

-- the logger's state between operations
abbrev pub slot_of : Bool → Bool → Bytes → Slot
slot_of holds report r = if holds then held report r else free

abbrev pub state_of : Logger → State
state_of logger = record {
  slot = slot_of logger.holds_record logger.held_record_is_report logger.slot;
  halted = logger.halted;
  loss_reported = logger.held_record_loss_reported;
}
