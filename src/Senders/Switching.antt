-- ===== src/Senders/Switching.antt =====
-- Core/Source/SolidSyslogSwitchingSender.c: one of several senders, as a selector callback says. The
-- selector, the inner senders and the error handler are the ports below, over a state of the world;
-- an operation logs its calls, the last one first.
pub mod Log
pub mod Contract
mod Tests
use solid_syslog.Base.{
  ℕ, Bool, true, false, not, ◌==◌, ltb, List, [], ◌∷◌, Bytes, length, get_or, if◌then◌else◌,
}
use solid_syslog.Senders.{Report, switching_sender, records_lost, severity_critical}

-- a pointer to a sender: the shared NullSender, or another one
pub data SenderRef : Type 0 where
  null_sender : SenderRef
  inner : ℕ → SenderRef

pub data Call : Type 0 where
  selects : ℕ → Call
  sends : SenderRef → Bytes → Bool → Call
  disconnects : SenderRef → Call
  raises : Report → Call

pub record Ports (W : Type 0) : Type 0 where
  pub selector : W → ℕ × W
  pub send_inner : ℕ → Bytes → W → Bool × W
  pub disconnect_inner : ℕ → W → W
  pub report : Report → W → W

-- `senders` are the elements of `Senders` within `SenderCount`.
pub record SwitchingSender : Type 0 where
  pub senders : List SenderRef
  pub current_sender : SenderRef
  pub out_of_range_reported : Bool

pub record Pass (W : Type 0) : Type 0 where
  pub sender : SwitchingSender
  pub world : W
  pub calls : List Call

unfoldable pub initialise : List SenderRef → SwitchingSender
initialise senders = record {
  senders = senders;
  current_sender = null_sender;
  out_of_range_reported = false;
}

abbrev pub same_ref : SenderRef → SenderRef → Bool
same_ref null_sender null_sender = true
same_ref null_sender (inner j) = false
same_ref (inner i) null_sender = false
same_ref (inner i) (inner j) = i == j

abbrev pub sender_changed : SwitchingSender → SenderRef → Bool
sender_changed self requested = not (same_ref requested self.current_sender)

module _ {W : Type 0} (ports : Ports W) where
  -- the dispatch of Send; the NullSender takes every record and drops it
  abbrev pub dispatch_send : SenderRef → Bytes → W → Bool × W
  dispatch_send null_sender buffer w = (true, w)
  dispatch_send (inner i) buffer w = ports.send_inner i buffer w

  abbrev pub dispatch_disconnect : SenderRef → W → W
  dispatch_disconnect null_sender w = w
  dispatch_disconnect (inner i) w = ports.disconnect_inner i w

  unfoldable pub disconnect : Pass W → Pass W
  disconnect p = record p {
    world = dispatch_disconnect p.sender.current_sender p.world;
    calls = disconnects p.sender.current_sender ∷ p.calls;
  }

  unfoldable pub switch_to : SenderRef → Pass W → Pass W
  switch_to new_current p =
      let q = disconnect p in record q { sender = record q.sender { current_sender = new_current } }

  unfoldable pub report_out_of_range : Pass W → Pass W
  report_out_of_range p =
      let report : Report = record {
        severity = severity_critical;
        source = switching_sender;
        category = records_lost;
        detail = 7;
      } in
      if not p.sender.out_of_range_reported
      then record {
        sender = record p.sender { out_of_range_reported = true };
        world = ports.report report p.world;
        calls = raises report ∷ p.calls;
      }
      else p

  unfoldable pub requested_sender : Pass W → SenderRef × Pass W
  requested_sender p =
      let (index, w) = ports.selector p.world in
      let p1 : Pass W = record p { world = w; calls = selects index ∷ p.calls } in
      if ltb index (length p.sender.senders)
      then (
        get_or p.sender.senders index null_sender,
        record p1 { sender = record p.sender { out_of_range_reported = false } },
      )
      else (null_sender, report_out_of_range p1)

  unfoldable pub select_sender : Pass W → Pass W
  select_sender p =
      let (requested, p1) = requested_sender p in
      if sender_changed p1.sender requested then switch_to requested p1 else p1

  unfoldable pub send : Bytes → Pass W → Bool × Pass W
  send buffer p =
      let p1 = select_sender p in
      let (sent, w) = dispatch_send p1.sender.current_sender buffer p1.world in
      (sent, record p1 { world = w; calls = sends p1.sender.current_sender buffer sent ∷ p1.calls })
