-- ===== src/Senders/Switching/Tests.antt =====
-- A switching sender on a script of indexes, and the theorem there.
use solid_syslog.Base.{ℕ, ◌≡◌, refl, true, List, [], ◌∷◌, some, Bytes, length}
use solid_syslog.Senders.Switching.{
  SenderRef, inner, Ports, initialise, send, select_sender, requested_sender, switch_to, disconnect,
  report_out_of_range,
}
use solid_syslog.Senders.Switching.Log.{holder, holds, IsHeldBy, range_told, served, selected}
use solid_syslog.Senders.Switching.Contract.{Operation, sending, start, run, switching_contract}

abbrev next_index : List ℕ → ℕ × List ℕ
next_index [] = (0, [])
next_index (i ∷ is) = (i, is)

abbrev inner_senders : Ports (List ℕ)
inner_senders = record {
  selector = next_index;
  send_inner = λ i bytes w. (true, w);
  disconnect_inner = λ i w. w;
  report = λ r w. w;
}

abbrev two_senders : List SenderRef
two_senders = inner 10 ∷ inner 20 ∷ []

-- the first sender, the second one, two out of range, the second one
abbrev indexes : List ℕ
indexes = 0 ∷ 1 ∷ 5 ∷ 5 ∷ 1 ∷ []

abbrev record_a : Bytes
record_a = b'a' ∷ []

abbrev operations : List Operation
operations = sending record_a ∷ sending record_a ∷ sending record_a ∷ sending record_a ∷ []

second_holds :
    holder
      (send inner_senders record_a
        (run inner_senders operations (start two_senders indexes))).1.calls
    ≡ holds 20
unfolding run initialise send select_sender requested_sender switch_to disconnect
    report_out_of_range
second_holds = refl

switching_contract_example :
    let a =
      send inner_senders record_a (run inner_senders operations (start two_senders indexes)) in
    (served a.1.calls ≡ some (selected two_senders a.1.calls, (record_a, a.0)))
    × (IsHeldBy (selected two_senders a.1.calls) (holder a.1.calls)
        × (range_told (length two_senders) a.1.calls ≡ some a.1.sender.out_of_range_reported))
switching_contract_example =
    switching_contract inner_senders two_senders indexes operations record_a
