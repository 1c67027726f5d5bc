-- ===== src/Senders/Datagram/Tests.antt =====
-- A UDP sender on a script of answers, and the theorems there.
use solid_syslog.Base.{◌≡◌, refl, inl, true, false, Bool, List, [], ◌∷◌, none, some, Bytes, arith}
use solid_syslog.Utf8.Scalar.{WellFormed, empty, codepoint, encode}
use solid_syslog.Senders.Health.{told}
use solid_syslog.Senders.Scripts.{Script, next, some_host}
use solid_syslog.Senders.Datagram.{
  SendResult, sent, oversize, Ports, Config, send, send_to, max_payload,
}
use solid_syslog.Senders.Datagram.Log.{socket, at_socket, reports, loss_told}
use solid_syslog.Senders.Datagram.Contract.{
  Operation, sending, disconnecting, start, run, datagram_contract,
}
use solid_syslog.Senders.Datagram.Payload.{Datagrams, send-Datagrams}

abbrev result_of : Bool → SendResult
result_of true = sent
result_of false = oversize

-- a path that carries three bytes
abbrev datagram : Ports Script
datagram = record {
  resolve = λ host port w. (true, w);
  open_datagram = next;
  send_to = λ bytes w. (result_of (next w).0, (next w).1);
  max_payload = λ w. (3, w);
  close = λ w. w;
  report = λ r w. w;
}

abbrev config : Config Script
config = record { endpoint = some_host; endpoint_version = none }

abbrev large_record : Bytes
large_record = b'a' ∷ 0xE2 ∷ 0x82 ∷ 0xAC ∷ b'b' ∷ []

large_record-WellFormed : WellFormed large_record
unfolding encode
large_record-WellFormed =
    codepoint b'a' (inl (omega arith))
      (codepoint 0x20AC (inl (omega arith)) (codepoint b'b' (inl (omega arith)) empty))

-- The record is too large, whole and trimmed.
abbrev script : Script
script = true ∷ false ∷ false ∷ false ∷ []

abbrev operations : List Operation
operations = sending (some large_record) ∷ sending none ∷ disconnecting ∷ []

datagram_contract_example :
    let p = run datagram operations (start config script) in
    (socket p.calls ≡ at_socket p.sender.connected)
    × ((told (reports p.calls) ≡ some p.sender.delivery_healthy)
        × (loss_told p.calls ≡ some p.sender.record_too_large_reported))
datagram_contract_example = datagram_contract datagram config script operations

send-Datagrams_example :
    Datagrams large_record (send datagram (some large_record) (start config script)).1.calls
send-Datagrams_example =
    send-Datagrams datagram large_record large_record-WellFormed (start config script) refl
