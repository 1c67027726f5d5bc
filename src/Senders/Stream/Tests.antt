-- ===== src/Senders/Stream/Tests.antt =====
-- A stream sender on a script of answers, and the theorems there.
use solid_syslog.Base.{◌≡◌, refl, true, false, List, [], ◌∷◌, none, some, Bytes, arith}
use solid_syslog.Formatter.{
  create, uint32, ascii_character, as_formatted_buffer, write_char, null_terminate, count_digits,
  count_loop, raise_divisor, write_digits, trim_from,
}
use solid_syslog.Base.{blit}
use solid_syslog.Utf8.{is_two_byte_lead, is_three_byte_lead, is_four_byte_lead}
use solid_syslog.Senders.{update_health}
use solid_syslog.Senders.Health.{told}
use solid_syslog.Senders.Scripts.{Script, next, some_host}
use solid_syslog.Senders.Stream.{
  Ports, Config, format_octet_counting_prefix, prefix_bytes, initialise, send, reconcile,
  ensure_connected, connect, resolve_destination, disconnect_if_stale, disconnect, close_stream,
  transmit_framed, send_bytes, update_delivery_health,
}
use solid_syslog.Senders.Stream.Link.{link, reports}
use solid_syslog.Senders.Stream.Peer.{peer}
use solid_syslog.Senders.Stream.Trace.{
  Operation, sending, disconnecting, AllMessages, start, run, stream_contract, send_outcome,
  received_are_delivered,
}

abbrev stream : Ports Script
stream = record {
  resolve = λ host port w. (true, w);
  open_stream = next;
  send = λ bytes w. next w;
  close = λ w. w;
  version = λ w. (0, w);
  report = λ r w. w;
}

abbrev config : Config Script
config = record { endpoint = some some_host; endpoint_version = none }

abbrev message_a : Bytes
message_a = b'a' ∷ b'b' ∷ b'c' ∷ []

abbrev message_b : Bytes
message_b = b'd' ∷ []

-- The first message goes; the second one fails, and goes when it is sent again.
abbrev script : Script
script = true ∷ true ∷ true ∷ true ∷ false ∷ []

abbrev operations : List Operation
operations = sending message_a ∷ sending message_b ∷ sending message_b ∷ disconnecting ∷ []

operations-AllMessages : AllMessages operations
operations-AllMessages =
    ((omega arith, omega arith), ((omega arith, omega arith), ((omega arith, omega arith), tt)))

prefix_of_three : prefix_bytes 3 ≡ b'3' ∷ b' ' ∷ []
unfolding format_octet_counting_prefix create uint32 ascii_character as_formatted_buffer write_char
    null_terminate count_digits count_loop raise_divisor write_digits trim_from blit
    is_two_byte_lead is_three_byte_lead is_four_byte_lead
prefix_of_three = refl

both_delivered : (run stream operations [] (start config script)).0 ≡ message_b ∷ message_a ∷ []
unfolding run initialise send reconcile ensure_connected connect resolve_destination
    disconnect_if_stale disconnect close_stream transmit_framed send_bytes update_delivery_health
    update_health
both_delivered = refl

stream_contract_example :
    link (run stream operations [] (start config script)).1.calls
    ≡ some (run stream operations [] (start config script)).1.sender.connected
stream_contract_example = stream_contract stream config script operations

send_outcome_example :
    let a = send stream message_a (run stream operations [] (start config script)).1 in
    (a.1.sender.connected ≡ a.0) × (told (reports a.1.calls) ≡ some a.0)
send_outcome_example = send_outcome stream config script operations message_a

received_are_delivered_example :
    (peer (λ bytes. 1) (run stream operations [] (start config script)).1.calls).got
    ≡ (run stream operations [] (start config script)).0
received_are_delivered_example =
    received_are_delivered stream (λ bytes. 1) config script operations operations-AllMessages
