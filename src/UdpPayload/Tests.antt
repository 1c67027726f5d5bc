-- ===== src/UdpPayload/Tests.antt =====
-- A message that is cut for a datagram, and the theorem at it.
use solid_syslog.Base.{◌≡◌, refl, inl, [], ◌∷◌, arith, Bytes}
use solid_syslog.Utf8.Scalar.{WellFormed, empty, codepoint, encode}
use solid_syslog.Utf8.Boundary.{CutsAt}
use solid_syslog.Utf8.{is_ascii_byte, is_continuation_byte, is_two_byte_lead, is_three_byte_lead}
use solid_syslog.UdpPayload.{
  trim_to_codepoint_boundary, find_last_codepoint_start, walk_back, last_codepoint_extends_past_cut,
  expected_sequence_length,
}
use solid_syslog.UdpPayload.Trim.{trim_to_codepoint_boundary-CutsAt}

abbrev message : Bytes
message = b'a' ∷ 0xE2 ∷ 0x82 ∷ 0xAC ∷ b'b' ∷ []

message-WellFormed : WellFormed message
unfolding encode
message-WellFormed =
    codepoint b'a' (inl (omega arith))
      (codepoint 0x20AC (inl (omega arith)) (codepoint b'b' (inl (omega arith)) empty))

cut_inside : trim_to_codepoint_boundary message 3 ≡ 1
unfolding trim_to_codepoint_boundary find_last_codepoint_start walk_back
    last_codepoint_extends_past_cut expected_sequence_length is_ascii_byte is_continuation_byte
    is_two_byte_lead is_three_byte_lead
cut_inside = refl

cut_behind : trim_to_codepoint_boundary message 4 ≡ 4
unfolding trim_to_codepoint_boundary find_last_codepoint_start walk_back
    last_codepoint_extends_past_cut expected_sequence_length is_ascii_byte is_continuation_byte
    is_two_byte_lead is_three_byte_lead
cut_behind = refl

trim_to_codepoint_boundary-CutsAt_example : CutsAt message 3 (trim_to_codepoint_boundary message 3)
trim_to_codepoint_boundary-CutsAt_example =
    trim_to_codepoint_boundary-CutsAt message 3 message-WellFormed (omega arith)
