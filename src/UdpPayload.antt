-- ===== src/UdpPayload.antt =====
-- Core/Source/SolidSyslogUdpPayload.c: how much of a message goes into a datagram, and where a
-- message that does not fit is cut.
pub mod Trim
mod Tests
use solid_syslog.Base.{
  ℕ, zero, suc, ◌+◌, ◌-◌, Bool, ◌==◌, ltb, if◌then◌else◌, Option, none, some, Bytes, byte_at,
}
use solid_syslog.Utf8.{is_ascii_byte, is_continuation_byte, is_two_byte_lead, is_three_byte_lead}

abbrev ipv4_header_bytes : ℕ
ipv4_header_bytes = 20

abbrev ipv6_header_bytes : ℕ
ipv6_header_bytes = 40

abbrev udp_header_bytes : ℕ
udp_header_bytes = 8

pub from_mtu : ℕ → Bool → ℕ
from_mtu mtu is_ipv6 =
    let overhead = (if is_ipv6 then ipv6_header_bytes else ipv4_header_bytes) + udp_header_bytes in
    if ltb overhead mtu then mtu - overhead else 0

pub unknown_path : Bool → ℕ
unknown_path is_ipv6 = if is_ipv6 then 1180 else 480

-- `limit` is the callback's answer, or `none` for a NULL callback; `default_limit` is the tunable
-- SOLIDSYSLOG_UDP_IPV4_PAYLOAD_LIMIT.
abbrev answered : Option ℕ → ℕ
answered none = 0
answered (some n) = n

pub stated : ℕ → Option ℕ → ℕ
stated default_limit limit = if answered limit == 0 then default_limit else answered limit

-- the loop of `FindLastCodepointStart`, from an index down
unfoldable pub walk_back : Bytes → ℕ → ℕ
walk_back buffer zero = zero
walk_back buffer (suc i) =
    let before = walk_back buffer i in
    if is_continuation_byte (byte_at buffer (suc i)) then before else suc i

unfoldable pub find_last_codepoint_start : Bytes → ℕ → ℕ
find_last_codepoint_start buffer length = walk_back buffer (length - 1)

unfoldable pub expected_sequence_length : ℕ → ℕ
expected_sequence_length start_byte =
    if is_ascii_byte start_byte
    then 1
    else if is_two_byte_lead start_byte
    then 2
    else if is_three_byte_lead start_byte
    then 3
    else 4

unfoldable pub last_codepoint_extends_past_cut : Bytes → ℕ → ℕ → Bool
last_codepoint_extends_past_cut buffer length last_codepoint_start =
    ltb length
      (last_codepoint_start + expected_sequence_length (byte_at buffer last_codepoint_start))

unfoldable pub trim_to_codepoint_boundary : Bytes → ℕ → ℕ
trim_to_codepoint_boundary buffer length =
    let last = find_last_codepoint_start buffer length in
    if ltb 0 length
    then (if last_codepoint_extends_past_cut buffer length last then last else length)
    else length
