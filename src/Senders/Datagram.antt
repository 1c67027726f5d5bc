-- ===== src/Senders/Datagram.antt =====
-- Core/Source/SolidSyslogUdpSender.c: a record in a datagram, cut where the path carries no more.
-- The datagram socket and the resolver are the ports below, over a state of the world; an operation
-- logs its calls, the last one first.
pub mod Log
pub mod Connect
pub mod Keeps
pub mod Contract
pub mod Payload
pub mod Outcome
mod Tests
use solid_syslog.Base.{
  ℕ, ◌+◌, Bool, true, false, not, ◌&&◌, ◌||◌, ◌==◌, ltb, List, [], ◌∷◌, ◌++◌, map, Option, none,
  some, Bytes, length, take, replicate, if◌then◌else◌,
}
use solid_syslog.Formatter.{Formatter, create, as_formatted_buffer}
use solid_syslog.UdpPayload.{trim_to_codepoint_boundary}
use solid_syslog.Senders.{
  Report, HealthReporter, udp_sender, records_lost, bad_argument, severity_critical, severity_error,
  update_health, report_all,
}
use solid_syslog.Senders.Stream.{Endpoint, max_host_size, nil_endpoint_version, or_else}

-- `enum SolidSyslogDatagramSendResult`
pub data SendResult : Type 0 where
  sent oversize failed : SendResult

pub data Call : Type 0 where
  resolves : Bytes → ℕ → Bool → Call
  opens : Bool → Call
  sends_to : Bytes → SendResult → Call
  asks_max_payload : ℕ → Call
  closes : Call
  raises : Report → Call

-- the resolver, the datagram socket and the error handler
pub record Ports (W : Type 0) : Type 0 where
  pub resolve : Bytes → ℕ → W → Bool × W
  pub open_datagram : W → Bool × W
  pub send_to : Bytes → W → SendResult × W
  pub max_payload : W → ℕ × W
  pub close : W → W
  pub report : Report → W → W

-- the callbacks of the configuration; Create has refused a NULL endpoint
pub record Config (W : Type 0) : Type 0 where
  pub endpoint : Endpoint W
  pub endpoint_version : Option (W → ℕ × W)

pub record UdpSender (W : Type 0) : Type 0 where
  pub endpoint : Endpoint W
  pub endpoint_version : W → ℕ × W
  pub connected : Bool
  pub delivery_healthy : Bool
  pub record_too_large_reported : Bool
  pub last_endpoint_version : ℕ

pub record Pass (W : Type 0) : Type 0 where
  pub sender : UdpSender W
  pub world : W
  pub calls : List Call

unfoldable pub initialise : {W : Type 0} → Config W → UdpSender W
initialise config = record {
  endpoint = config.endpoint;
  endpoint_version = or_else config.endpoint_version nil_endpoint_version;
  connected = false;
  delivery_healthy = true;
  record_too_large_reported = false;
  last_endpoint_version = 0;
}

abbrev pub reporter : HealthReporter
reporter = record { source = udp_sender; failed_detail = 8; restored_detail = 9 }

abbrev pub is_sent : SendResult → Bool
is_sent sent = true
is_sent oversize = false
is_sent failed = false

abbrev pub is_failed : SendResult → Bool
is_failed sent = false
is_failed oversize = false
is_failed failed = true

abbrev pub was_discarded : SendResult → Bool
was_discarded sent = false
was_discarded oversize = true
was_discarded failed = false

module _ {W : Type 0} (ports : Ports W) where
  unfoldable pub raise : Report → Pass W → Pass W
  raise r p = record p { world = ports.report r p.world; calls = raises r ∷ p.calls }

  unfoldable pub close_socket : Pass W → Pass W
  close_socket p = record {
    sender = record p.sender { connected = false };
    world = ports.close p.world;
    calls = closes ∷ p.calls;
  }

  unfoldable pub disconnect : Pass W → Pass W
  disconnect p = if p.sender.connected then close_socket p else p

  unfoldable pub disconnect_if_stale : Pass W → Pass W
  disconnect_if_stale p =
      let (version, w) = p.sender.endpoint_version p.world in
      let p1 : Pass W = record p { world = w } in
      let p2 = disconnect p1 in
      if not (version == p.sender.last_endpoint_version)
      then record p2 { sender = record p2.sender { last_endpoint_version = version } }
      else p1

  unfoldable pub open_socket : Pass W → Bool × Pass W
  open_socket p =
      let (opened, w) = ports.open_datagram p.world in
      (opened, record p { world = w; calls = opens opened ∷ p.calls })

  unfoldable pub resolve_destination : Bytes → ℕ → Pass W → Bool × Pass W
  resolve_destination host port p =
      let (resolved, w) = ports.resolve host port p.world in
      (resolved, record p { world = w; calls = resolves host port resolved ∷ p.calls })

  -- the port that the callback says, and the host that it wrote
  abbrev pub query_endpoint_port : Pass W → (Formatter × ℕ) × Pass W
  query_endpoint_port p =
      let (endpoint, w) =
        p.sender.endpoint (create (replicate max_host_size 0) max_host_size) p.world in
      (endpoint, record p { world = w })

  unfoldable pub connect : Pass W → Bool × Pass W
  connect p =
      let (endpoint, p1) = query_endpoint_port p in
      let host = (as_formatted_buffer endpoint.0).buffer in
      let o = open_socket p1 in
      let r = if o.0 then resolve_destination host endpoint.1 o.1 else o in
      let p2 =
        if r.0
        then record r.1 { sender = record r.1.sender { connected = true } }
        else close_socket r.1 in
      (p2.sender.connected, p2)

  unfoldable pub ensure_connected : Pass W → Bool × Pass W
  ensure_connected p = if p.sender.connected then (true, p) else connect p

  unfoldable pub reconcile : Pass W → Bool × Pass W
  reconcile p = ensure_connected (disconnect_if_stale p)

  unfoldable pub send_to : Bytes → Pass W → SendResult × Pass W
  send_to buffer p =
      let (result, w) = ports.send_to buffer p.world in
      let p1 : Pass W = record p { world = w; calls = sends_to buffer result ∷ p.calls } in
      (
        result,
        if is_sent result
            then record p1 { sender = record p1.sender { record_too_large_reported = false } }
            else p1,
      )

  unfoldable pub max_payload : Pass W → ℕ × Pass W
  max_payload p =
      let (n, w) = ports.max_payload p.world in
      (n, record p { world = w; calls = asks_max_payload n ∷ p.calls })

  unfoldable pub failure_was_oversize : ℕ → Pass W → Bool × Pass W
  failure_was_oversize size p = let (n, p1) = max_payload p in (ltb 0 n && ltb n size, p1)

  unfoldable pub report_record_too_large : Pass W → Pass W
  report_record_too_large p =
      let report : Report = record {
        severity = severity_error;
        source = udp_sender;
        category = records_lost;
        detail = 10;
      } in
      let p1 = raise report p in
      if not p.sender.record_too_large_reported
      then record p1 { sender = record p1.sender { record_too_large_reported = true } }
      else p

  unfoldable pub retry_after_oversize : Bytes → Pass W → SendResult × Pass W
  retry_after_oversize buffer p =
      let size = length buffer in
      let (n, p1) = max_payload p in
      let clip_limit = if ltb size n then size else n in
      let trimmed = trim_to_codepoint_boundary buffer clip_limit in
      let r = if ltb 0 trimmed then send_to (take trimmed buffer) p1 else (oversize, p1) in
      (r.0, if was_discarded r.0 then report_record_too_large r.1 else r.1)

  -- a failure on a record too large for the path is an oversize
  abbrev pub reclassify : Bytes → SendResult × Pass W → SendResult × Pass W
  reclassify buffer r =
      let f = failure_was_oversize (length buffer) r.1 in
      if is_failed r.0 then (if f.0 then oversize else r.0, f.1) else r

  unfoldable pub transmit_datagram : Bytes → Pass W → SendResult × Pass W
  transmit_datagram buffer p =
      let r = reclassify buffer (send_to buffer p) in
      if was_discarded r.0 then retry_after_oversize buffer r.1 else r

  unfoldable pub deliver : Bytes → Pass W → SendResult × Pass W
  deliver buffer p =
      let r = reconcile p in if r.0 then transmit_datagram buffer r.1 else (failed, r.1)

  unfoldable pub update_delivery_health : Bool → Pass W → Pass W
  update_delivery_health delivered p =
      let (healthy, reports) = update_health p.sender.delivery_healthy delivered reporter in
      record {
        sender = record p.sender { delivery_healthy = healthy };
        world = report_all ports.report reports p.world;
        calls = map raises reports ++ p.calls;
      }

  -- `none` is a NULL buffer
  unfoldable pub send : Option Bytes → Pass W → Bool × Pass W
  send none p = (
    false,
    raise
        (record {
          severity = severity_critical;
          source = udp_sender;
          category = bad_argument;
          detail = 5;
        })
        p,
  )
  send (some buffer) p =
      let d = deliver buffer p in
      (
        not (is_failed d.0),
        if not (was_discarded d.0) then update_delivery_health (is_sent d.0) d.1 else d.1,
      )
