-- ===== src/Senders/Stream.antt =====
-- Core/Source/SolidSyslogStreamSender.c: records over a stream, each in a frame of RFC 6587 octet
-- counting. The stream and the resolver are the ports below, over a state of the world; an
-- operation logs its calls, the last one first.
pub mod Frame
pub mod Link
pub mod Peer
pub mod Arrival
pub mod Trace
mod Tests
use solid_syslog.Base.{
  ℕ, ◌+◌, ◌%◌, ◌^◌, Bool, true, false, not, ◌&&◌, ◌||◌, ◌==◌, List, [], ◌∷◌, ◌++◌, map, Option,
  none, some, Bytes, length, take, replicate, if◌then◌else◌,
}
use solid_syslog.Formatter.{
  Formatter, create, bounded_string, uint32, ascii_character, as_formatted_buffer,
}
use solid_syslog.Senders.{Report, HealthReporter, stream_sender, update_health, report_all}

pub data Call : Type 0 where
  -- the host and the port, and whether an address was found
  resolves : Bytes → ℕ → Bool → Call
  opens : Bool → Call
  sends : Bytes → Bool → Call
  closes : Call
  raises : Report → Call

-- `OCTET_COUNTING_PREFIX_CAPACITY`
abbrev pub prefix_capacity : ℕ
prefix_capacity = 12

-- `SOLIDSYSLOG_MAX_HOST_SIZE`
abbrev pub max_host_size : ℕ
max_host_size = 256

-- the resolver, the stream and the error handler
pub record Ports (W : Type 0) : Type 0 where
  pub resolve : Bytes → ℕ → W → Bool × W
  pub open_stream : W → Bool × W
  pub send : Bytes → W → Bool × W
  pub close : W → W
  pub version : W → ℕ × W
  pub report : Report → W → W

-- An endpoint callback writes the host into a formatter, and says the port.
abbrev pub Endpoint : Type 0 → Type 0
Endpoint W = Formatter → W → (Formatter × ℕ) × W

-- the callbacks of the configuration, each `none` for NULL
pub record Config (W : Type 0) : Type 0 where
  pub endpoint : Option (Endpoint W)
  pub endpoint_version : Option (W → ℕ × W)

pub record StreamSender (W : Type 0) : Type 0 where
  pub endpoint : Endpoint W
  pub endpoint_version : W → ℕ × W
  pub connected : Bool
  pub delivery_healthy : Bool
  pub last_endpoint_version : ℕ
  pub last_stream_version : ℕ

pub record Pass (W : Type 0) : Type 0 where
  pub sender : StreamSender W
  pub world : W
  pub calls : List Call

abbrev pub nil_endpoint : {W : Type 0} → Endpoint W
nil_endpoint host world = ((bounded_string host [] 0, 0), world)

abbrev pub nil_endpoint_version : {W : Type 0} → W → ℕ × W
nil_endpoint_version world = (0, world)

abbrev pub or_else : {A : Type 0} → Option A → A → A
or_else none a = a
or_else (some x) a = x

unfoldable pub initialise : {W : Type 0} → Config W → StreamSender W
initialise config = record {
  endpoint = or_else config.endpoint nil_endpoint;
  endpoint_version = or_else config.endpoint_version nil_endpoint_version;
  connected = false;
  delivery_healthy = true;
  last_endpoint_version = 0;
  last_stream_version = 0;
}

abbrev pub reporter : HealthReporter
reporter = record { source = stream_sender; failed_detail = 6; restored_detail = 7 }

abbrev pub configuration_moved : {W : Type 0} → StreamSender W → ℕ → ℕ → Bool
configuration_moved self endpoint_version stream_version =
    not (endpoint_version == self.last_endpoint_version)
    || not (stream_version == self.last_stream_version)

unfoldable pub format_octet_counting_prefix : ℕ → Formatter
format_octet_counting_prefix message_size =
    ascii_character
      (uint32 (create (replicate prefix_capacity 0) prefix_capacity) (message_size % 2 ^ 32)) b' '

-- the bytes of the prefix that are sent
abbrev pub prefix_bytes : ℕ → Bytes
prefix_bytes message_size =
    let prefix = format_octet_counting_prefix message_size in
    take prefix.position (as_formatted_buffer prefix).buffer

module _ {W : Type 0} (ports : Ports W) where
  unfoldable pub close_stream : Pass W → Pass W
  close_stream p = record {
    sender = record p.sender { connected = false };
    world = ports.close p.world;
    calls = closes ∷ p.calls;
  }

  unfoldable pub disconnect : Pass W → Pass W
  disconnect p = if p.sender.connected then close_stream p else p

  unfoldable pub disconnect_if_stale : Pass W → Pass W
  disconnect_if_stale p =
      let (endpoint_version, w1) = p.sender.endpoint_version p.world in
      let (stream_version, w2) = ports.version w1 in
      let p1 : Pass W = record p { world = w2 } in
      let p2 = disconnect p1 in
      if configuration_moved p.sender endpoint_version stream_version
      then record p2 {
        sender = record p2.sender {
          last_endpoint_version = endpoint_version;
          last_stream_version = stream_version;
        };
      }
      else p1

  unfoldable pub resolve_destination : Pass W → Bool × Pass W
  resolve_destination p =
      let (endpoint, w1) =
        p.sender.endpoint (create (replicate max_host_size 0) max_host_size) p.world in
      let host = (as_formatted_buffer endpoint.0).buffer in
      let (resolved, w2) = ports.resolve host endpoint.1 w1 in
      (resolved, record p { world = w2; calls = resolves host endpoint.1 resolved ∷ p.calls })

  unfoldable pub connect : Pass W → Bool × Pass W
  connect p =
      let (resolved, p1) = resolve_destination p in
      let (opened, w) = ports.open_stream p1.world in
      let p2 : Pass W = record {
        sender = record p1.sender { connected = opened };
        world = w;
        calls = opens opened ∷ p1.calls;
      } in
      let p3 = if resolved then p2 else p1 in (p3.sender.connected, p3)

  unfoldable pub ensure_connected : Pass W → Bool × Pass W
  ensure_connected p = if p.sender.connected then (true, p) else connect p

  unfoldable pub reconcile : Pass W → Bool × Pass W
  reconcile p = ensure_connected (disconnect_if_stale p)

  unfoldable pub send_bytes : Bytes → Pass W → Bool × Pass W
  send_bytes bytes p =
      let (sent, w) = ports.send bytes p.world in
      let p1 : Pass W = record p { world = w; calls = sends bytes sent ∷ p.calls } in
      (sent, if not sent then close_stream p1 else p1)

  unfoldable pub transmit_framed : Bytes → Pass W → Bool × Pass W
  transmit_framed buffer p =
      let a = send_bytes (prefix_bytes (length buffer)) p in
      let b = send_bytes buffer a.1 in if a.0 then b else a

  -- the reports that the health raises, the last one first
  unfoldable pub update_delivery_health : Bool → Pass W → Pass W
  update_delivery_health delivered p =
      let (healthy, reports) = update_health p.sender.delivery_healthy delivered reporter in
      record {
        sender = record p.sender { delivery_healthy = healthy };
        world = report_all ports.report reports p.world;
        calls = map raises reports ++ p.calls;
      }

  unfoldable pub send : Bytes → Pass W → Bool × Pass W
  send buffer p =
      let r = reconcile p in
      let t = transmit_framed buffer r.1 in
      let d = if r.0 then t else r in (d.0, update_delivery_health d.0 d.1)
