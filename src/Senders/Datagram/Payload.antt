-- ===== src/Senders/Datagram/Payload.antt =====
-- What goes out in datagrams: a record whole, or cut to what the path carries.
use solid_syslog.Base.{
  ℕ, ◌≤◌, ◌<◌, min, ◌≡◌, refl, ap, sym, ◌∙◌, ◌⊎◌, inl, inr, Bool, true, false, not, ◌==◌, ltb,
  ltb→lt, if◌then◌else◌, List, [], ◌∷◌, ◌++◌, map, some, Bytes, length, take, length-take, arith,
  if_lem,
}
use solid_syslog.Utf8.Scalar.{WellFormed}
use solid_syslog.Utf8.Boundary.{CutsAt}
use solid_syslog.UdpPayload.{trim_to_codepoint_boundary}
use solid_syslog.UdpPayload.Trim.{trim_to_codepoint_boundary-CutsAt}
use solid_syslog.Formatter.{as_formatted_buffer}
use solid_syslog.Senders.{Report, udp_sender, records_lost, severity_error, update_health}
use solid_syslog.Senders.Datagram.{
  SendResult, oversize, failed, Call, sends_to, asks_max_payload, raises, Ports, Pass, reporter,
  is_sent, is_failed, was_discarded, raise, close_socket, disconnect, disconnect_if_stale,
  open_socket, resolve_destination, query_endpoint_port, connect, ensure_connected, reconcile,
  send_to, max_payload, failure_was_oversize, report_record_too_large, retry_after_oversize,
  reclassify, transmit_datagram, deliver, update_delivery_health, send,
}

-- the payload that the socket stated last, from the calls, the last one first
abbrev pub stated_payload : List Call → ℕ
stated_payload [] = 0
stated_payload (asks_max_payload n ∷ cs) = n
stated_payload (c ∷ cs) = stated_payload cs

-- A part of a record: not empty, and cut so that it is the longest well-formed prefix of at most `n`
-- bytes.
pub record IsCut (r : Bytes) (n : ℕ) (d : Bytes) : Type 0 where
  pub prefix : d ≡ take (length d) r
  pub some_left : 0 < length d
  pub cut : CutsAt r (min (length r) n) (length d)

-- Every datagram is the record, or the part of it that the payload stated before allows.
abbrev pub Datagrams : Bytes → List Call → Type 0
Datagrams r [] = Unit {0}
Datagrams r (sends_to d result ∷ cs) = ((d ≡ r) ⊎ IsCut r (stated_payload cs) d) × Datagrams r cs
Datagrams r (c ∷ cs) = Datagrams r cs

Datagrams-raises :
    (r : Bytes) (rs : List Report) (cs : List Call)
    → Datagrams r cs
    → Datagrams r (map raises rs ++ cs)
Datagrams-raises r [] cs h = h
Datagrams-raises r (x ∷ rs) cs h = Datagrams-raises r rs cs h

clip_limit_min : (a b : ℕ) → (if ltb a b then a else b) ≡ min a b
clip_limit_min a b = ground arith

-- what is trimmed is such a part
trimmed-IsCut :
    (r : Bytes) (n : ℕ)
    → WellFormed r
    → let k = trim_to_codepoint_boundary r (if ltb (length r) n then length r else n) in
      0 < k → IsCut r n (take k r)
trimmed-IsCut r n wf pos =
    let limit = if ltb (length r) n then length r else n in
    let same : limit ≡ min (length r) n = clip_limit_min (length r) n in
    let k = trim_to_codepoint_boundary r limit in
    let cut = trim_to_codepoint_boundary-CutsAt r limit wf (omega arith) in
    let inside : k ≤ limit = cut.within_limit in
    let size : length (take k r) ≡ k = length-take k r ∙ omega arith in
    record {
      prefix = ap (λ j. take j r) (sym size);
      some_left = omega arith;
      cut = rw (size, sym same) cut;
    }

module _ {W : Type 0} (ports : Ports W) (r : Bytes) (wf : WellFormed r) where
  abbrev Fine : Pass W → Type 0
  Fine p = Datagrams r p.calls

  disconnect_if_stale-Datagrams : (p : Pass W) → Fine p → Fine (disconnect_if_stale ports p)
  unfolding disconnect_if_stale disconnect close_socket
  disconnect_if_stale-Datagrams p h =
      let v = p.sender.endpoint_version p.world in
      let p1 : Pass W = record p { world = v.1 } in
      let p2 = disconnect ports p1 in
      let closed : Fine p2 =
        if_lem Fine p.sender.connected (close_socket ports p1) p1 (λ on. h) (λ off. h) in
      if_lem Fine (not (v.0 == p.sender.last_endpoint_version))
        (record p2 { sender = record p2.sender { last_endpoint_version = v.0 } }) p1
        (λ moved. closed) (λ stays. h)

  connect-Datagrams : (p : Pass W) → Fine p → Fine (connect ports p).1
  unfolding connect open_socket resolve_destination close_socket
  connect-Datagrams p h =
      let (endpoint, p1) = query_endpoint_port ports p in
      let host = (as_formatted_buffer endpoint.0).buffer in
      let o = open_socket ports p1 in
      let q = resolve_destination ports host endpoint.1 o.1 in
      let a = if o.0 then q else o in
      let here : Fine a.1 =
        if_lem (λ (x : Bool × Pass W). Fine x.1) o.0 q o (λ up. h) (λ down. h) in
      if_lem Fine a.0 (record a.1 { sender = record a.1.sender { connected = true } })
        (close_socket ports a.1) (λ on. here) (λ off. here)

  reconcile-Datagrams : (p : Pass W) → Fine p → Fine (reconcile ports p).1
  unfolding reconcile ensure_connected
  reconcile-Datagrams p h =
      let q = disconnect_if_stale ports p in
      let closed = disconnect_if_stale-Datagrams p h in
      if_lem (λ (x : Bool × Pass W). Fine x.1) q.sender.connected (true, q) (connect ports q)
        (λ on. closed) (λ off. connect-Datagrams q closed)

  send_to-Datagrams :
      (d : Bytes) (p : Pass W)
      → (d ≡ r) ⊎ IsCut r (stated_payload p.calls) d
      → Fine p
      → Fine (send_to ports d p).1
  unfolding send_to
  send_to-Datagrams d p part h =
      let (result, w) = ports.send_to d p.world in
      let p1 : Pass W = record p { world = w; calls = sends_to d result ∷ p.calls } in
      if_lem Fine (is_sent result)
        (record p1 { sender = record p1.sender { record_too_large_reported = false } }) p1
        (λ went. (part, h)) (λ refused. (part, h))

  retry_after_oversize-Datagrams : (p : Pass W) → Fine p → Fine (retry_after_oversize ports r p).1
  unfolding retry_after_oversize max_payload report_record_too_large raise
  retry_after_oversize-Datagrams p h =
      let (n, p1) = max_payload ports p in
      let k = trim_to_codepoint_boundary r (if ltb (length r) n then length r else n) in
      let a = if ltb 0 k then send_to ports (take k r) p1 else (oversize, p1) in
      let here : Fine a.1 =
        if_lem (λ (x : SendResult × Pass W). Fine x.1) (ltb 0 k) (send_to ports (take k r) p1)
          (oversize, p1)
          (λ pos. send_to-Datagrams (take k r) p1 (inr (trimmed-IsCut r n wf (ltb→lt 0 k pos))) h)
          (λ nothing. h) in
      let loud : Report = record {
        severity = severity_error;
        source = udp_sender;
        category = records_lost;
        detail = 10;
      } in
      let q = raise ports loud a.1 in
      if_lem Fine (was_discarded a.0) (report_record_too_large ports a.1) a.1
        (λ lost.
          if_lem Fine (not a.1.sender.record_too_large_reported)
            (record q { sender = record q.sender { record_too_large_reported = true } }) a.1
            (λ first. here) (λ again. here))
        (λ taken. here)

  transmit_datagram-Datagrams : (p : Pass W) → Fine p → Fine (transmit_datagram ports r p).1
  unfolding transmit_datagram failure_was_oversize max_payload
  transmit_datagram-Datagrams p h =
      let first = send_to ports r p in
      let h1 = send_to-Datagrams r p (inl refl) h in
      let a = reclassify ports r first in
      let f = failure_was_oversize ports (length r) first.1 in
      let h2 : Fine a.1 =
        if_lem (λ (x : SendResult × Pass W). Fine x.1) (is_failed first.0)
          (if f.0 then oversize else first.0, f.1) first (λ lost. h1) (λ other. h1) in
      if_lem (λ (x : SendResult × Pass W). Fine x.1) (was_discarded a.0)
        (retry_after_oversize ports r a.1) a (λ large. retry_after_oversize-Datagrams a.1 h2)
        (λ other. h2)

  deliver-Datagrams : (p : Pass W) → Fine p → Fine (deliver ports r p).1
  unfolding deliver
  deliver-Datagrams p h =
      let a = reconcile ports p in
      let here = reconcile-Datagrams p h in
      if_lem (λ (x : SendResult × Pass W). Fine x.1) a.0 (transmit_datagram ports r a.1)
        (failed, a.1) (λ on. transmit_datagram-Datagrams a.1 here) (λ off. here)

  -- Whatever the state of the sender and the answers of what it calls, Send of a well-formed record,
  -- with no call logged before, puts into datagrams only the whole record, or the longest well-formed
  -- prefix of it, not an empty one, that the payload stated just before allows.
  pub send-Datagrams : (p : Pass W) → p.calls ≡ [] → Datagrams r (send ports (some r) p).1.calls
  unfolding send update_delivery_health
  send-Datagrams p none_yet =
      let h : Fine p = rw none_yet tt in
      let d = deliver ports r p in
      let u = update_health d.1.sender.delivery_healthy (is_sent d.0) reporter in
      if_lem Fine (not (was_discarded d.0)) (update_delivery_health ports (is_sent d.0) d.1) d.1
        (λ tells. Datagrams-raises r u.1 d.1.calls (deliver-Datagrams p h))
        (λ says_nothing. deliver-Datagrams p h)
