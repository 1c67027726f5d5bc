-- ===== src/Senders/Datagram/Connect.antt =====
-- Connecting and disconnecting keep the contract of the socket.
use mathlib.Core.Bool.{false≢true}
use solid_syslog.Base.{
  Bool, true, false, not, ◌==◌, if◌then◌else◌, some, ◌≡◌, refl, ap, sym, ◌∙◌, Bool-cases, inl, inr,
  if_lem,
}
use solid_syslog.Formatter.{as_formatted_buffer}
use solid_syslog.Senders.Health.{told}
use solid_syslog.Senders.Datagram.{
  Ports, Pass, close_socket, disconnect, disconnect_if_stale, open_socket, resolve_destination,
  query_endpoint_port, connect, ensure_connected, reconcile,
}
use solid_syslog.Senders.Datagram.Log.{
  Socket, shut, unaddressed, ready, after_open, after_resolve, after_close, socket, reports,
  loss_told, at_socket, Sound,
}

-- The operation keeps that, and says whether it left the sender connected.
abbrev pub Shown : {W : Type 0} → Bool × Pass W → Type 0
Shown a = Sound a.1 × (a.0 ≡ a.1.sender.connected)

module _ {W : Type 0} (ports : Ports W) where
  pub disconnect-Sound : (p : Pass W) → Sound p → Sound (disconnect ports p)
  unfolding disconnect close_socket
  disconnect-Sound p s =
      if_lem Sound p.sender.connected (close_socket ports p) p
        (λ on. record { held = rw (s.held, on) refl; telling = s.telling; losses = s.losses })
        (λ off. s)

  disconnect_if_stale-Sound : (p : Pass W) → Sound p → Sound (disconnect_if_stale ports p)
  unfolding disconnect_if_stale
  disconnect_if_stale-Sound p s =
      let v = p.sender.endpoint_version p.world in
      let p1 : Pass W = record p { world = v.1 } in
      let same : Sound p1 = record { held = s.held; telling = s.telling; losses = s.losses } in
      let closed = disconnect-Sound p1 same in
      elim (Bool-cases (not (v.0 == p.sender.last_endpoint_version))) [
        | inl moved ↦
            rw moved
              (record { held = closed.held; telling = closed.telling; losses = closed.losses })
        | inr stays ↦ rw stays same
      ]

  -- a call on the way to a connection: the socket is ready exactly if it succeeded
  record Underway (r : Bool × Pass W) : Type 0 where
    reached : r.0 ≡ true → socket r.1.calls ≡ ready
    closable : after_close (socket r.1.calls) ≡ shut
    telling : told (reports r.1.calls) ≡ some r.1.sender.delivery_healthy
    losses : loss_told r.1.calls ≡ some r.1.sender.record_too_large_reported

  -- the end of Connect
  settle-Shown :
      (r : Bool × Pass W)
      → Underway r
      → let q =
          if r.0
          then record r.1 { sender = record r.1.sender { connected = true } }
          else close_socket ports r.1 in
        Shown (q.sender.connected, q)
  unfolding close_socket
  settle-Shown r u =
      if_lem (λ (q : Pass W). Shown (q.sender.connected, q)) r.0
        (record r.1 { sender = record r.1.sender { connected = true } }) (close_socket ports r.1)
        (λ on. (record { held = u.reached on; telling = u.telling; losses = u.losses }, refl))
        (λ off. (record { held = u.closable; telling = u.telling; losses = u.losses }, refl))

  opened_or_shut : (opened : Bool) → after_close (after_open opened shut) ≡ shut
  opened_or_shut true = refl
  opened_or_shut false = refl

  addressed_or_shut : (resolved : Bool) → after_close (after_resolve resolved unaddressed) ≡ shut
  addressed_or_shut true = refl
  addressed_or_shut false = refl

  connect-Sound : (p : Pass W) → Sound p → p.sender.connected ≡ false → Shown (connect ports p)
  unfolding connect open_socket resolve_destination
  connect-Sound p s off =
      let (endpoint, p1) = query_endpoint_port ports p in
      let host = (as_formatted_buffer endpoint.0).buffer in
      let o = open_socket ports p1 in
      let r = resolve_destination ports host endpoint.1 o.1 in
      let closed : socket p.calls ≡ shut = s.held ∙ ap at_socket off in
      settle-Shown (if o.0 then r else o) (
        if_lem Underway o.0 r o
          (λ up.
            let here : socket o.1.calls ≡ unaddressed =
              ap (λ (x : Socket). after_open o.0 x) closed
              ∙ ap (λ (b : Bool). after_open b shut) up in
            record {
              reached = λ found.
                  ap (after_resolve r.0) here
                  ∙ ap (λ (b : Bool). after_resolve b unaddressed) found;
              closable =
                  ap (λ (x : Socket). after_close (after_resolve r.0 x)) here
                  ∙ addressed_or_shut r.0;
              telling = s.telling;
              losses = s.losses;
            })
          (λ down. record {
            reached = λ up. absurd (false≢true (sym down ∙ up));
            closable =
                ap (λ (x : Socket). after_close (after_open o.0 x)) closed ∙ opened_or_shut o.0;
            telling = s.telling;
            losses = s.losses;
          }))

  pub reconcile-Sound : (p : Pass W) → Sound p → Shown (reconcile ports p)
  unfolding reconcile ensure_connected
  reconcile-Sound p s =
      let q = disconnect_if_stale ports p in
      let sound = disconnect_if_stale-Sound p s in
      if_lem Shown q.sender.connected (true, q) (connect ports q) (λ on. (sound, sym on))
        (connect-Sound q sound)
