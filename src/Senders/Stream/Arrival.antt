-- ===== src/Senders/Stream/Arrival.antt =====
-- What one call of Send puts at the other end of the stream.
use mathlib.Core.Bool.{false≢true}
use solid_syslog.Base.{
  ℕ, ◌-◌, ◌≡◌, refl, ap, sym, ◌∙◌, Bool, true, false, if◌then◌else◌, List, [], ◌∷◌, length, Bytes,
  if_lem, Bool-cases, inl, inr,
}
use solid_syslog.Senders.{update_health}
use solid_syslog.Senders.Stream.{
  opens, Ports, Pass, reporter, configuration_moved, close_stream, disconnect, disconnect_if_stale,
  resolve_destination, connect, ensure_connected, reconcile, prefix_bytes, send_bytes,
  transmit_framed, update_delivery_health, send,
}
use solid_syslog.Senders.Stream.Link.{Sound, reconcile-Sound}
use solid_syslog.Senders.Stream.Peer.{
  counting, reading, Peer, hear, cut_short, peer, peer-raises, IsMessage, hear-prefix,
  hear-cut_prefix, hear-whole, hear-cut_message,
}

-- The peer has received the messages, and stands between two frames while the link is up.
pub record Arrived {W : Type 0} (part : Bytes → ℕ) (accepted : List Bytes) (p : Pass W)
    : Type 0 where
  pub arrived : (peer part p.calls).got ≡ accepted
  pub aligned : p.sender.connected ≡ true → (peer part p.calls).phase ≡ counting 0

abbrev pub accept : Bool → Bytes → List Bytes → List Bytes
accept delivered m accepted = if delivered then m ∷ accepted else accepted

module _ {W : Type 0} (ports : Ports W) (part : Bytes → ℕ) where
  pub disconnect-Arrived :
      (accepted : List Bytes) (p : Pass W)
      → Arrived part accepted p
      → Arrived part accepted (disconnect ports p)
  unfolding disconnect close_stream
  disconnect-Arrived accepted p a =
      if_lem (Arrived part accepted) p.sender.connected (close_stream ports p) p
        (λ on. record { arrived = a.arrived; aligned = λ e. absurd (false≢true e) }) (λ off. a)

  disconnect_if_stale-Arrived :
      (accepted : List Bytes) (p : Pass W)
      → Arrived part accepted p
      → Arrived part accepted (disconnect_if_stale ports p)
  unfolding disconnect_if_stale
  disconnect_if_stale-Arrived accepted p a =
      let e = p.sender.endpoint_version p.world in
      let v = ports.version e.1 in
      let p1 : Pass W = record p { world = v.1 } in
      let same : Arrived part accepted p1 = record { arrived = a.arrived; aligned = a.aligned } in
      let closed = disconnect-Arrived accepted p1 same in
      elim (Bool-cases (configuration_moved p.sender e.0 v.0)) [
        | inl moved ↦ rw moved (record { arrived = closed.arrived; aligned = closed.aligned })
        | inr stays ↦ rw stays same
      ]

  reconcile-Arrived :
      (accepted : List Bytes) (p : Pass W)
      → Arrived part accepted p
      → Arrived part accepted (reconcile ports p).1
  unfolding reconcile ensure_connected connect resolve_destination
  reconcile-Arrived accepted p a =
      let q = disconnect_if_stale ports p in
      let closed = disconnect_if_stale-Arrived accepted p a in
      let r = resolve_destination ports q in
      let o = ports.open_stream r.1.world in
      let p2 : Pass W = record {
        sender = record q.sender { connected = o.0 };
        world = o.1;
        calls = opens o.0 ∷ r.1.calls;
      } in
      if_lem (λ (b : Bool × Pass W). Arrived part accepted b.1) q.sender.connected (true, q)
        (connect ports q) (λ on. closed)
        (λ off.
          if_lem (λ (b : Pass W). Arrived part accepted b) r.0 p2 r.1
            (λ found. record { arrived = closed.arrived; aligned = λ e. refl })
            (λ lost. record { arrived = closed.arrived; aligned = closed.aligned }))

  -- the write, as the peer hears it, and as the sender takes it
  send_bytes-heard :
      (bytes : Bytes) (p : Pass W)
      → let a = send_bytes ports bytes p in
        (peer part a.1.calls
          ≡ hear (peer part p.calls) (if a.0 then bytes else cut_short part bytes))
        × (a.0 ≡ false → a.1.sender.connected ≡ false)
  unfolding send_bytes close_stream
  send_bytes-heard bytes p = written (ports.send bytes p.world).0 refl
    where
      written :
          (sent : Bool)
          → (ports.send bytes p.world).0 ≡ sent
          → let a = send_bytes ports bytes p in
            (peer part a.1.calls
              ≡ hear (peer part p.calls) (if a.0 then bytes else cut_short part bytes))
            × (a.0 ≡ false → a.1.sender.connected ≡ false)
      written true e = rw e (refl, λ f. absurd (false≢true (sym f)))
      written false e = rw e (refl, λ f. refl)

  transmit_framed-Arrived :
      (m : Bytes) (accepted : List Bytes) (p : Pass W)
      → IsMessage m
      → Arrived part accepted p
      → p.sender.connected ≡ true
      → let a = transmit_framed ports m p in Arrived part (accept a.0 m accepted) a.1
  unfolding transmit_framed
  transmit_framed-Arrived m accepted p h s on =
      let bytes = prefix_bytes (length m) in
      let a = send_bytes ports bytes p in
      let (heard, closes_it) = send_bytes-heard bytes p in
      let before : peer part p.calls ≡ record { phase = counting 0; got = accepted } =
        same_peer (peer part p.calls) (s.aligned on) s.arrived in
      if_lem (λ (r : Bool × Pass W). Arrived part (accept r.0 m accepted) r.1) a.0
        (send_bytes ports m a.1) a
        (λ went. message_sent a.1 (
          heard
          ∙ ap (λ (b : Bool). hear (peer part p.calls) (if b then bytes else cut_short part bytes))
              went
          ∙ ap (λ (q : Peer). hear q bytes) before
          ∙ hear-prefix part m h accepted))
        (λ failed. rw failed (record {
          arrived =
              ap (λ (q : Peer). q.got)
                (heard
                  ∙ ap
                      (λ (b : Bool).
                        hear (peer part p.calls) (if b then bytes else cut_short part bytes))
                      failed
                  ∙ ap (λ (q : Peer). hear q (cut_short part bytes)) before)
              ∙ hear-cut_prefix part m h accepted;
          aligned = λ e. absurd (false≢true (sym (closes_it failed) ∙ e));
        }))
    where
      same_peer :
          (q : Peer)
          → q.phase ≡ counting 0
          → q.got ≡ accepted
          → q ≡ record { phase = counting 0; got = accepted }
      same_peer q e f i = record { phase = e i; got = f i }

      message_sent :
          (p1 : Pass W)
          → peer part p1.calls ≡ record { phase = reading (length m - 1) []; got = accepted }
          → let b = send_bytes ports m p1 in Arrived part (accept b.0 m accepted) b.1
      message_sent p1 waits =
          let b = send_bytes ports m p1 in
          let (heard, closes_it) = send_bytes-heard m p1 in
          let hears : peer part b.1.calls
              ≡ hear (record { phase = reading (length m - 1) []; got = accepted })
                  (if b.0 then m else cut_short part m) =
            heard ∙ ap (λ (q : Peer). hear q (if b.0 then m else cut_short part m)) waits in
          elim (Bool-cases b.0) [
            | inl went ↦
                let whole = rw went at hears in
                let now = whole ∙ hear-whole part m h accepted in
                rw went (record {
                  arrived = ap (λ (q : Peer). q.got) now;
                  aligned = λ e. ap (λ (q : Peer). q.phase) now;
                })
            | inr failed ↦
                let cut = rw failed at hears in
                rw failed (record {
                  arrived = ap (λ (q : Peer). q.got) cut ∙ hear-cut_message part m h accepted;
                  aligned = λ e. absurd (false≢true (sym (closes_it failed) ∙ e));
                })
          ]

  update_delivery_health-Arrived :
      (delivered : Bool) (accepted : List Bytes) (p : Pass W)
      → Arrived part accepted p
      → Arrived part accepted (update_delivery_health ports delivered p)
  unfolding update_delivery_health
  update_delivery_health-Arrived delivered accepted p a =
      let u = update_health p.sender.delivery_healthy delivered reporter in
      let same = peer-raises part u.1 p.calls in
      record {
        arrived = ap (λ (q : Peer). q.got) same ∙ a.arrived;
        aligned = λ e. ap (λ (q : Peer). q.phase) same ∙ a.aligned e;
      }

  -- A message is received exactly if Send says that it was delivered.
  pub send-Arrived :
      (m : Bytes) (accepted : List Bytes) (p : Pass W)
      → IsMessage m
      → Sound p
      → Arrived part accepted p
      → let a = send ports m p in Arrived part (accept a.0 m accepted) a.1
  unfolding send
  send-Arrived m accepted p h s a =
      let r = reconcile ports p in
      let t = transmit_framed ports m r.1 in
      let d = if r.0 then t else r in
      let (sound, shown) = reconcile-Sound ports p s in
      let arrived = reconcile-Arrived accepted p a in
      update_delivery_health-Arrived d.0 (accept d.0 m accepted) d.1 (
        if_lem (λ (x : Bool × Pass W). Arrived part (accept x.0 m accepted) x.1) r.0 t r
          (λ on. transmit_framed-Arrived m accepted r.1 h arrived (sym shown ∙ on))
          (λ off. rw off arrived))
