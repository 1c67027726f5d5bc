-- ===== src/Senders/Stream/Link.antt =====
-- The stream is used as its contract asks, and the reports tell the health of the sender.
use mathlib.Core.Bool.{false≢true}
use solid_syslog.Base.{
  if_lem, not-true, Bool, true, false, not, List, [], ◌∷◌, ◌++◌, map, Option, none, some, Bytes,
  length, ◌≡◌, refl, ap, sym, ◌∙◌, Bool-cases, inl, inr, if◌then◌else◌,
}
use solid_syslog.Senders.{Report, update_health}
use solid_syslog.Senders.Health.{told, update_health_lem}
use solid_syslog.Senders.Stream.{
  Call, resolves, opens, sends, closes, raises, Ports, Pass, reporter, configuration_moved,
  close_stream, disconnect, disconnect_if_stale, resolve_destination, connect, ensure_connected,
  reconcile, prefix_bytes, send_bytes, transmit_framed, update_delivery_health, send,
}

-- the link as the stream's contract lets it be used: opened when closed, written and closed only
-- when open
abbrev pub after_open : Bool → Option Bool → Option Bool
after_open opened none = none
after_open opened (some true) = none
after_open opened (some false) = some opened

abbrev pub after_use : Bool → Option Bool → Option Bool
after_use still_open none = none
after_use still_open (some true) = some still_open
after_use still_open (some false) = none

-- whether the link is open, from the calls, the last one first; `none` behind a misuse
abbrev pub link : List Call → Option Bool
link [] = some false
link (resolves host port resolved ∷ cs) = link cs
link (opens opened ∷ cs) = after_open opened (link cs)
link (sends bytes sent ∷ cs) = after_use true (link cs)
link (closes ∷ cs) = after_use false (link cs)
link (raises r ∷ cs) = link cs

abbrev pub reports : List Call → List Report
reports [] = []
reports (resolves host port resolved ∷ cs) = reports cs
reports (opens opened ∷ cs) = reports cs
reports (sends bytes sent ∷ cs) = reports cs
reports (closes ∷ cs) = reports cs
reports (raises r ∷ cs) = r ∷ reports cs

link-raises : (rs : List Report) (cs : List Call) → link (map raises rs ++ cs) ≡ link cs
link-raises [] cs = refl
link-raises (r ∷ rs) cs = link-raises rs cs

reports-raises :
    (rs : List Report) (cs : List Call) → reports (map raises rs ++ cs) ≡ rs ++ reports cs
reports-raises [] cs = refl
reports-raises (r ∷ rs) cs = ap (◌∷◌ r) (reports-raises rs cs)

-- The sender knows whether the link is open, and its reports tell its health.
pub record Sound {W : Type 0} (p : Pass W) : Type 0 where
  pub linked : link p.calls ≡ some p.sender.connected
  pub telling : told (reports p.calls) ≡ some p.sender.delivery_healthy

-- The operation keeps that, and says whether it left the sender connected.
abbrev pub Shown : {W : Type 0} → Bool × Pass W → Type 0
Shown a = Sound a.1 × (a.0 ≡ a.1.sender.connected)

module _ {W : Type 0} (ports : Ports W) where
  close_stream-Sound :
      (p : Pass W) → Sound p → p.sender.connected ≡ true → Sound (close_stream ports p)
  unfolding close_stream
  close_stream-Sound p s on = record { linked = rw (s.linked, on) refl; telling = s.telling }

  -- A disconnected sender stays as it is, a connected one closes its stream.
  pub disconnect-Sound : (p : Pass W) → Sound p → Shown (false, disconnect ports p)
  unfolding disconnect
  disconnect-Sound p s =
      if_lem (λ (q : Pass W). Shown (false, q)) p.sender.connected (close_stream ports p) p
        (λ on. (close_stream-Sound p s on, unfold close_stream in refl)) (λ off. (s, sym off))

  disconnect_if_stale-Sound : (p : Pass W) → Sound p → Sound (disconnect_if_stale ports p)
  unfolding disconnect_if_stale
  disconnect_if_stale-Sound p s =
      let e = p.sender.endpoint_version p.world in
      let v = ports.version e.1 in
      let p1 : Pass W = record p { world = v.1 } in
      let same : Sound p1 = record { linked = s.linked; telling = s.telling } in
      let closed = (disconnect-Sound p1 same).0 in
      elim (Bool-cases (configuration_moved p.sender e.0 v.0)) [
        | inl moved ↦ rw moved (record { linked = closed.linked; telling = closed.telling })
        | inr stays ↦ rw stays same
      ]

  connect-Sound : (p : Pass W) → Sound p → p.sender.connected ≡ false → Shown (connect ports p)
  unfolding connect resolve_destination
  connect-Sound p s off =
      let r = resolve_destination ports p in
      let o = ports.open_stream r.1.world in
      let p2 : Pass W = record {
        sender = record p.sender { connected = o.0 };
        world = o.1;
        calls = opens o.0 ∷ r.1.calls;
      } in
      if_lem (λ (q : Pass W). Shown (q.sender.connected, q)) r.0 p2 r.1
        (λ found. (record { linked = rw (s.linked, off) refl; telling = s.telling }, refl))
        (λ lost. (record { linked = s.linked; telling = s.telling }, refl))

  pub reconcile-Sound : (p : Pass W) → Sound p → Shown (reconcile ports p)
  unfolding reconcile ensure_connected
  reconcile-Sound p s =
      let q = disconnect_if_stale ports p in
      let sound = disconnect_if_stale-Sound p s in
      if_lem Shown q.sender.connected (true, q) (connect ports q) (λ on. (sound, sym on))
        (connect-Sound q sound)

  send_bytes-Sound :
      (bytes : Bytes) (p : Pass W)
      → Sound p
      → p.sender.connected ≡ true
      → Shown (send_bytes ports bytes p)
  unfolding send_bytes
  send_bytes-Sound bytes p s on =
      let (sent, w) = ports.send bytes p.world in
      let p1 : Pass W = record p { world = w; calls = sends bytes sent ∷ p.calls } in
      let used : Sound p1 = record { linked = rw (s.linked, on) refl; telling = s.telling } in
      elim (Bool-cases sent) [
        | inl went ↦
            if_lem (λ (q : Pass W). Shown (sent, q)) (not sent) (close_stream ports p1) p1
              (λ failed. absurd (false≢true (sym (not-true sent failed) ∙ went)))
              (λ still. (used, went ∙ sym on))
        | inr failed ↦
            if_lem (λ (q : Pass W). Shown (sent, q)) (not sent) (close_stream ports p1) p1
              (λ closing. (close_stream-Sound p1 used on, unfold close_stream in failed))
              (λ still. absurd (false≢true (sym still ∙ ap not failed)))
      ]

  transmit_framed-Sound :
      (buffer : Bytes) (p : Pass W)
      → Sound p
      → p.sender.connected ≡ true
      → Shown (transmit_framed ports buffer p)
  unfolding transmit_framed
  transmit_framed-Sound buffer p s on =
      let a = send_bytes ports (prefix_bytes (length buffer)) p in
      let (sound, shown) = send_bytes-Sound (prefix_bytes (length buffer)) p s on in
      if_lem Shown a.0 (send_bytes ports buffer a.1) a
        (λ went. send_bytes-Sound buffer a.1 sound (sym shown ∙ went)) (λ failed. (sound, shown))

  -- the health is the last outcome, and the connection stays as it was
  update_delivery_health-Sound :
      (a : Bool × Pass W)
      → Shown a
      → let q = update_delivery_health ports a.0 a.1 in
        Shown (a.0, q) × (q.sender.delivery_healthy ≡ a.0)
  unfolding update_delivery_health
  update_delivery_health-Sound a (s, shown) =
      let p = a.1 in
      let u = update_health p.sender.delivery_healthy a.0 reporter in
      let (tells, same) =
        update_health_lem p.sender.delivery_healthy a.0 reporter (reports p.calls) s.telling in
      (
        (
          record {
            linked = link-raises u.1 p.calls ∙ s.linked;
            telling = ap told (reports-raises u.1 p.calls) ∙ tells;
          },
          shown,
        ),
        same,
      )

  -- what a call of Send leaves, and what it says
  pub send-Sound :
      (buffer : Bytes) (p : Pass W)
      → Sound p
      → let a = send ports buffer p in Shown a × (a.1.sender.delivery_healthy ≡ a.0)
  unfolding send
  send-Sound buffer p s =
      let r = reconcile ports p in
      let t = transmit_framed ports buffer r.1 in
      let (sound, shown) = reconcile-Sound p s in
      update_delivery_health-Sound (if r.0 then t else r) (
        if_lem Shown r.0 t r (λ on. transmit_framed-Sound buffer r.1 sound (sym shown ∙ on))
          (λ off. (sound, shown)))
