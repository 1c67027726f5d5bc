-- ===== src/Senders/Datagram/Keeps.antt =====
-- Sending keeps the contract of the socket and the truth of the reports.
use solid_syslog.Base.{
  Bool, true, false, not, ltb, if◌then◌else◌, List, [], ◌∷◌, ◌++◌, map, Option, none, some, Bytes,
  length, take, ◌≡◌, refl, ap, sym, ◌∙◌, Bool-cases, inl, inr, if_lem, not-true,
}
use solid_syslog.UdpPayload.{trim_to_codepoint_boundary}
use solid_syslog.Senders.{Report, update_health}
use solid_syslog.Senders.Health.{told, update_health_lem}
use solid_syslog.Senders.Datagram.{
  SendResult, sent, oversize, failed, Call, raises, Ports, Pass, reporter, is_sent, is_failed,
  was_discarded, raise, reconcile, send_to, max_payload, failure_was_oversize,
  report_record_too_large, retry_after_oversize, reclassify, transmit_datagram, deliver,
  update_delivery_health, send,
}
use solid_syslog.Senders.Datagram.Log.{socket, reports, loss_told, Sound}
use solid_syslog.Senders.Datagram.Connect.{reconcile-Sound}

-- It leaves a connected sender connected.
abbrev pub Going : {W : Type 0} → Pass W → Type 0
Going p = Sound p × (p.sender.connected ≡ true)

reports-raises :
    (rs : List Report) (cs : List Call) → reports (map raises rs ++ cs) ≡ rs ++ reports cs
reports-raises [] cs = refl
reports-raises (r ∷ rs) cs = ap (◌∷◌ r) (reports-raises rs cs)

socket-raises : (rs : List Report) (cs : List Call) → socket (map raises rs ++ cs) ≡ socket cs
socket-raises [] cs = refl
socket-raises (r ∷ rs) cs = socket-raises rs cs

-- Reports of the health tell no loss.
loss_told-health :
    (healthy delivered : Bool) (cs : List Call)
    → loss_told (map raises (update_health healthy delivered reporter).1 ++ cs) ≡ loss_told cs
unfolding update_health
loss_told-health true true cs = refl
loss_told-health true false cs = refl
loss_told-health false true cs = refl
loss_told-health false false cs = refl

module _ {W : Type 0} (ports : Ports W) where
  send_to-Going : (bytes : Bytes) (p : Pass W) → Going p → Going (send_to ports bytes p).1
  unfolding send_to
  send_to-Going bytes p (s, on) = answered (ports.send_to bytes p.world).0 refl
    where
      answered :
          (result : SendResult)
          → (ports.send_to bytes p.world).0 ≡ result
          → Going (send_to ports bytes p).1
      answered sent e = rw e (
        record { held = rw (s.held, on) refl; telling = s.telling; losses = rw s.losses refl },
        on,
      )
      answered oversize e =
          rw e (record { held = rw (s.held, on) refl; telling = s.telling; losses = s.losses }, on)
      answered failed e =
          rw e (record { held = rw (s.held, on) refl; telling = s.telling; losses = s.losses }, on)

  max_payload-Going : (p : Pass W) → Going p → Going (max_payload ports p).1
  unfolding max_payload
  max_payload-Going p (s, on) =
      (record { held = s.held; telling = s.telling; losses = s.losses }, on)

  report_record_too_large-Going : (p : Pass W) → Going p → Going (report_record_too_large ports p)
  unfolding report_record_too_large raise
  report_record_too_large-Going p (s, on) =
      elim (Bool-cases (not p.sender.record_too_large_reported)) [
        | inl first ↦ rw first (
          record {
            held = s.held;
            telling = s.telling;
            losses = rw (s.losses, not-true p.sender.record_too_large_reported first) refl;
          },
          on,
        )
        | inr again ↦ rw again (s, on)
      ]

  retry_after_oversize-Going :
      (buffer : Bytes) (p : Pass W) → Going p → Going (retry_after_oversize ports buffer p).1
  unfolding retry_after_oversize
  retry_after_oversize-Going buffer p g =
      let m = max_payload ports p in
      let g1 = max_payload-Going p g in
      let trimmed =
        trim_to_codepoint_boundary buffer
          (if ltb (length buffer) m.0 then length buffer else m.0) in
      let r = if ltb 0 trimmed then send_to ports (take trimmed buffer) m.1 else (oversize, m.1) in
      let g2 : Going r.1 =
        if_lem (λ (x : SendResult × Pass W). Going x.1) (ltb 0 trimmed)
          (send_to ports (take trimmed buffer) m.1) (oversize, m.1)
          (λ some_left. send_to-Going (take trimmed buffer) m.1 g1) (λ nothing. g1) in
      if_lem Going (was_discarded r.0) (report_record_too_large ports r.1) r.1
        (λ lost. report_record_too_large-Going r.1 g2) (λ taken. g2)

  transmit_datagram-Going :
      (buffer : Bytes) (p : Pass W) → Going p → Going (transmit_datagram ports buffer p).1
  unfolding transmit_datagram failure_was_oversize
  transmit_datagram-Going buffer p g =
      let first = send_to ports buffer p in
      let g1 = send_to-Going buffer p g in
      let r = reclassify ports buffer first in
      let f = failure_was_oversize ports (length buffer) first.1 in
      let g2 : Going r.1 =
        if_lem (λ (x : SendResult × Pass W). Going x.1) (is_failed first.0)
          (if f.0 then oversize else first.0, f.1) first (λ lost. max_payload-Going first.1 g1)
          (λ other. g1) in
      if_lem (λ (x : SendResult × Pass W). Going x.1) (was_discarded r.0)
        (retry_after_oversize ports buffer r.1) r
        (λ large. retry_after_oversize-Going buffer r.1 g2) (λ other. g2)

  deliver-Sound : (buffer : Bytes) (p : Pass W) → Sound p → Sound (deliver ports buffer p).1
  unfolding deliver
  deliver-Sound buffer p s =
      let r = reconcile ports p in
      let (sound, shown) = reconcile-Sound ports p s in
      if_lem (λ (x : SendResult × Pass W). Sound x.1) r.0 (transmit_datagram ports buffer r.1)
        (failed, r.1) (λ on. (transmit_datagram-Going buffer r.1 (sound, sym shown ∙ on)).0)
        (λ off. sound)

  -- the health is told, and nothing else
  update_delivery_health-Sound :
      (delivered : Bool) (p : Pass W)
      → Sound p
      → let q = update_delivery_health ports delivered p in
        Sound q × (q.sender.delivery_healthy ≡ delivered)
  unfolding update_delivery_health update_health
  update_delivery_health-Sound delivered p s =
      let u = update_health p.sender.delivery_healthy delivered reporter in
      let (tells, same) =
        update_health_lem p.sender.delivery_healthy delivered reporter (reports p.calls)
          s.telling in
      (
        record {
          held = socket-raises u.1 p.calls ∙ s.held;
          telling = ap told (reports-raises u.1 p.calls) ∙ tells;
          losses = loss_told-health p.sender.delivery_healthy delivered p.calls ∙ s.losses;
        },
        same,
      )

  pub send-Sound : (buffer : Option Bytes) (p : Pass W) → Sound p → Sound (send ports buffer p).1
  unfolding send raise
  send-Sound none p s = record { held = s.held; telling = s.telling; losses = s.losses }
  send-Sound (some buffer) p s =
      let d = deliver ports buffer p in
      let sound = deliver-Sound buffer p s in
      if_lem Sound (not (was_discarded d.0)) (update_delivery_health ports (is_sent d.0) d.1) d.1
        (λ tells. (update_delivery_health-Sound (is_sent d.0) d.1 sound).0) (λ says_nothing. sound)
