-- ===== src/Senders/Switching/Contract.antt =====
-- Whole lives of a switching sender: any sequence of sends and disconnects from Initialise on.
use solid_syslog.Base.{
  ◌≡◌, refl, ap, sym, subst, ◌∙◌, Bool, true, false, not, ltb, List, [], ◌∷◌, some, Bytes, length,
  get_or, Bool-cases, inl, inr, if_lem, not-true,
}
use solid_syslog.Senders.Switching.{
  SenderRef, null_sender, selects, Ports, Pass, initialise, same_ref, disconnect, switch_to,
  report_out_of_range, requested_sender, select_sender, send,
}
use solid_syslog.Senders.Switching.Log.{
  holder, IsHeldBy, range_told, served, selected, Sound, same_ref-eq, disconnected, sent_to,
}

module _ {W : Type 0} (ports : Ports W) (senders : List SenderRef) where
  disconnect-Sound : (p : Pass W) → Sound senders p → Sound senders (disconnect ports p)
  unfolding disconnect
  disconnect-Sound p s = record {
    fixed = s.fixed;
    held = rw (disconnected p.sender.current_sender (holder p.calls) s.held) tt;
    telling = s.telling;
  }

  -- the sender that was asked for, and that the report is right
  Asked : SenderRef × Pass W → Type 0
  Asked r = Sound senders r.1 × (r.0 ≡ selected senders r.1.calls)

  requested_sender-Asked : (p : Pass W) → Sound senders p → Asked (requested_sender ports p)
  unfolding requested_sender report_out_of_range Asked
  requested_sender-Asked p s =
      let (index, w) = ports.selector p.world in
      let p1 : Pass W = record p { world = w; calls = selects index ∷ p.calls } in
      let in_range : (b : Bool)
          → ltb index (length p.sender.senders) ≡ b
          → ltb index (length senders) ≡ b =
        λ b e. ap (λ (l : List SenderRef). ltb index (length l)) (sym s.fixed) ∙ e in
      if_lem Asked (ltb index (length p.sender.senders))
        (
          get_or p.sender.senders index null_sender,
          record p1 { sender = record p.sender { out_of_range_reported = false } },
        )
        (null_sender, report_out_of_range ports p1)
        (λ inside. (
          record {
            fixed = s.fixed;
            held = s.held;
            telling = rw (in_range true inside, s.telling) refl;
          },
          ap (λ (l : List SenderRef). get_or l index null_sender) s.fixed
              ∙ rw (in_range true inside) refl,
        ))
        (λ outside. outside_lem (in_range false outside) s)
    where
      outside_lem :
          ltb (ports.selector p.world).0 (length senders) ≡ false
          → Sound senders p
          → Asked (
            null_sender,
            report_out_of_range ports (record p {
              world = (ports.selector p.world).1;
              calls = selects (ports.selector p.world).0 ∷ p.calls;
            }),
          )
      outside_lem out s = elim (Bool-cases (not p.sender.out_of_range_reported)) [
        | inl first ↦ rw first (
          record {
            fixed = s.fixed;
            held = s.held;
            telling = rw (out, s.telling, not-true p.sender.out_of_range_reported first) refl;
          },
          rw out refl,
        )
        | inr again ↦
            rw again
              (record { fixed = s.fixed; held = s.held; telling = rw out s.telling }, rw out refl)
      ]

  select_sender-Selected :
      (p : Pass W)
      → Sound senders p
      → let q = select_sender ports p in
        Sound senders q × (q.sender.current_sender ≡ selected senders q.calls)
  unfolding select_sender switch_to disconnect Asked
  select_sender-Selected p s =
      let r = requested_sender ports p in
      let (sound, asked) = requested_sender-Asked p s in
      elim (Bool-cases (same_ref r.0 r.1.sender.current_sender)) [
        | inl same ↦ rw same (sound, sym (same_ref-eq r.0 r.1.sender.current_sender same) ∙ asked)
        | inr other ↦ rw other (
          record {
            fixed = sound.fixed;
            held = rw (disconnected r.1.sender.current_sender (holder r.1.calls) sound.held) tt;
            telling = sound.telling;
          },
          asked,
        )
      ]

  -- what a call of Send leaves
  send-Served :
      (m : Bytes) (p : Pass W)
      → Sound senders p
      → let a = send ports m p in
        Sound senders a.1
        × ((a.1.sender.current_sender ≡ selected senders a.1.calls)
            × (served a.1.calls ≡ some (a.1.sender.current_sender, (m, a.0))))
  unfolding send
  send-Served m p s =
      let q = select_sender ports p in
      let (sound, chosen) = select_sender-Selected p s in
      (
        record {
          fixed = sound.fixed;
          held = sent_to q.sender.current_sender (holder q.calls) sound.held;
          telling = sound.telling;
        },
        (chosen, refl),
      )

-- what an application asks of the sender
pub data Operation : Type 0 where
  sending : Bytes → Operation
  disconnecting : Operation

abbrev pub start : {W : Type 0} → List SenderRef → W → Pass W
start senders world = record { sender = initialise senders; world = world; calls = [] }

module _ {W : Type 0} (ports : Ports W) where
  unfoldable pub run : List Operation → Pass W → Pass W
  run [] p = p
  run (sending m ∷ ops) p = run ops (send ports m p).1
  run (disconnecting ∷ ops) p = run ops (disconnect ports p)

module _ {W : Type 0} (ports : Ports W) (senders : List SenderRef) where
  run-Sound :
      (ops : List Operation) (p : Pass W) → Sound senders p → Sound senders (run ports ops p)
  unfolding run
  run-Sound [] p s = s
  run-Sound (sending m ∷ ops) p s =
      run-Sound ops (send ports m p).1 (send-Served ports senders m p s).0
  run-Sound (disconnecting ∷ ops) p s =
      run-Sound ops (disconnect ports p) (disconnect-Sound ports senders p s)

  -- Behind any sends and disconnects from Initialise on, another Send hands the record to the sender
  -- that the selector's index names, or to the NullSender for an index out of range, and says its
  -- answer. No inner sender was ever sent to while another one, sent to before, was not disconnected
  -- since: only the current sender may hold a connection. An index out of range was reported at most
  -- once until an index in range came.
  pub switching_contract :
      (world : W) (ops : List Operation) (m : Bytes)
      → let a = send ports m (run ports ops (start senders world)) in
        (served a.1.calls ≡ some (selected senders a.1.calls, (m, a.0)))
        × (IsHeldBy (selected senders a.1.calls) (holder a.1.calls)
            × (range_told (length senders) a.1.calls ≡ some a.1.sender.out_of_range_reported))
  unfolding initialise
  switching_contract world ops m =
      let p = run ports ops (start senders world) in
      let a = send ports m p in
      let sound : Sound senders p =
        run-Sound ops (start senders world) (record { fixed = refl; held = tt; telling = refl }) in
      let (after, (chosen, hands)) = send-Served ports senders m p sound in
      (
        hands ∙ ap (λ (s : SenderRef). some (s, (m, a.0))) chosen,
        (subst (λ (s : SenderRef). IsHeldBy s (holder a.1.calls)) chosen after.held, after.telling),
      )
