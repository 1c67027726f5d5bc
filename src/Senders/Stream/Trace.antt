-- ===== src/Senders/Stream/Trace.antt =====
-- Whole lives of a stream sender: any sequence of sends and disconnects from Initialise on.
use solid_syslog.Base.{ℕ, ◌≡◌, refl, ap, sym, ◌∙◌, List, [], ◌∷◌, some, Bytes}
use solid_syslog.Senders.Health.{told}
use solid_syslog.Senders.Stream.{Ports, Config, Pass, initialise, disconnect, send}
use solid_syslog.Senders.Stream.Link.{link, reports, Sound, disconnect-Sound, send-Sound}
use solid_syslog.Senders.Stream.Peer.{peer, IsMessage}
use solid_syslog.Senders.Stream.Arrival.{Arrived, accept, disconnect-Arrived, send-Arrived}

-- what an application asks of the sender
pub data Operation : Type 0 where
  sending : Bytes → Operation
  disconnecting : Operation

abbrev pub AllMessages : List Operation → Type 0
AllMessages [] = Unit {0}
AllMessages (sending m ∷ ops) = IsMessage m × AllMessages ops
AllMessages (disconnecting ∷ ops) = AllMessages ops

abbrev pub start : {W : Type 0} → Config W → W → Pass W
start config world = record { sender = initialise config; world = world; calls = [] }

module _ {W : Type 0} (ports : Ports W) where
  -- the pass behind the operations, and the messages that Send said it had delivered, the last
  -- one first
  unfoldable pub run : List Operation → List Bytes → Pass W → List Bytes × Pass W
  run [] delivered p = (delivered, p)
  run (sending m ∷ ops) delivered p = let a = send ports m p in run ops (accept a.0 m delivered) a.1
  run (disconnecting ∷ ops) delivered p = run ops delivered (disconnect ports p)

  start-Sound : (config : Config W) (world : W) → Sound (start config world)
  unfolding initialise
  start-Sound config world = record { linked = refl; telling = refl }

  run-Sound :
      (ops : List Operation) (delivered : List Bytes) (p : Pass W)
      → Sound p
      → Sound (run ops delivered p).1
  unfolding run
  run-Sound [] delivered p s = s
  run-Sound (sending m ∷ ops) delivered p s =
      let a = send ports m p in
      run-Sound ops (accept a.0 m delivered) a.1 (send-Sound ports m p s).0.0
  run-Sound (disconnecting ∷ ops) delivered p s =
      run-Sound ops delivered (disconnect ports p) (disconnect-Sound ports p s).0

  -- Whatever resolver, stream and callbacks answer, behind any sends and disconnects from Initialise
  -- on the calls have used the stream as its contract asks: it was opened only when closed, and
  -- written and closed only when open. The sender is connected exactly if they leave it open.
  pub stream_contract :
      (config : Config W) (world : W) (ops : List Operation)
      → let p = (run ops [] (start config world)).1 in link p.calls ≡ some p.sender.connected
  stream_contract config world ops =
      (run-Sound ops [] (start config world) (start-Sound config world)).linked

  -- Behind any sends and disconnects from Initialise on, another Send leaves the sender connected
  -- exactly if it says that it delivered. The delivery failures and restorations reported until then
  -- alternate, the first one a failure, and the last one tells whether it delivered.
  pub send_outcome :
      (config : Config W) (world : W) (ops : List Operation) (m : Bytes)
      → let a = send ports m (run ops [] (start config world)).1 in
        (a.1.sender.connected ≡ a.0) × (told (reports a.1.calls) ≡ some a.0)
  send_outcome config world ops m =
      let p = (run ops [] (start config world)).1 in
      let ((sound, shown), health) =
        send-Sound ports m p (run-Sound ops [] (start config world) (start-Sound config world)) in
      (sym shown, sound.telling ∙ ap some health)

  run-Arrived :
      (part : Bytes → ℕ) (ops : List Operation) (delivered : List Bytes) (p : Pass W)
      → AllMessages ops
      → Sound p
      → Arrived part delivered p
      → let r = run ops delivered p in Arrived part r.0 r.1
  unfolding run
  run-Arrived part [] delivered p h s a = a
  run-Arrived part (sending m ∷ ops) delivered p h s a =
      let b = send ports m p in
      run-Arrived part ops (accept b.0 m delivered) b.1 h.1 (send-Sound ports m p s).0.0
        (send-Arrived ports part m delivered p h.0 s a)
  run-Arrived part (disconnecting ∷ ops) delivered p h s a =
      run-Arrived part ops delivered (disconnect ports p) h (disconnect-Sound ports p s).0
        (disconnect-Arrived ports part delivered p a)

  -- A receiver of octet-counted frames, of which every write that fails may deliver any part but its
  -- last byte, receives the messages that Send said it delivered, in that order and no others,
  -- whatever disconnects and reconnects there were, if no message is empty and their lengths have 32
  -- bits.
  pub received_are_delivered :
      (part : Bytes → ℕ) (config : Config W) (world : W) (ops : List Operation)
      → AllMessages ops
      → let r = run ops [] (start config world) in (peer part r.1.calls).got ≡ r.0
  received_are_delivered part config world ops h =
      (run-Arrived part ops [] (start config world) h (start-Sound config world)
        (record { arrived = refl; aligned = λ e. refl })).arrived
