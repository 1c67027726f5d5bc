-- ===== src/Senders/Datagram/Contract.antt =====
-- Whole lives of a UDP sender: any sequence of sends and disconnects from Initialise on.
use solid_syslog.Base.{List, [], ◌∷◌, Option, some, Bytes, ◌≡◌, refl}
use solid_syslog.Senders.Health.{told}
use solid_syslog.Senders.Datagram.{Ports, Config, Pass, initialise, disconnect, send}
use solid_syslog.Senders.Datagram.Log.{socket, reports, loss_told, at_socket, Sound}
use solid_syslog.Senders.Datagram.Keeps.{send-Sound}
use solid_syslog.Senders.Datagram.Connect.{disconnect-Sound}

-- what an application asks of the sender
pub data Operation : Type 0 where
  sending : Option Bytes → Operation
  disconnecting : Operation

abbrev pub start : {W : Type 0} → Config W → W → Pass W
start config world = record { sender = initialise config; world = world; calls = [] }

module _ {W : Type 0} (ports : Ports W) where
  unfoldable pub run : List Operation → Pass W → Pass W
  run [] p = p
  run (sending buffer ∷ ops) p = run ops (send ports buffer p).1
  run (disconnecting ∷ ops) p = run ops (disconnect ports p)

  run-Sound : (ops : List Operation) (p : Pass W) → Sound p → Sound (run ops p)
  unfolding run
  run-Sound [] p s = s
  run-Sound (sending buffer ∷ ops) p s =
      run-Sound ops (send ports buffer p).1 (send-Sound ports buffer p s)
  run-Sound (disconnecting ∷ ops) p s =
      run-Sound ops (disconnect ports p) (disconnect-Sound ports p s)

  pub started-Sound :
      (config : Config W) (world : W) (ops : List Operation) → Sound (run ops (start config world))
  unfolding initialise
  started-Sound config world ops =
      run-Sound ops (start config world) (record { held = refl; telling = refl; losses = refl })

  -- Whatever resolver, socket and callbacks answer, behind any sends and disconnects from Initialise
  -- on the socket was opened only when shut and given an address only when open, and datagrams went
  -- out only over an open socket with an address: the sender is connected exactly if it is that now.
  -- The delivery failures and restorations reported alternate, and the last one tells its health. A
  -- record that was too large was reported at most once until a datagram went out again.
  pub datagram_contract :
      (config : Config W) (world : W) (ops : List Operation)
      → let p = run ops (start config world) in
        (socket p.calls ≡ at_socket p.sender.connected)
        × ((told (reports p.calls) ≡ some p.sender.delivery_healthy)
            × (loss_told p.calls ≡ some p.sender.record_too_large_reported))
  datagram_contract config world ops =
      let s = started-Sound config world ops in (s.held, (s.telling, s.losses))
