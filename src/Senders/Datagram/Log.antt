-- ===== src/Senders/Datagram/Log.antt =====
-- What a log of a UDP sender tells: how the socket was used, and which reports were raised.
use solid_syslog.Base.{Bool, true, false, if◌then◌else◌, List, [], ◌∷◌, Option, none, some, ◌≡◌}
use solid_syslog.Senders.{
  Category, delivery_failed, delivery_restored, records_lost, bad_argument, Report,
}
use solid_syslog.Senders.Health.{told}
use solid_syslog.Senders.Datagram.{
  Call, resolves, opens, sends_to, asks_max_payload, closes, raises, Pass, is_sent,
}

-- Where the socket stands: closed, open, or open with an address to send to.
pub data Socket : Type 0 where
  shut unaddressed ready misused : Socket

abbrev pub after_open : Bool → Socket → Socket
after_open opened shut = if opened then unaddressed else shut
after_open opened unaddressed = misused
after_open opened ready = misused
after_open opened misused = misused

abbrev pub after_resolve : Bool → Socket → Socket
after_resolve resolved shut = misused
after_resolve resolved unaddressed = if resolved then ready else unaddressed
after_resolve resolved ready = misused
after_resolve resolved misused = misused

-- A datagram needs an open socket and an address.
abbrev pub after_send : Socket → Socket
after_send shut = misused
after_send unaddressed = misused
after_send ready = ready
after_send misused = misused

abbrev pub after_close : Socket → Socket
after_close shut = shut
after_close unaddressed = shut
after_close ready = shut
after_close misused = misused

-- from the calls, the last one first
abbrev pub socket : List Call → Socket
socket [] = shut
socket (resolves host port resolved ∷ cs) = after_resolve resolved (socket cs)
socket (opens opened ∷ cs) = after_open opened (socket cs)
socket (sends_to bytes result ∷ cs) = after_send (socket cs)
socket (asks_max_payload n ∷ cs) = socket cs
socket (closes ∷ cs) = after_close (socket cs)
socket (raises r ∷ cs) = socket cs

abbrev pub reports : List Call → List Report
reports [] = []
reports (resolves host port resolved ∷ cs) = reports cs
reports (opens opened ∷ cs) = reports cs
reports (sends_to bytes result ∷ cs) = reports cs
reports (asks_max_payload n ∷ cs) = reports cs
reports (closes ∷ cs) = reports cs
reports (raises r ∷ cs) = r ∷ reports cs

-- A loss may be told once until a datagram has gone to the network.
abbrev pub after_loss : Option Bool → Option Bool
after_loss none = none
after_loss (some true) = none
after_loss (some false) = some true

abbrev pub after_raise : Category → Option Bool → Option Bool
after_raise delivery_failed t = t
after_raise delivery_restored t = t
after_raise records_lost t = after_loss t
after_raise bad_argument t = t

abbrev pub rearm : Option Bool → Option Bool
rearm none = none
rearm (some told) = some false

-- whether a loss has been told in the run that the calls, the last one first, are in; `none` if
-- one run told it twice
abbrev pub loss_told : List Call → Option Bool
loss_told [] = some false
loss_told (resolves host port resolved ∷ cs) = loss_told cs
loss_told (opens opened ∷ cs) = loss_told cs
loss_told (sends_to bytes result ∷ cs) =
    if is_sent result then rearm (loss_told cs) else loss_told cs
loss_told (asks_max_payload n ∷ cs) = loss_told cs
loss_told (closes ∷ cs) = loss_told cs
loss_told (raises r ∷ cs) = after_raise r.category (loss_told cs)

abbrev pub at_socket : Bool → Socket
at_socket connected = if connected then ready else shut

pub record Sound {W : Type 0} (p : Pass W) : Type 0 where
  pub held : socket p.calls ≡ at_socket p.sender.connected
  pub telling : told (reports p.calls) ≡ some p.sender.delivery_healthy
  pub losses : loss_told p.calls ≡ some p.sender.record_too_large_reported
