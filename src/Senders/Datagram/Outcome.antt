-- ===== src/Senders/Datagram/Outcome.antt =====
-- A record that Send takes has gone out, or was too large in a run of losses that was reported.
use solid_syslog.Base.{ℕ, ◌<◌, ◌≡◌, Bool, true, List, ◌∷◌, Bytes, length, take}
use solid_syslog.Senders.{Report}
use solid_syslog.Senders.Datagram.{
  asks_max_payload, SendResult, sent, oversize, failed, Call, sends_to, raises, Pass,
}

-- The network would not carry the record whole: it said so, or failed on more than it says it carries.
-- These are the last calls, the last one first.
pub data Refused (buffer : Bytes) : List Call → Type 0 where
  refused_whole : (cs : List Call) → Refused buffer (sends_to buffer oversize ∷ cs)
  failed_above :
      (n : ℕ) (cs : List Call)
      → 0 < n
      → n < length buffer
      → Refused buffer (asks_max_payload n ∷ sends_to buffer failed ∷ cs)

-- Nor was there a cut of it that it carried; a report may stand behind that.
pub data TooLarge (buffer : Bytes) : List Call → Type 0 where
  nothing_fits :
      (n : ℕ) (cs : List Call) → Refused buffer cs → TooLarge buffer (asks_max_payload n ∷ cs)
  cut_refused :
      (k n : ℕ) (cs : List Call)
      → Refused buffer cs
      → TooLarge buffer (sends_to (take k buffer) oversize ∷ asks_max_payload n ∷ cs)
  then_reported :
      (r : Report) (cs : List Call) → TooLarge buffer cs → TooLarge buffer (raises r ∷ cs)

-- The network took the record, or what it carries of one that it would not carry whole; reports may
-- stand behind that.
pub data GoneOut (buffer : Bytes) : List Call → Type 0 where
  whole_sent : (cs : List Call) → GoneOut buffer (sends_to buffer sent ∷ cs)
  cut_sent :
      (k n : ℕ) (cs : List Call)
      → 0 < k
      → Refused buffer cs
      → GoneOut buffer (sends_to (take k buffer) sent ∷ asks_max_payload n ∷ cs)
  out_reported : (r : Report) (cs : List Call) → GoneOut buffer cs → GoneOut buffer (raises r ∷ cs)

-- what the answer to the whole record says of the calls
abbrev Answered : Bytes → SendResult → List Call → Type 0
Answered buffer sent cs = GoneOut buffer cs
Answered buffer oversize cs = Refused buffer cs
Answered buffer failed cs = Unit {0}

-- and the outcome of its delivery, with what has become of the latch
abbrev Settled : {W : Type 0} → Bytes → SendResult × Pass W → Type 0
Settled buffer (sent, p) = GoneOut buffer p.calls
Settled buffer (oversize, p) = TooLarge buffer p.calls × (p.sender.record_too_large_reported ≡ true)
Settled buffer (failed, p) = Unit {0}
