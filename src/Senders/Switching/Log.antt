-- ===== src/Senders/Switching/Log.antt =====
-- What a log of a switching sender tells: who may hold a connection, and what was reported.
use mathlib.Core.Bool.{false≢true}
use solid_syslog.Base.{
  ℕ, ◌≡◌, refl, ap, sym, Bool, true, false, ◌==◌, ==_iff, ltb, List, [], ◌∷◌, Option, none, some,
  Bytes, length, get_or, if◌then◌else◌,
}
use solid_syslog.Senders.Switching.{
  SenderRef, null_sender, inner, Call, selects, sends, disconnects, raises, Pass, same_ref,
}

-- Who may hold a connection: nobody, or the inner sender that was sent to last. `broken` is behind a
-- record for one sender while another one was not disconnected.
pub data Holder : Type 0 where
  nobody broken : Holder
  holds : ℕ → Holder

abbrev pub after_send : SenderRef → Holder → Holder
after_send null_sender h = h
after_send (inner i) nobody = holds i
after_send (inner i) broken = broken
after_send (inner i) (holds j) = if i == j then holds j else broken

abbrev pub after_disconnect : SenderRef → Holder → Holder
after_disconnect null_sender h = h
after_disconnect (inner i) nobody = nobody
after_disconnect (inner i) broken = broken
after_disconnect (inner i) (holds j) = if i == j then nobody else holds j

-- from the calls, the last one first
abbrev pub holder : List Call → Holder
holder [] = nobody
holder (selects index ∷ cs) = holder cs
holder (sends s bytes sent ∷ cs) = after_send s (holder cs)
holder (disconnects s ∷ cs) = after_disconnect s (holder cs)
holder (raises r ∷ cs) = holder cs

-- Only the sender that is current may hold a connection.
abbrev pub IsHeldBy : SenderRef → Holder → Type 0
IsHeldBy s nobody = Unit {0}
IsHeldBy s broken = ⊥
IsHeldBy s (holds i) = s ≡ inner i

abbrev pub after_report : Option Bool → Option Bool
after_report none = none
after_report (some true) = none
after_report (some false) = some true

abbrev pub rearm : Option Bool → Option Bool
rearm none = none
rearm (some told) = some false

-- whether an index out of range has been reported in the run that the calls are in, with so many
-- senders; `none` if one run reported it twice
abbrev pub range_told : ℕ → List Call → Option Bool
range_told count [] = some false
range_told count (selects index ∷ cs) =
    if ltb index count then rearm (range_told count cs) else range_told count cs
range_told count (sends s bytes sent ∷ cs) = range_told count cs
range_told count (disconnects s ∷ cs) = range_told count cs
range_told count (raises r ∷ cs) = after_report (range_told count cs)

-- the last record, where it went, and the answer
abbrev pub served : List Call → Option (SenderRef × (Bytes × Bool))
served [] = none
served (sends s bytes sent ∷ cs) = some (s, (bytes, sent))
served (c ∷ cs) = served cs

-- the sender for the last answer of the selector
abbrev pub selected : List SenderRef → List Call → SenderRef
selected senders [] = null_sender
selected senders (selects index ∷ cs) =
    if ltb index (length senders) then get_or senders index null_sender else null_sender
selected senders (c ∷ cs) = selected senders cs

pub record Sound {W : Type 0} (senders : List SenderRef) (p : Pass W) : Type 0 where
  pub fixed : p.sender.senders ≡ senders
  pub held : IsHeldBy p.sender.current_sender (holder p.calls)
  pub telling : range_told (length senders) p.calls ≡ some p.sender.out_of_range_reported

pub same_ref-eq : (s t : SenderRef) → same_ref s t ≡ true → s ≡ t
same_ref-eq null_sender null_sender e = refl
same_ref-eq null_sender (inner j) e = absurd (false≢true e)
same_ref-eq (inner i) null_sender e = absurd (false≢true e)
same_ref-eq (inner i) (inner j) e = ap inner ((==_iff i j).0 e)

inner_index : (i j : ℕ) → inner i ≡ inner j → (i == j) ≡ true
inner_index i j e = (==_iff i j).1 (ap index_of e)
  where
    index_of : SenderRef → ℕ
    index_of null_sender = 0
    index_of (inner k) = k

abbrev is_null : SenderRef → Bool
is_null null_sender = true
is_null (inner k) = false

-- A disconnected sender holds nothing, whatever is current next.
pub disconnected : (s : SenderRef) (h : Holder) → IsHeldBy s h → after_disconnect s h ≡ nobody
disconnected null_sender nobody e = refl
disconnected null_sender broken e = absurd e
disconnected null_sender (holds i) e = absurd (false≢true (sym (ap is_null e)))
disconnected (inner i) nobody e = refl
disconnected (inner i) broken e = absurd e
disconnected (inner i) (holds j) e = rw (inner_index i j e) refl

pub sent_to : (s : SenderRef) (h : Holder) → IsHeldBy s h → IsHeldBy s (after_send s h)
sent_to null_sender h e = e
sent_to (inner i) nobody e = refl
sent_to (inner i) broken e = e
sent_to (inner i) (holds j) e = rw (inner_index i j e) e
