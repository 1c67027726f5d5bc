-- ===== src/Senders/Scripts.antt =====
-- Scripts for the tests of the senders: the answers of what a sender calls.
use solid_syslog.Base.{ℕ, Bool, true, List, [], ◌∷◌}
use solid_syslog.Formatter.{Formatter, bounded_string}

-- in order; behind the last one everything succeeds
abbrev pub Script : Type 0
Script = List Bool

abbrev pub next : Script → Bool × Script
next [] = (true, [])
next (b ∷ bs) = (b, bs)

abbrev pub some_host : Formatter → Script → (Formatter × ℕ) × Script
some_host f w = ((bounded_string f (b'h' ∷ []) 1, 514), w)
