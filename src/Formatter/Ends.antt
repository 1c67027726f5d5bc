-- ===== src/Formatter/Ends.antt =====
-- The loops of BoundedString and EscapedString end by their tests.
use solid_syslog.Base.{ℕ, ◌+◌, ◌≤◌, ◌<◌, ◌≡◌, false, Bytes}
use solid_syslog.Formatter.{Formatter, EscapedContext, bounded_loop, escaped_loop}
use solid_syslog.Formatter.Bounded.{bounded_loop_ends}
use solid_syslog.Formatter.Escape.{escaped_loop_ends}

-- More fuel changes nothing: BoundedString's loop has ended by its test if it has a fuel of at least
-- the bytes left, and EscapedString's if it has more fuel than decoded bytes to go and starts at a
-- context that is not exhausted and has decoded no more than allowed.
pub string_loops_end :
    (a b : ℕ) (f : Formatter) (source : Bytes) (len max_length : ℕ) (context : EscapedContext)
    → max_length ≤ len + a
    → max_length ≤ len + b
    → context.exhausted ≡ false
    → context.decoded_length ≤ context.max_decoded_length
    → context.max_decoded_length < context.decoded_length + a
    → context.max_decoded_length < context.decoded_length + b
    → (bounded_loop a f source len max_length ≡ bounded_loop b f source len max_length)
      × (escaped_loop a context ≡ escaped_loop b context)
string_loops_end a b f source len max_length context p q on r s t =
    (bounded_loop_ends a b f source len max_length p q, escaped_loop_ends a b context on r s t)
