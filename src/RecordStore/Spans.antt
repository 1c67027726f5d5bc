-- ===== src/RecordStore/Spans.antt =====
-- Bytes copied into the buffer, and read back from it.
use solid_syslog.Base.{
  ℕ, zero, suc, ◌+◌, ◌≤◌, ◌<◌, ◌≡◌, ap, sym, ◌∙◌, arith, length, Bytes, byte_at, slice, blit,
  slice-blit_self,
}

pub byte_at-slice : (m : Bytes) (i n j : ℕ) → j < n → byte_at (slice m i n) j ≡ byte_at m (i + j)
unfolding slice
byte_at-slice m i zero j h = absurd (omega arith)
byte_at-slice m i (suc n) zero h = ap (byte_at m) (omega arith)
byte_at-slice m i (suc n) (suc j) h =
    byte_at-slice m (i + 1) n j (omega arith) ∙ ap (byte_at m) (omega arith)

-- A byte that was copied in.
pub byte_at-blit_inside :
    (m : Bytes) (i : ℕ) (bs : Bytes) (j k : ℕ)
    → i + length bs ≤ length m
    → j < length bs
    → k ≡ i + j
    → byte_at (blit m i bs) k ≡ byte_at bs j
byte_at-blit_inside m i bs j k fit h e =
    ap (byte_at (blit m i bs)) e
    ∙ sym (byte_at-slice (blit m i bs) i (length bs) j h)
    ∙ ap (λ (t : Bytes). byte_at t j) (slice-blit_self m i bs fit)
