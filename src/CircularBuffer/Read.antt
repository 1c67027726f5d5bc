-- ===== src/CircularBuffer/Read.antt =====
-- What `Read` delivers, and what it leaves.
use solid_syslog.Base.{
  ℕ, ◌+◌, ◌≤◌, ◌<◌, ◌≡◌, refl, ap, sym, inl, inr, true, false, List, [], ◌∷◌, arith, length, Bytes,
  add_size, Bool-cases, leb, leb→le, le→leb,
}
use solid_syslog.CircularBuffer.{
  CircularBuffer, peek_record_size, load_record, past_wrap_marker, ReadResult, read_head, read,
}
use solid_syslog.CircularBuffer.Layout.{Holds, flat, wrapped, Holds-eq}
use solid_syslog.CircularBuffer.Access.{
  is_empty-nil, is_empty-cons, AtHead, in_flat, in_wrapped, past_wrap_marker-AtHead, AtHead-Entry,
  peek_lem, advance-Holds,
}
use solid_syslog.CircularBuffer.Layout.{Holds-latches}

-- What a read into a buffer of `n` bytes may do to a ring `s` that holds `q`.
pub data ReadOutcome (n : ℕ) (s : CircularBuffer) (q : List Bytes) (out : ReadResult) : Type 0 where
  nothing_held :
      q ≡ [] → out.delivered ≡ false → out.copied ≡ [] → out.self ≡ s → ReadOutcome n s q out
  taken :
      (r : Bytes) (rs : List Bytes)
      → q ≡ r ∷ rs
      → length r ≤ n
      → out.delivered ≡ true
      → out.copied ≡ r
      → Holds out.self rs
      → out.self.full ≡ false
      → ReadOutcome n s q out
  too_large :
      (r : Bytes) (rs : List Bytes)
      → q ≡ r ∷ rs
      → n < length r
      → out.delivered ≡ false
      → out.copied ≡ []
      → Holds out.self q
      → out.self.full ≡ s.full
      → ReadOutcome n s q out

AtHead-Holds : {s : CircularBuffer} (r : Bytes) (rs : List Bytes) → AtHead s r rs → Holds s (r ∷ rs)
AtHead-Holds r rs (in_flat room f) = flat room f
AtHead-Holds r rs (in_wrapped older newer e room w) =
    wrapped (r ∷ older) newer (ap (◌∷◌ r) e) room w

full-past_wrap_marker : (s : CircularBuffer) → (past_wrap_marker s).full ≡ s.full
full-past_wrap_marker s = ground arith

-- the sums of `LoadRecord`
load_sums :
    {s : CircularBuffer} {r : Bytes} {rs : List Bytes}
    → AtHead s r rs
    → (add_size s.head 2 ≡ s.head + 2)
      × (add_size s.head (add_size 2 (length r)) ≡ s.head + 2 + length r)
load_sums {s} {r} at =
    let (entry, inside, room) = AtHead-Entry at in
    let whole = room.no_wrap in (omega (arith, entry.small), omega (arith, entry.small))

-- `LoadRecord` copies out the head record, and leaves the ring with the others.
load_record_lem :
    {s : CircularBuffer} (r : Bytes) (rs : List Bytes)
    → AtHead s r rs
    → ((load_record s).0 ≡ r) × Holds (load_record s).1 rs
unfolding load_record
load_record_lem {s} r rs at =
    let (first, whole) = load_sums at in
    let (entry, inside, room) = AtHead-Entry at in
    (
      rw (peek_lem at, first) entry.bytes,
      rw (peek_lem at, whole) (advance-Holds r rs (s.head + 2 + length r) at refl),
    )

read_head_taken :
    {s t : CircularBuffer} {q : List Bytes} (n : ℕ) (r : Bytes) (rs : List Bytes)
    → q ≡ r ∷ rs
    → AtHead s r rs
    → length r ≤ n
    → ReadOutcome n t q (read_head s n)
unfolding read_head
read_head_taken {s} n r rs e at fits =
    let (bytes, rest) = load_record_lem r rs at in
    let small : leb (peek_record_size s) n ≡ true = rw (peek_lem at) (le→leb (length r) n fits) in
    let self = (load_record s).1 in
    rw small (
      taken r rs e fits refl bytes
        (Holds-latches self.loss_reported self.eviction_reported false false rest) refl)

read_head_too_large :
    {s t : CircularBuffer} {q : List Bytes} (n : ℕ) (r : Bytes) (rs : List Bytes)
    → q ≡ r ∷ rs
    → AtHead s r rs
    → s.full ≡ t.full
    → n < length r
    → ReadOutcome n t q (read_head s n)
unfolding read_head
read_head_too_large {s} n r rs e at same big =
    let large : leb (peek_record_size s) n ≡ false = rw (peek_lem at) (ground arith) in
    rw large (
      too_large r rs e big refl refl
        (Holds-latches s.loss_reported s.eviction_reported true s.full
          (Holds-eq (sym e) (AtHead-Holds r rs at)))
        same)

-- From a ring that holds `q`, `Read` delivers nothing and changes nothing if `q` is empty; hands
-- out the oldest record and leaves the others if it fits the caller's buffer; and otherwise
-- delivers nothing and keeps every record.
pub read_lem :
    {s : CircularBuffer} (q : List Bytes) (n : ℕ) → Holds s q → ReadOutcome n s q (read s n)
unfolding read
read_lem {s} [] n h = rw (is_empty-nil h) (nothing_held refl refl refl refl)
read_lem {s} (r ∷ rs) n h =
    let at = past_wrap_marker-AtHead r rs h in
    rw (is_empty-cons r rs h) (elim (Bool-cases (leb (length r) n)) [
      | inl fits ↦ read_head_taken n r rs refl at (leb→le (length r) n fits)
      | inr large ↦ read_head_too_large n r rs refl at (full-past_wrap_marker s) (ground arith)
    ])
