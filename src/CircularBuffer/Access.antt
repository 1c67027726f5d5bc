-- ===== src/CircularBuffer/Access.antt =====
-- What the steps of `Read` and `Write` do to the queue that a ring holds.
use solid_syslog.Base.{
  ℕ, ◌+◌, ◌/◌, ◌%◌, ◌^◌, ◌≤◌, ◌≡◌, refl, sym, subst, ◌∙◌, true, false, List, [], ◌∷◌, ◌++◌, arith,
  length, Bytes, size_mod, add_size,
}
use solid_syslog.Base.Bits.{bit_or_bytes}
use solid_syslog.CircularBuffer.{
  CircularBuffer, reset_to_start, initialise, is_empty, head_at_wrap_point, peek_record_size,
  past_wrap_marker,
}
use solid_syslog.CircularBuffer.Layout.{
  Entry, Segment, Segment-le, HasRoom, Flat, Wrapped, Holds, flat, wrapped,
}

-- A buffer that `Initialise` leaves holds nothing.
pub initialise-Holds :
    (ring : Bytes) (n : ℕ) → n ≤ length ring → n + 2 ^ 17 ≤ size_mod → Holds (initialise ring n) []
unfolding initialise
initialise-Holds ring n a b =
    flat (record { storage = a; no_wrap = b })
      (record { ordered = omega arith; inside = omega arith; unmarked = refl; records = refl })

-- An emptied buffer that is reset still holds nothing.
pub reset-Holds : {s : CircularBuffer} → HasRoom s → Holds (reset_to_start s) []
reset-Holds room =
    flat (record { storage = room.storage; no_wrap = room.no_wrap })
      (record { ordered = omega arith; inside = omega arith; unmarked = refl; records = refl })

-- `IsEmpty` is true exactly if no record is held.
pub is_empty-nil : {s : CircularBuffer} → Holds s [] → is_empty s ≡ true
is_empty-nil (flat room f) = ground (arith, f.records)
is_empty-nil (wrapped [] [] e room w) = absurd (omega (arith, w.started, w.new_records))
is_empty-nil (wrapped [] (x ∷ xs) e room w) = absurd (cc e)
is_empty-nil (wrapped (x ∷ xs) newer e room w) = absurd (cc e)

pub is_empty-cons :
    {s : CircularBuffer} (r : Bytes) (rs : List Bytes) → Holds s (r ∷ rs) → is_empty s ≡ false
is_empty-cons {s} r rs (flat room f) =
    let long = Segment-le s.ring s.head s.tail (r ∷ rs) f.records in ground arith
is_empty-cons r rs (wrapped older newer e room w) = ground (arith, w.behind)

-- The head record stands at `head`, in one of the two layouts.
pub data AtHead (s : CircularBuffer) (r : Bytes) (rs : List Bytes) : Type 0 where
  in_flat : HasRoom s → Flat s (r ∷ rs) → AtHead s r rs
  in_wrapped :
      (older newer : List Bytes)
      → rs ≡ older ++ newer
      → HasRoom s
      → Wrapped s (r ∷ older) newer
      → AtHead s r rs

-- Once the wrap marker is consumed, the oldest record stands at `head`.
pub past_wrap_marker-AtHead :
    {s : CircularBuffer} (r : Bytes) (rs : List Bytes)
    → Holds s (r ∷ rs)
    → AtHead (past_wrap_marker s) r rs
past_wrap_marker-AtHead {s} r rs (flat room f) =
    let long = Segment-le s.ring s.head s.tail (r ∷ rs) f.records in
    let unmarked : head_at_wrap_point s ≡ false = ground (arith, f.inside, f.unmarked) in
    rw unmarked (in_flat room f)
past_wrap_marker-AtHead {s} r rs (wrapped [] newer e room w) =
    let at_mark : head_at_wrap_point s ≡ true = ground (arith, w.old_records) in
    rw at_mark (
      in_flat (record { storage = room.storage; no_wrap = room.no_wrap })
        (record {
          ordered = omega arith;
          inside = omega (arith, w.behind, w.marked, w.inside);
          unmarked = refl;
          records = subst (Segment s.ring 0 s.tail) (sym e) w.new_records;
        }))
past_wrap_marker-AtHead {s} r rs (wrapped (x ∷ older) newer e room w) =
    let long = Segment-le s.ring s.head s.wrap_point (x ∷ older) w.old_records in
    let unmarked : head_at_wrap_point s ≡ false = ground arith in
    let first : x ≡ r = cc e in
    let rest : rs ≡ older ++ newer = cc e in
    rw unmarked
      (in_wrapped older newer rest room (subst (λ y. Wrapped s (y ∷ older) newer) first w))

pub AtHead-Entry :
    {s : CircularBuffer} {r : Bytes} {rs : List Bytes}
    → AtHead s r rs
    → Entry s.ring s.head r × (s.head + 2 + length r ≤ s.capacity) × HasRoom s
AtHead-Entry {s} {r} {rs} (in_flat room f) =
    let long = Segment-le s.ring (s.head + 2 + length r) s.tail rs f.records.1 in
    (f.records.0, omega (arith, f.inside), room)
AtHead-Entry {s} {r} {rs} (in_wrapped older newer e room w) =
    let long = Segment-le s.ring (s.head + 2 + length r) s.wrap_point older w.old_records.1 in
    (w.old_records.0, omega (arith, w.inside), room)

-- `PeekRecordSize` reads the size of the record at the head.
pub peek_lem :
    {s : CircularBuffer} {r : Bytes} {rs : List Bytes}
    → AtHead s r rs
    → peek_record_size s ≡ length r
unfolding peek_record_size
peek_lem {s} {r} at =
    let (entry, inside, room) = AtHead-Entry at in
    let next : add_size s.head 1 ≡ s.head + 1 = omega (arith, room.no_wrap) in
    rw (next, entry.low, entry.high)
      (bit_or_bytes (length r % 256) (length r / 256) (omega arith) (omega (arith, entry.small))
        ∙ omega arith)

-- Moving the head past its record leaves the others.
pub advance-Holds :
    {s : CircularBuffer} (r : Bytes) (rs : List Bytes) (h : ℕ)
    → AtHead s r rs
    → s.head + 2 + length r ≡ h
    → Holds (record s { head = h }) rs
advance-Holds {s} r rs h (in_flat room f) e =
    let rest : Segment s.ring h s.tail rs = subst (λ k. Segment s.ring k s.tail rs) e f.records.1 in
    let long = Segment-le s.ring h s.tail rs rest in
    flat (record { storage = room.storage; no_wrap = room.no_wrap })
      (record { ordered = omega arith; inside = f.inside; unmarked = f.unmarked; records = rest })
advance-Holds {s} r rs h (in_wrapped older newer eq room w) e =
    let rest : Segment s.ring h s.wrap_point older =
      subst (λ k. Segment s.ring k s.wrap_point older) e w.old_records.1 in
    let long = Segment-le s.ring h s.wrap_point older rest in
    wrapped older newer eq (record { storage = room.storage; no_wrap = room.no_wrap })
      (record {
        behind = omega (arith, w.behind);
        started = w.started;
        marked = omega arith;
        inside = w.inside;
        old_records = rest;
        new_records = w.new_records;
      })
