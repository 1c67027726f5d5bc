-- ===== src/CircularBuffer/Layout.antt =====
-- How the bytes of a ring stand for a queue of records, oldest first.
use solid_syslog.Base.{
  ℕ, Bool, ◌+◌, ◌*◌, ◌/◌, ◌%◌, ◌^◌, ◌≤◌, ◌<◌, ◌≡◌, ap, sym, subst, ◌∙◌, List, [], ◌∷◌, ◌++◌, arith,
  length, Bytes, byte_at, slice, slice-congr, size_mod,
}
use solid_syslog.CircularBuffer.{CircularBuffer}

-- A record stands at index `i`: two bytes of length, low byte first, and its bytes.
pub record Entry (m : Bytes) (i : ℕ) (r : Bytes) : Type 0 where
  pub low : byte_at m i ≡ length r % 256
  pub high : byte_at m (i + 1) ≡ length r / 256
  pub bytes : slice m (i + 2) (length r) ≡ r
  pub small : length r < 65536

-- The records stand back to back from `h` up to `t`.
abbrev pub Segment : Bytes → ℕ → ℕ → List Bytes → Type 0
Segment m h t [] = h ≡ t
Segment m h t (r ∷ rs) = Entry m h r × Segment m (h + 2 + length r) t rs

-- The two arrays hold the same bytes from `a` up to `b`.
abbrev pub Agree : Bytes → Bytes → ℕ → ℕ → Type 0
Agree m m' a b = (j : ℕ) → a ≤ j → j < b → byte_at m' j ≡ byte_at m j

pub Segment-le : (m : Bytes) (h t : ℕ) (rs : List Bytes) → Segment m h t rs → h + 2 * length rs ≤ t
Segment-le m h t [] s = omega arith
Segment-le m h t (r ∷ rs) s = omega (arith, Segment-le m (h + 2 + length r) t rs s.1)

Entry-Agree :
    (m m' : Bytes) (i b : ℕ) (r : Bytes)
    → Agree m m' i b
    → i + 2 + length r ≤ b
    → Entry m i r
    → Entry m' i r
Entry-Agree m m' i b r same fits e = record {
  low = same i (omega arith) (omega arith) ∙ e.low;
  high = same (i + 1) (omega arith) (omega arith) ∙ e.high;
  bytes =
      slice-congr m m' (i + 2) (length r) (λ j p q. same j (omega arith) (omega arith)) ∙ e.bytes;
  small = e.small;
}

-- A segment depends only on the bytes that it spans.
pub Segment-Agree :
    (m m' : Bytes) (a b h t : ℕ) (rs : List Bytes)
    → Agree m m' a b
    → a ≤ h
    → t ≤ b
    → Segment m h t rs
    → Segment m' h t rs
Segment-Agree m m' a b h t [] same p q s = s
Segment-Agree m m' a b h t (r ∷ rs) same p q s =
    let inside = Segment-le m (h + 2 + length r) t rs s.1 in
    (
      Entry-Agree m m' h b r (λ j x y. same j (omega arith) y) (omega arith) s.0,
      Segment-Agree m m' a b (h + 2 + length r) t rs same (omega arith) q s.1,
    )

-- A record behind a segment extends it.
pub Segment-snoc :
    (m : Bytes) (h t u : ℕ) (rs : List Bytes) (r : Bytes)
    → Segment m h t rs
    → Entry m t r
    → t + 2 + length r ≡ u
    → Segment m h u (rs ++ r ∷ [])
Segment-snoc m h t u [] r s e end =
    (subst (λ k. Entry m k r) (sym s) e, ap (λ k. k + 2 + length r) s ∙ end)
Segment-snoc m h t u (x ∷ rs) r s e end =
    (s.0, Segment-snoc m (h + 2 + length x) t u rs r s.1 e end)

-- The storage is there, and `size_t` sums of an index and a record do not wrap.
pub record HasRoom (s : CircularBuffer) : Type 0 where
  pub storage : s.capacity ≤ length s.ring
  pub no_wrap : s.capacity + 2 ^ 17 ≤ size_mod

-- The records run from head to tail.
pub record Flat (s : CircularBuffer) (q : List Bytes) : Type 0 where
  pub ordered : s.head ≤ s.tail
  pub inside : s.tail ≤ s.capacity
  pub unmarked : s.wrap_point ≡ s.capacity
  pub records : Segment s.ring s.head s.tail q

-- The older records run from head to the wrap point, the newer ones from the start to tail.
pub record Wrapped (s : CircularBuffer) (older newer : List Bytes) : Type 0 where
  pub behind : s.tail < s.head
  pub started : 0 < s.tail
  pub marked : s.head ≤ s.wrap_point
  pub inside : s.wrap_point ≤ s.capacity
  pub old_records : Segment s.ring s.head s.wrap_point older
  pub new_records : Segment s.ring 0 s.tail newer

-- The buffer is well formed and holds exactly these records, oldest first.
pub data Holds (s : CircularBuffer) (q : List Bytes) : Type 0 where
  flat : HasRoom s → Flat s q → Holds s q
  wrapped :
      (older newer : List Bytes)
      → q ≡ older ++ newer
      → HasRoom s
      → Wrapped s older newer
      → Holds s q

pub Holds-HasRoom : {s : CircularBuffer} {q : List Bytes} → Holds s q → HasRoom s
Holds-HasRoom (flat room f) = room
Holds-HasRoom (wrapped older newer e room w) = room

-- The queue may be replaced by an equal one.
pub Holds-eq : {s : CircularBuffer} {p q : List Bytes} → p ≡ q → Holds s p → Holds s q
Holds-eq {s} e h = subst (Holds s) e h

-- The latches say nothing of the records.
pub Holds-latches :
    {s : CircularBuffer} {q : List Bytes} (a b c d : Bool)
    → Holds s q
    → Holds
        (record s { loss_reported = a; eviction_reported = b; too_large_reported = c; full = d })
        q
Holds-latches a b c d (flat room f) =
    flat (record { storage = room.storage; no_wrap = room.no_wrap })
      (record {
        ordered = f.ordered;
        inside = f.inside;
        unmarked = f.unmarked;
        records = f.records;
      })
Holds-latches a b c d (wrapped older newer e room w) =
    wrapped older newer e (record { storage = room.storage; no_wrap = room.no_wrap })
      (record {
        behind = w.behind;
        started = w.started;
        marked = w.marked;
        inside = w.inside;
        old_records = w.old_records;
        new_records = w.new_records;
      })
