-- ===== src/CircularBuffer/Evict.antt =====
-- The loop that evicts records until a new one fits.
use solid_syslog.Base.{
  ℕ, zero, suc, ◌+◌, ◌*◌, ◌≤◌, ◌<◌, ◌≡◌, refl, ap, ◌∙◌, inl, inr, true, List, [], ◌∷◌, ◌++◌, arith,
  length, Bytes, add_size, Bool-cases, length-append, if◌then◌else◌,
}
use solid_syslog.CircularBuffer.{
  CircularBuffer, reset_to_start, is_empty, past_wrap_marker, record_fits, drop_head,
  evict_until_record_fits,
}
use solid_syslog.CircularBuffer.Layout.{Segment-le, HasRoom, Holds, flat, wrapped, Holds-HasRoom}
use solid_syslog.CircularBuffer.Access.{
  reset-Holds, is_empty-nil, is_empty-cons, past_wrap_marker-AtHead, AtHead-Entry, peek_lem,
  advance-Holds,
}

-- At most half as many records are held as the ring has bytes.
pub Holds-length : {s : CircularBuffer} (q : List Bytes) → Holds s q → 2 * length q ≤ s.capacity
Holds-length {s} q (flat room f) =
    omega (arith, Segment-le s.ring s.head s.tail q f.records, f.inside)
Holds-length {s} q (wrapped older newer e room w) = omega (
  arith,
  ap (λ (l : List Bytes). length l) e,
  length-append older newer,
  Segment-le s.ring s.head s.wrap_point older w.old_records,
  Segment-le s.ring 0 s.tail newer w.new_records,
  w.behind,
  w.inside,
)

-- An empty ring is at its start.
abbrev pub IsReset : CircularBuffer → List Bytes → Type 0
IsReset s [] = (s.head ≡ 0) × (s.tail ≡ 0)
IsReset s (r ∷ rs) = Unit {0}

-- Then it has room for any record that it could hold at all.
pub record_fits_of_reset :
    {s : CircularBuffer} (n : ℕ)
    → HasRoom s
    → (s.head ≡ 0) × (s.tail ≡ 0)
    → n ≤ s.capacity
    → record_fits s n ≡ true
unfolding record_fits
record_fits_of_reset n room start small = ground (arith, room.no_wrap)

pub record Dropped (s : CircularBuffer) (rs : List Bytes) (t : CircularBuffer) : Type 0 where
  pub holds : Holds t rs
  pub reset : IsReset t rs
  pub same_capacity : t.capacity ≡ s.capacity
  pub same_loss : t.loss_reported ≡ s.loss_reported
  pub same_eviction : t.eviction_reported ≡ s.eviction_reported

drop_moved :
    (s moved : CircularBuffer) (rs : List Bytes)
    → Holds moved rs
    → moved.capacity ≡ s.capacity
    → moved.loss_reported ≡ s.loss_reported
    → moved.eviction_reported ≡ s.eviction_reported
    → Dropped s rs (if is_empty moved then reset_to_start moved else moved)
drop_moved s moved [] h a b c = rw (is_empty-nil h) (record {
  holds = reset-Holds (Holds-HasRoom h);
  reset = (refl, refl);
  same_capacity = a;
  same_loss = b;
  same_eviction = c;
})
drop_moved s moved (r ∷ rs) h a b c =
    rw (is_empty-cons r rs h)
      (record { holds = h; reset = tt; same_capacity = a; same_loss = b; same_eviction = c })

-- `DropHead` takes the oldest record out of the queue.
pub drop_head_lem :
    {s : CircularBuffer} (r : Bytes) (rs : List Bytes)
    → Holds s (r ∷ rs)
    → Dropped s rs (drop_head s)
unfolding drop_head
drop_head_lem {s} r rs h =
    let at = past_wrap_marker-AtHead r rs h in
    let (entry, inside, room) = AtHead-Entry at in
    let p = past_wrap_marker s in
    let sum : add_size p.head (add_size 2 (length r)) ≡ p.head + 2 + length r =
      omega (arith, entry.small, room.no_wrap) in
    rw (peek_lem at, sum)
      (drop_moved s (record p { head = p.head + 2 + length r }) rs
        (advance-Holds r rs (p.head + 2 + length r) at refl) (ground arith) (ground arith)
        (ground arith))

-- The loop has dropped some of the oldest records, and the new one fits.
pub record Evicted (s : CircularBuffer) (q : List Bytes) (n : ℕ) (t : CircularBuffer) : Type 0 where
  pub dropped : List Bytes
  pub rest : List Bytes
  pub splits : q ≡ dropped ++ rest
  pub holds : Holds t rest
  pub fits : record_fits t n ≡ true
  pub same_capacity : t.capacity ≡ s.capacity
  pub same_loss : t.loss_reported ≡ s.loss_reported
  pub same_eviction : t.eviction_reported ≡ s.eviction_reported

Evicted-none :
    {s : CircularBuffer} {q : List Bytes} (n : ℕ)
    → Holds s q
    → record_fits s n ≡ true
    → Evicted s q n s
Evicted-none {s} {q} n h fits = record {
  dropped = [];
  rest = q;
  splits = refl;
  holds = h;
  fits = fits;
  same_capacity = refl;
  same_loss = refl;
  same_eviction = refl;
}

Evicted-more :
    {s t u : CircularBuffer} {rs : List Bytes} (r : Bytes) (n : ℕ)
    → Dropped s rs t
    → Evicted t rs n u
    → Evicted s (r ∷ rs) n u
Evicted-more r n d e = record {
  dropped = r ∷ e.dropped;
  rest = e.rest;
  splits = ap (◌∷◌ r) e.splits;
  holds = e.holds;
  fits = e.fits;
  same_capacity = e.same_capacity ∙ d.same_capacity;
  same_loss = e.same_loss ∙ d.same_loss;
  same_eviction = e.same_eviction ∙ d.same_eviction;
}

-- From a ring that holds a queue, with its indices reset if that is empty, for a size that the ring
-- could hold and with a round of fuel more than records, the loop ends because the record fits, and
-- has dropped only the oldest records.
pub evict_lem :
    (fuel : ℕ) {s : CircularBuffer} (q : List Bytes) (n : ℕ)
    → Holds s q
    → IsReset s q
    → n ≤ s.capacity
    → length q < fuel
    → Evicted s q n (evict_until_record_fits fuel s n)
unfolding evict_until_record_fits
evict_lem zero q n h start small enough = absurd (omega arith)
evict_lem (suc fuel) [] n h start small enough =
    let fits = record_fits_of_reset n (Holds-HasRoom h) start small in
    rw (fits, evict_until_record_fits) (Evicted-none n h fits)
evict_lem (suc fuel) {s} (r ∷ rs) n h start small enough = elim (Bool-cases (record_fits s n)) [
  | inl fits ↦ rw (fits, evict_until_record_fits) (Evicted-none n h fits)
  | inr full ↦
      let d = drop_head_lem r rs h in
      rw (full, evict_until_record_fits)
        (Evicted-more r n d
          (evict_lem fuel rs n d.holds d.reset (omega (arith, d.same_capacity)) (omega arith)))
]
