-- ===== src/CircularBuffer/Append.antt =====
-- `StoreRecord` appends to the queue that a ring holds.
use solid_syslog.Base.{
  ℕ, ◌+◌, ◌/◌, ◌%◌, ◌≤◌, ◌<◌, ◌≡◌, refl, ap, ◌∙◌, true, List, [], ◌∷◌, ◌++◌, append_assoc, arith,
  length, set, Bytes, blit, byte_at-blit_before, byte_at-blit_after, slice-blit_self, length-blit,
  length-set, get_or-set_self, get_or-set_ne, size_mod, add_size,
}
use solid_syslog.CircularBuffer.{
  CircularBuffer, record_fits_at_tail, record_fits_after_wrap, wrap_tail, store_record,
}
use solid_syslog.CircularBuffer.Layout.{
  Entry, Agree, Segment-Agree, Segment-snoc, Holds, flat, wrapped,
}

-- the three writes of `StoreRecord`, at an index
abbrev stored : Bytes → ℕ → Bytes → Bytes
stored m i r = blit (set (set m i (length r % 256)) (i + 1) (length r / 256 % 256)) (i + 2) r

length-stored : (m : Bytes) (i : ℕ) (r : Bytes) → length (stored m i r) ≡ length m
length-stored m i r =
    let low = set m i (length r % 256) in
    let high = set low (i + 1) (length r / 256 % 256) in
    length-blit high (i + 2) r
    ∙ length-set low (i + 1) (length r / 256 % 256)
    ∙ length-set m i (length r % 256)

-- They put the record at the index.
stored-Entry :
    (m : Bytes) (i : ℕ) (r : Bytes)
    → i + 2 + length r ≤ length m
    → length r < 65536
    → Entry (stored m i r) i r
stored-Entry m i r fits small =
    let low = set m i (length r % 256) in
    let high = set low (i + 1) (length r / 256 % 256) in
    let low_size = length-set m i (length r % 256) in
    let high_size = length-set low (i + 1) (length r / 256 % 256) in
    record {
      low =
          byte_at-blit_before high (i + 2) r i (omega arith)
          ∙ get_or-set_ne low (i + 1) i (length r / 256 % 256) 0 (omega arith)
          ∙ get_or-set_self m i (length r % 256) 0 (omega arith);
      high =
          byte_at-blit_before high (i + 2) r (i + 1) (omega arith)
          ∙ get_or-set_self low (i + 1) (length r / 256 % 256) 0 (omega arith)
          ∙ omega arith;
      bytes = slice-blit_self high (i + 2) r (omega arith);
      small = small;
    }

-- They change nothing before the index and nothing behind the record.
stored_before : (m : Bytes) (i : ℕ) (r : Bytes) (a : ℕ) → Agree m (stored m i r) a i
stored_before m i r a j p q =
    let low = set m i (length r % 256) in
    byte_at-blit_before (set low (i + 1) (length r / 256 % 256)) (i + 2) r j (omega arith)
    ∙ get_or-set_ne low (i + 1) j (length r / 256 % 256) 0 (omega arith)
    ∙ get_or-set_ne m i j (length r % 256) 0 (omega arith)

stored_after : (m : Bytes) (i : ℕ) (r : Bytes) (b : ℕ) → Agree m (stored m i r) (i + 2 + length r) b
stored_after m i r b j p q =
    let low = set m i (length r % 256) in
    byte_at-blit_after (set low (i + 1) (length r / 256 % 256)) (i + 2) r j (omega arith)
    ∙ get_or-set_ne low (i + 1) j (length r / 256 % 256) 0 (omega arith)
    ∙ get_or-set_ne m i j (length r % 256) 0 (omega arith)

-- `StoreRecord` with its `size_t` sums resolved.
store_record_lem :
    (s : CircularBuffer) (r : Bytes)
    → s.tail + 2 + length r < size_mod
    → store_record s r ≡ record s { ring = stored s.ring s.tail r; tail = s.tail + 2 + length r }
unfolding store_record
store_record_lem s r h =
    let one : add_size s.tail 1 ≡ s.tail + 1 = omega arith in
    let two : add_size s.tail 2 ≡ s.tail + 2 = omega arith in
    let all : add_size s.tail (add_size 2 (length r)) ≡ s.tail + 2 + length r = omega arith in
    rw (one, two, all)

-- Behind the tail, where the test for it passes, the record joins the queue at its end.
pub store_at_tail :
    {s : CircularBuffer} {q : List Bytes} (r : Bytes)
    → length r < 65536
    → record_fits_at_tail s (add_size 2 (length r)) ≡ true
    → Holds s q
    → Holds (store_record s r) (q ++ r ∷ [])
store_at_tail {s} {q} r small fits (flat room f) =
    let bound : s.tail + 2 + length r ≤ s.capacity =
      ground (arith, f.ordered, f.inside, room.no_wrap) in
    rw (store_record_lem s r (omega (arith, room.no_wrap))) (
      flat
        (record {
          storage = omega (arith, room.storage, length-stored s.ring s.tail r);
          no_wrap = room.no_wrap;
        })
        (record {
          ordered = omega (arith, f.ordered);
          inside = bound;
          unmarked = f.unmarked;
          records =
              Segment-snoc (stored s.ring s.tail r) s.head s.tail (s.tail + 2 + length r) q r
                (Segment-Agree s.ring (stored s.ring s.tail r) s.head s.tail s.head s.tail q
                  (stored_before s.ring s.tail r s.head) (omega arith) (omega arith) f.records)
                (stored-Entry s.ring s.tail r (omega (arith, room.storage)) small) refl;
        }))
store_at_tail {s} {q} r small fits (wrapped older newer e room w) =
    let inside : s.tail < s.capacity = omega (arith, w.behind, w.marked, w.inside) in
    let bound : s.tail + 2 + length r < s.head = ground (arith, w.behind, room.no_wrap) in
    let old = Segment-Agree s.ring (stored s.ring s.tail r) (s.tail + 2 + length r) s.wrap_point in
    rw (store_record_lem s r (omega (arith, room.no_wrap, w.marked, w.inside))) (
      wrapped older (newer ++ r ∷ [])
        (ap (λ (l : List Bytes). l ++ r ∷ []) e ∙ append_assoc older newer (r ∷ []))
        (record {
          storage = omega (arith, room.storage, length-stored s.ring s.tail r);
          no_wrap = room.no_wrap;
        })
        (record {
          behind = bound;
          started = omega arith;
          marked = w.marked;
          inside = w.inside;
          old_records =
              old s.head s.wrap_point older (stored_after s.ring s.tail r s.wrap_point)
                (omega arith) (omega arith) w.old_records;
          new_records =
              Segment-snoc (stored s.ring s.tail r) 0 s.tail (s.tail + 2 + length r) newer r
                (Segment-Agree s.ring (stored s.ring s.tail r) 0 s.tail 0 s.tail newer
                  (stored_before s.ring s.tail r 0) (omega arith) (omega arith) w.new_records)
                (stored-Entry s.ring s.tail r (omega (arith, room.storage, w.marked, w.inside))
                  small)
                refl;
        }))

-- At the start of the ring, where only the test for that passes, the record joins it too.
pub store_after_wrap :
    {s : CircularBuffer} {q : List Bytes} (r : Bytes)
    → length r < 65536
    → record_fits_after_wrap s (add_size 2 (length r)) ≡ true
    → Holds s q
    → Holds (store_record (wrap_tail s) r) (q ++ r ∷ [])
store_after_wrap {s} {q} r small fits (flat room f) =
    let bound : 2 + length r < s.head = ground (arith, f.ordered) in
    rw (store_record_lem (wrap_tail s) r (omega (arith, room.no_wrap, f.ordered, f.inside))) (
      wrapped q (r ∷ []) refl
        (record {
          storage = omega (arith, room.storage, length-stored s.ring 0 r);
          no_wrap = room.no_wrap;
        })
        (record {
          behind = omega arith;
          started = omega arith;
          marked = f.ordered;
          inside = f.inside;
          old_records =
              Segment-Agree s.ring (stored s.ring 0 r) (0 + 2 + length r) s.tail s.head s.tail q
                (stored_after s.ring 0 r s.tail) (omega arith) (omega arith) f.records;
          new_records = (
            stored-Entry s.ring 0 r (omega (arith, room.storage, f.ordered, f.inside)) small,
            refl,
          );
        }))
store_after_wrap {s} {q} r small fits (wrapped older newer e room w) =
    absurd (ground (arith, w.behind))
