-- ===== src/CircularBuffer/Write.antt =====
-- The whole of `Write`: one of four outcomes, from any ring that holds a queue.
use mathlib.Core.Bool.{false≢true}
use solid_syslog.Base.{
  subst, sym, ℕ, suc, ◌+◌, ◌^◌, ◌≤◌, ◌<◌, ◌≡◌, ◌≢◌, refl, ap, ◌∙◌, ◌⊎◌, inl, inr, true, false, List,
  [], ◌∷◌, arith, length, Bytes, add_size, Bool-cases, leb, leb→le, if◌then◌else◌,
}
use solid_syslog.CircularBuffer.{
  DiscardPolicy, oldest, newest, halt, CircularBuffer, reset_to_start, is_empty, record_fits,
  policy_evicts_for, evict_until_record_fits, keep_or_refuse, store_applying_policy, write,
}
use solid_syslog.CircularBuffer.Layout.{Holds, flat, wrapped, Holds-HasRoom}
use solid_syslog.CircularBuffer.Access.{reset-Holds, is_empty-nil, is_empty-cons}
use solid_syslog.CircularBuffer.Evict.{
  Holds-length, IsReset, record_fits_of_reset, drop_head_lem, evict_lem,
}
use solid_syslog.CircularBuffer.Policy.{
  WriteOutcome, Room, exceeds, finish, keep_outcome, evict_outcome, refuse_outcome,
}

abbrev at_start : CircularBuffer → CircularBuffer
at_start s = if is_empty s then reset_to_start s else s

-- The first step of `StoreApplyingPolicy` keeps the queue, and puts an empty ring at its start.
record Started (s : CircularBuffer) (q : List Bytes) (t : CircularBuffer) : Type 0 where
  holds : Holds t q
  reset : IsReset t q
  same_capacity : t.capacity ≡ s.capacity
  same_loss : t.loss_reported ≡ s.loss_reported
  same_eviction : t.eviction_reported ≡ s.eviction_reported

at_start-Started : {s : CircularBuffer} (q : List Bytes) → Holds s q → Started s q (at_start s)
at_start-Started [] h = rw (is_empty-nil h) (record {
  holds = reset-Holds (Holds-HasRoom h);
  reset = (refl, refl);
  same_capacity = refl;
  same_loss = refl;
  same_eviction = refl;
})
at_start-Started (r ∷ rs) h =
    rw (is_empty-cons r rs h) (record {
      holds = h;
      reset = tt;
      same_capacity = refl;
      same_loss = refl;
      same_eviction = refl;
    })

-- The code's test says whether there is room.
record_fits-Room :
    {s : CircularBuffer} (q : List Bytes) (n : ℕ)
    → n < 2 ^ 17
    → Holds s q
    → record_fits (at_start s) n ≡ true
    → Room q s n
unfolding record_fits
record_fits-Room {s} [] n small h fits =
    let room = Holds-HasRoom h in let e = is_empty-nil h in from_start (rw e at fits)
  where
    from_start : record_fits (reset_to_start s) n ≡ true → n ≤ s.capacity
    from_start fits = let room = Holds-HasRoom h in ground (arith, room.no_wrap)
record_fits-Room {s} (d ∷ ds) n small h fits =
    behind_newest (tail-le h) (rw (is_empty-cons d ds h) at fits)
  where
    tail-le : Holds s (d ∷ ds) → s.tail ≤ s.capacity
    tail-le (flat room f) = f.inside
    tail-le (wrapped older newer e room w) = omega (arith, w.behind, w.marked, w.inside)

    behind_newest : s.tail ≤ s.capacity → record_fits s n ≡ true → Room (d ∷ ds) s n
    behind_newest inside fits = let room = Holds-HasRoom h in ground (arith, room.no_wrap)

Room-record_fits :
    {s : CircularBuffer} (q : List Bytes) (n : ℕ)
    → n < 2 ^ 17
    → Holds s q
    → Room q s n
    → record_fits (at_start s) n ≡ true
unfolding record_fits
Room-record_fits {s} [] n small h room =
    let r = Holds-HasRoom h in rw (is_empty-nil h) (ground (arith, r.no_wrap))
Room-record_fits {s} (d ∷ ds) n small h room =
    let r = Holds-HasRoom h in rw (is_empty-cons d ds h) (ground (arith, r.no_wrap))

-- Why `PolicyEvictsFor` says no.
refuse_reason :
    (s : CircularBuffer) (n : ℕ) (p : DiscardPolicy)
    → policy_evicts_for s n p ≡ false
    → (p ≢ oldest) ⊎ (s.capacity < n)
unfolding policy_evicts_for
refuse_reason s n oldest h = inr (ground arith)
refuse_reason s n newest h = inl (λ e. cc e)
refuse_reason s n halt h = inl (λ e. cc e)

evict_reason :
    (s : CircularBuffer) (n : ℕ) (p : DiscardPolicy)
    → policy_evicts_for s n p ≡ true
    → (p ≡ oldest) × (n ≤ s.capacity)
unfolding policy_evicts_for
evict_reason s n oldest h = (refl, ground arith)
evict_reason s n newest h = absurd (ground arith)
evict_reason s n halt h = absurd (ground arith)

evict_path :
    {s t : CircularBuffer} (m : ℕ) (p : DiscardPolicy) (q : List Bytes) (r : Bytes)
    → length r < 65536
    → length r ≤ m
    → ¬ Room q s (2 + length r)
    → Started s q t
    → record_fits t (add_size 2 (length r)) ≡ false
    → (p ≡ oldest) × (add_size 2 (length r) ≤ t.capacity)
    → WriteOutcome m p s q r (
        finish (
          keep_or_refuse
            (evict_until_record_fits (suc t.capacity) t (add_size 2 (length r)))
            r
            true))
unfolding evict_until_record_fits
evict_path m p [] r small within crowded st full (e, room) =
    absurd
      (cc (record_fits_of_reset (add_size 2 (length r)) (Holds-HasRoom st.holds) st.reset room))
evict_path {s} {t} m p (d ∷ ds) r small within crowded st full (e, room) =
    let n = add_size 2 (length r) in
    let dropped = drop_head_lem d ds st.holds in
    let after =
      evict_lem t.capacity ds n dropped.holds dropped.reset (omega (arith, dropped.same_capacity))
        (omega (arith, Holds-length (d ∷ ds) st.holds)) in
    rw (full, evict_until_record_fits)
      (evict_outcome m p s (d ∷ ds) r small within d after.dropped after.rest crowded e
        (ap (◌∷◌ d) after.splits) (omega (arith, room, st.same_capacity))
        (after.same_eviction ∙ dropped.same_eviction ∙ st.same_eviction) after.holds after.fits)

store_lem :
    {s : CircularBuffer} (m : ℕ) (p : DiscardPolicy) (q : List Bytes) (r : Bytes)
    → length r < 65536
    → length r ≤ m
    → Holds s q
    → WriteOutcome m p s q r (finish (store_applying_policy s p r))
unfolding store_applying_policy
store_lem {s} m p q r small within h =
    let st = at_start-Started q h in
    let t = at_start s in
    let n = add_size 2 (length r) in
    let plain : n ≡ 2 + length r = omega arith in
    elim (Bool-cases (record_fits t n)) [
      | inl fits ↦ rw fits (
          keep_outcome m p s q r small within
            (subst (Room q s) plain (record_fits-Room q n (omega arith) h fits)) st.holds fits)
      | inr full ↦
          let crowded : ¬ Room q s (2 + length r) = λ room. absurd (
            false≢true (
              sym full
              ∙ Room-record_fits q n (omega arith) h (subst (Room q s) (sym plain) room))) in
          elim (Bool-cases (policy_evicts_for t n p)) [
            | inl evicts ↦
                rw (full, evicts)
                  (evict_path m p q r small within crowded st full (evict_reason t n p evicts))
            | inr refuses ↦
                let why : (p ≢ oldest) ⊎ (s.capacity < 2 + length r) =
                  elim (refuse_reason t n p refuses) [
                    | inl other ↦ inl other
                    | inr large ↦ inr (omega (arith, st.same_capacity))
                  ] in
                rw (full, refuses)
                  (refuse_outcome m p s q r small within crowded why st.same_capacity st.same_loss
                    st.holds full)
          ]
    ]

pub write_lem :
    {s : CircularBuffer} (m : ℕ) (p : DiscardPolicy) (q : List Bytes) (r : Bytes)
    → m ≤ 65531
    → Holds s q
    → WriteOutcome m p s q r (write m s p r)
unfolding write
write_lem {s} m p q r limit h = elim (Bool-cases (leb (length r) m)) [
  | inl within ↦
      rw within (
        store_lem m p q r (omega (arith, leb→le (length r) m within)) (leb→le (length r) m within)
          h)
  | inr large ↦ rw large (exceeds (ground arith) refl)
]
