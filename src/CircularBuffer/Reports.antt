-- ===== src/CircularBuffer/Reports.antt =====
-- A run of refused writes is reported once, and so is a run of writes that evict.
use solid_syslog.Base.{
  ℕ, ◌+◌, ◌≤◌, ◌≡◌, refl, ap, ◌∙◌, Bool, true, false, List, [], ◌∷◌, ◌++◌, arith, Bytes,
  if◌then◌else◌,
}
use solid_syslog.CircularBuffer.{
  DiscardPolicy, record_refused, records_evicted, Event, report, CircularBuffer, write,
}
use solid_syslog.CircularBuffer.Layout.{Holds}
use solid_syslog.CircularBuffer.Policy.{WriteOutcome, exceeds, kept, evicting, refused}
use solid_syslog.CircularBuffer.Write.{write_lem}

-- a write: the policy of the moment and the record
abbrev pub Request : Type 0
Request = DiscardPolicy × Bytes

abbrev pub is_refusal : Event → Bool
is_refusal (report record_refused) = true
is_refusal _ = false

abbrev pub is_eviction : Event → Bool
is_eviction (report records_evicted) = true
is_eviction _ = false

pub count {ℓ} : {A : Type ℓ} → (A → Bool) → List A → ℕ
count p [] = 0
count p (x ∷ xs) = (if p x then 1 else 0) + count p xs

count-append {ℓ} :
    {A : Type ℓ} (p : A → Bool) (xs ys : List A) → count p (xs ++ ys) ≡ count p xs + count p ys
unfolding count
count-append p [] ys = omega arith
count-append p (x ∷ xs) ys = omega (arith, count-append p xs ys)

-- the writes in turn, and all the events
pub write_all : ℕ → CircularBuffer → List Request → CircularBuffer × List Event
write_all m s [] = (s, [])
write_all m s ((p, r) ∷ rest) =
    let (t, events) = write m s p r in let (u, more) = write_all m t rest in (u, events ++ more)

-- Every one of the writes ends with this latch set.
abbrev pub AllLeave : (CircularBuffer → Bool) → ℕ → CircularBuffer → List Request → Type 0
AllLeave latch m s [] = Unit {0}
AllLeave latch m s ((p, r) ∷ rest) =
    (latch (write m s p r).0 ≡ true) × AllLeave latch m (write m s p r).0 rest

-- The number of reports of a write that sets a latch, by the latch before it.
record Once (latch : CircularBuffer → Bool) (p : Event → Bool) (s : CircularBuffer)
    (out : CircularBuffer × List Event) : Type 0 where
  queue : List Bytes
  holds : Holds out.0 queue
  once : latch out.0 ≡ true → count p out.1 ≡ (if latch s then 0 else 1)

refusal-Once :
    (m : ℕ) (p : DiscardPolicy) {s : CircularBuffer} (q : List Bytes) (r : Bytes)
    (out : CircularBuffer × List Event)
    → Holds s q
    → WriteOutcome m p s q r out
    → Once (λ t. t.loss_reported) is_refusal s out
unfolding count
refusal-Once m p {s} q r out h (exceeds large e) = record {
  queue = q;
  holds = rw e h;
  once = λ l. ground (arith);
}
refusal-Once m p q r out h (kept within room holds f l v e) = record {
  queue = q ++ r ∷ [];
  holds = holds;
  once = λ g. absurd (ground arith);
}
refusal-Once m p q r out h (evicting d ds rest within crowded a b holdable holds f l v e) = record {
  queue = rest ++ r ∷ [];
  holds = holds;
  once = λ g. absurd (ground arith);
}
refusal-Once m p q r out h (refused within crowded why holds f l v e) = record {
  queue = q;
  holds = holds;
  once = λ g. rw e (ground arith);
}

eviction-Once :
    (m : ℕ) (p : DiscardPolicy) {s : CircularBuffer} (q : List Bytes) (r : Bytes)
    (out : CircularBuffer × List Event)
    → Holds s q
    → WriteOutcome m p s q r out
    → Once (λ t. t.eviction_reported) is_eviction s out
unfolding count
eviction-Once m p {s} q r out h (exceeds large e) = record {
  queue = q;
  holds = rw e h;
  once = λ l. ground (arith);
}
eviction-Once m p q r out h (kept within room holds f l v e) = record {
  queue = q ++ r ∷ [];
  holds = holds;
  once = λ g. absurd (ground arith);
}
eviction-Once m p q r out h (evicting d ds rest within crowded a b holdable holds f l v e) =
    record { queue = rest ++ r ∷ []; holds = holds; once = λ g. rw e (ground arith) }
eviction-Once m p q r out h (refused within crowded why holds f l v e) = record {
  queue = q;
  holds = holds;
  once = λ g. absurd (ground arith);
}

module _ (latch : CircularBuffer → Bool) (p : Event → Bool)
    (step : (m : ℕ) (d : DiscardPolicy) (s : CircularBuffer) (q : List Bytes) (r : Bytes)
      → m ≤ 65531
      → Holds s q
      → Once latch p s (write m s d r)) where
  all_set :
      (m : ℕ) (s : CircularBuffer) (q : List Bytes) (ws : List Request)
      → m ≤ 65531
      → Holds s q
      → latch s ≡ true
      → AllLeave latch m s ws
      → count p (write_all m s ws).1 ≡ 0
  unfolding write_all count
  all_set m s q [] limit h on all = refl
  all_set m s q ((d, r) ∷ rest) limit h on all =
      let o = step m d s q r limit h in
      let (t, events) = write m s d r in
      let more = all_set m t o.queue rest limit o.holds all.0 all.1 in
      rw (count-append p events (write_all m t rest).1)
        (omega (arith, more, o.once all.0 ∙ ap (λ b. if b then 0 else 1) on))

  once_in_a_run :
      (m : ℕ) (s : CircularBuffer) (q : List Bytes) (w : Request) (ws : List Request)
      → m ≤ 65531
      → Holds s q
      → AllLeave latch m s (w ∷ ws)
      → count p (write_all m s (w ∷ ws)).1 ≡ (if latch s then 0 else 1)
  unfolding write_all
  once_in_a_run m s q (d, r) rest limit h all =
      let o = step m d s q r limit h in
      let (t, events) = write m s d r in
      let more = all_set m t o.queue rest limit o.holds all.0 all.1 in
      rw (count-append p events (write_all m t rest).1) (omega (arith, more, o.once all.0))

-- the two kinds of run that are reported once
pub data Run : Type 0 where
  refusals evictions : Run

abbrev pub latch_of : Run → CircularBuffer → Bool
latch_of refusals self = self.loss_reported
latch_of evictions self = self.eviction_reported

abbrev pub announces : Run → Event → Bool
announces refusals = is_refusal
announces evictions = is_eviction

-- From a ring that holds a queue, a run of writes that are all refused, or leave the refusal latch
-- set, reports RECORD_REFUSED once if the latch was clear before it, and else not at all; so does a
-- run that leaves the eviction latch set with RECORDS_EVICTED. The limit on a message is at most
-- 65,531.
pub run_reports_once :
    (run : Run) (m : ℕ) (s : CircularBuffer) (q : List Bytes) (w : Request) (ws : List Request)
    → m ≤ 65531
    → Holds s q
    → AllLeave (latch_of run) m s (w ∷ ws)
    → count (announces run) (write_all m s (w ∷ ws)).1 ≡ (if latch_of run s then 0 else 1)
run_reports_once refusals =
    once_in_a_run (latch_of refusals) is_refusal
      (λ m d s q r limit h. refusal-Once m d q r (write m s d r) h (write_lem m d q r limit h))
run_reports_once evictions =
    once_in_a_run (latch_of evictions) is_eviction
      (λ m d s q r limit h. eviction-Once m d q r (write m s d r) h (write_lem m d q r limit h))
