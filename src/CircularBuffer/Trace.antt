-- ===== src/CircularBuffer/Trace.antt =====
-- Any sequence of reads and writes delivers records in the order in which they were written.
use solid_syslog.Base.{
  ℕ, ◌≤◌, ap, List, [], ◌∷◌, ◌++◌, append-nil, append_assoc, Bytes, if◌then◌else◌,
}
use solid_syslog.CircularBuffer.{DiscardPolicy, Event, CircularBuffer, read, write}
use solid_syslog.CircularBuffer.Layout.{Holds}
use solid_syslog.CircularBuffer.Read.{ReadOutcome, nothing_held, taken, too_large, read_lem}
use solid_syslog.CircularBuffer.Policy.{WriteOutcome, exceeds, kept, evicting, refused}
use solid_syslog.CircularBuffer.Write.{write_lem}

-- what a client does with the buffer: a write under the policy of that moment, or a read into a
-- buffer of some size
pub data Op : Type 0 where
  put : DiscardPolicy → Bytes → Op
  get : ℕ → Op

-- the records offered for writing
abbrev pub offered : List Op → List Bytes
offered [] = []
offered (put p r ∷ ops) = r ∷ offered ops
offered (get n ∷ ops) = offered ops

-- the records handed out by reads, and the buffer in the end
unfoldable pub run : ℕ → CircularBuffer → List Op → List Bytes × CircularBuffer
run m s [] = ([], s)
run m s (put p r ∷ ops) = run m (write m s p r).0 ops
run m s (get n ∷ ops) =
    let out = read s n in
    let (rs, t) = run m out.self ops in (if out.delivered then (out.copied ∷ rs) else rs, t)

-- The first list is the second with some elements left out.
pub data Subsequence {ℓ} {A : Type ℓ} : List A → List A → Type ℓ where
  done : Subsequence [] []
  skip : {xs ys : List A} (y : A) → Subsequence xs ys → Subsequence xs (y ∷ ys)
  keep : {xs ys : List A} (y : A) → Subsequence xs ys → Subsequence (y ∷ xs) (y ∷ ys)

module _ {ℓ} {A : Type ℓ} where
  pub Subsequence-refl : (xs : List A) → Subsequence xs xs
  Subsequence-refl [] = done
  Subsequence-refl (x ∷ xs) = keep x (Subsequence-refl xs)

  pub skip_many : {xs ys : List A} (ds : List A) → Subsequence xs ys → Subsequence xs (ds ++ ys)
  skip_many [] s = s
  skip_many (d ∷ ds) s = skip d (skip_many ds s)

  -- An element may be left out in the middle.
  pub skip_middle :
      {xs : List A} (ys : List A) (z : A) (zs : List A)
      → Subsequence xs (ys ++ zs)
      → Subsequence xs (ys ++ z ∷ zs)
  skip_middle [] z zs s = skip z s
  skip_middle (y ∷ ys) z zs (skip _ s) = skip y (skip_middle ys z zs s)
  skip_middle (y ∷ ys) z zs (keep {xs = xs} _ s) = keep y (skip_middle {xs = xs} ys z zs s)

-- The buffer holds some queue, and what came out before it fits the order.
pub record Ordered (out : List Bytes × CircularBuffer) (from : List Bytes) : Type 0 where
  pub queue : List Bytes
  pub holds : Holds out.1 queue
  pub order : Subsequence (out.0 ++ queue) from

abbrev Claim : ℕ → List Op → Type 0
Claim m ops =
    (s : CircularBuffer) (q : List Bytes) → Holds s q → Ordered (run m s ops) (q ++ offered ops)

put_step :
    (m : ℕ) (p : DiscardPolicy) (r : Bytes) (ops : List Op)
    → Claim m ops
    → {s : CircularBuffer} (q : List Bytes) → Holds s q
    → WriteOutcome m p s q r (write m s p r)
    → Ordered (run m (write m s p r).0 ops) (q ++ r ∷ offered ops)
put_step m p r ops ih {s} q h (exceeds large e) =
    let o = ih s q h in
    rw (ap (λ (w : CircularBuffer × List Event). w.0) e)
      (record { queue = o.queue; holds = o.holds; order = skip_middle q r (offered ops) o.order })
put_step m p r ops ih {s} q h (kept within room holds f l v e) =
    let o = ih (write m s p r).0 (q ++ r ∷ []) holds in
    record { queue = o.queue; holds = o.holds; order = rw append_assoc at o.order }
put_step m p r ops ih {s} q h (evicting d ds rest within crowded e splits holdable holds f l v ev) =
    let o = ih (write m s p r).0 (rest ++ r ∷ []) holds in
    let order = rw append_assoc at o.order in
    rw (splits, append_assoc)
      (record { queue = o.queue; holds = o.holds; order = skip d (skip_many ds order) })
put_step m p r ops ih {s} q h (refused within crowded why holds f l v e) =
    let o = ih (write m s p r).0 q holds in
    record { queue = o.queue; holds = o.holds; order = skip_middle q r (offered ops) o.order }

get_step :
    (m n : ℕ) (ops : List Op)
    → Claim m ops
    → {s : CircularBuffer} (q : List Bytes) → Holds s q
    → ReadOutcome n s q (read s n)
    → Ordered (run m s (get n ∷ ops)) (q ++ offered ops)
unfolding run
get_step m n ops ih {s} q h (nothing_held e undelivered copied same) =
    let o = ih s q h in
    rw (undelivered, same) (record { queue = o.queue; holds = o.holds; order = o.order })
get_step m n ops ih {s} q h (taken r rs e fits delivered copied holds f) =
    let o = ih (read s n).self rs holds in
    rw (delivered, copied, e) (record { queue = o.queue; holds = o.holds; order = keep r o.order })
get_step m n ops ih {s} q h (too_large r rs e large undelivered copied holds f) =
    let o = ih (read s n).self q holds in
    rw undelivered (record { queue = o.queue; holds = o.holds; order = o.order })

-- Whatever the reads, writes and policies: from a ring that holds `q`, the records handed out,
-- followed by those held in the end, are `q` followed by the records offered for writing with some
-- left out. None is reordered, repeated, altered or made up. The limit on a message is at most 65,531.
pub run-Ordered :
    (m : ℕ) (ops : List Op) (s : CircularBuffer) (q : List Bytes)
    → m ≤ 65531
    → Holds s q
    → Ordered (run m s ops) (q ++ offered ops)
unfolding run
run-Ordered m [] s q limit h = record {
  queue = q;
  holds = h;
  order = rw append-nil (Subsequence-refl q);
}
run-Ordered m (put p r ∷ ops) s q limit h =
    put_step m p r ops (λ t u g. run-Ordered m ops t u limit g) q h (write_lem m p q r limit h)
run-Ordered m (get n ∷ ops) s q limit h =
    get_step m n ops (λ t u g. run-Ordered m ops t u limit g) q h (read_lem q n h)
