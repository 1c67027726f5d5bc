-- ===== src/Utf8/Boundary.antt =====
-- Where a cut text has to end to be well-formed.
use solid_syslog.Base.{
  ℕ, ◌+◌, ◌≤◌, ◌<◌, ◌≡◌, ap, sym, subst, ◌∙◌, arith, length, take, Bytes, length-take, take-append,
  take-take,
}
use solid_syslog.Utf8.Scalar.{encode, WellFormed}
use solid_syslog.Utf8.Cut.{Cut, Cut-CutBytes, whole_longest}

-- The cut is at `k`: what stands before it is well-formed, no longer prefix is, and fewer than
-- four bytes are given up.
pub record CutsAt (w : Bytes) (n k : ℕ) : Type 0 where
  pub well_formed : WellFormed (take k w)
  pub within_limit : k ≤ n
  pub few : n < k + 4
  pub longest : (j : ℕ) → j ≤ n → WellFormed (take j w) → j ≤ k

-- The whole code points are a prefix of the text.
prefix_whole :
    (w : Bytes) (n : ℕ) (c : Cut (take n w))
    → length c.whole ≤ n
    → take (length c.whole) w ≡ c.whole
prefix_whole w n c h =
    sym (take-take (length c.whole) n w h)
    ∙ ap (take (length c.whole)) c.splits
    ∙ take-append c.whole (take c.shown (encode c.broken))

pub length-encode-le : (c : ℕ) → length (encode c) ≤ 4
unfolding encode
length-encode-le c = ground arith

-- The end of the whole code points is such a place.
pub Cut-CutsAt :
    (w : Bytes) (n : ℕ) → n ≤ length w → (c : Cut (take n w)) → CutsAt w n (length c.whole)
Cut-CutsAt w n h c =
    let b = Cut-CutBytes c in
    let k = length c.whole in
    let total = b.total in
    let size = length-take n w in
    let kept : take k w ≡ c.whole = prefix_whole w n c (omega arith) in
    record {
      well_formed = subst WellFormed (sym kept) c.whole_is;
      within_limit = omega arith;
      few = omega (arith, c.not_all, length-encode-le c.broken);
      longest =
          λ j p v. whole_longest b j (subst WellFormed (sym (take-take j n w p)) v) (omega arith);
    }
