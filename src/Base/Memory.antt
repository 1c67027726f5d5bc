-- ===== src/Base/Memory.antt =====
-- A C byte array as a list: `memcpy` out of it and into it. An access out of range reads 0 and
-- writes nothing; the invariants of the components rule such accesses out.
use Prim.Native.Nat.{ℕ, zero, suc, ◌+◌, ◌≤◌, ◌<◌}
use mathlib.Core.Path.{◌≡◌, refl, ap, ap₂, ◌∙◌}
use mathlib.Core.List.{List, [], ◌∷◌}
use native.Mathlib.Omega.{arith}
use solid_syslog.Base.Lists.{length, get_or, set, length-set, get_or-set_self, get_or-set_ne}

abbrev pub Bytes : Type 0
Bytes = List ℕ

-- the byte at an index
abbrev pub byte_at : Bytes → ℕ → ℕ
byte_at m i = get_or m i 0

-- `memcpy(out, &m[i], n)`
unfoldable pub slice : Bytes → ℕ → ℕ → Bytes
slice m i zero = []
slice m i (suc n) = byte_at m i ∷ slice m (i + 1) n

-- `memcpy(&m[i], bytes, length bytes)`
unfoldable pub blit : Bytes → ℕ → Bytes → Bytes
blit m i [] = m
blit m i (b ∷ bs) = blit (set m i b) (i + 1) bs

pub length-slice : (m : Bytes) (i n : ℕ) → length (slice m i n) ≡ n
unfolding slice
length-slice m i zero = refl
length-slice m i (suc n) = ap suc (length-slice m (i + 1) n)

pub length-blit : (m : Bytes) (i : ℕ) (bs : Bytes) → length (blit m i bs) ≡ length m
unfolding blit
length-blit m i [] = refl
length-blit m i (b ∷ bs) = length-blit (set m i b) (i + 1) bs ∙ length-set m i b

-- A copy leaves what stands before it alone.
pub byte_at-blit_before :
    (m : Bytes) (i : ℕ) (bs : Bytes) (j : ℕ) → j < i → byte_at (blit m i bs) j ≡ byte_at m j
unfolding blit
byte_at-blit_before m i [] j h = refl
byte_at-blit_before m i (b ∷ bs) j h =
    byte_at-blit_before (set m i b) (i + 1) bs j (omega arith)
    ∙ get_or-set_ne m i j b 0 (omega arith)

-- It leaves what stands behind it alone.
pub byte_at-blit_after :
    (m : Bytes) (i : ℕ) (bs : Bytes) (j : ℕ)
    → i + length bs ≤ j
    → byte_at (blit m i bs) j ≡ byte_at m j
unfolding blit
byte_at-blit_after m i [] j h = refl
byte_at-blit_after m i (b ∷ bs) j h =
    byte_at-blit_after (set m i b) (i + 1) bs j (omega arith)
    ∙ get_or-set_ne m i j b 0 (omega arith)

-- Two arrays that agree on a range have the same slice there.
pub slice-congr :
    (m m' : Bytes) (i n : ℕ)
    → ((j : ℕ) → i ≤ j → j < i + n → byte_at m' j ≡ byte_at m j)
    → slice m' i n ≡ slice m i n
unfolding slice
slice-congr m m' i zero h = refl
slice-congr m m' i (suc n) h =
    ap₂ ◌∷◌ (h i (omega arith) (omega arith))
      (slice-congr m m' (i + 1) n (λ j a b. h j (omega arith) (omega arith)))

-- What was copied in is read back.
pub slice-blit_self :
    (m : Bytes) (i : ℕ) (bs : Bytes)
    → i + length bs ≤ length m
    → slice (blit m i bs) i (length bs) ≡ bs
unfolding slice blit
slice-blit_self m i [] h = refl
slice-blit_self m i (b ∷ bs) h =
    ap₂ ◌∷◌
      (byte_at-blit_before (set m i b) (i + 1) bs i (omega arith)
        ∙ get_or-set_self m i b 0 (omega arith))
      (slice-blit_self (set m i b) (i + 1) bs (omega (arith, length-set m i b)))
