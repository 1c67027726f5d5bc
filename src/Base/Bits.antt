-- ===== src/Base/Bits.antt =====
-- The bit operations of the native numbers at variables, and checks of every value of a byte.
use Prim.Native.Nat.{ℕ, zero, suc, ◌+◌, ◌*◌, ◌/◌, ◌%◌, ◌^◌, ◌≤◌, ◌<◌, bit_and, bit_or}
use mathlib.Core.Path.{◌≡◌, refl, ap, sym, ◌∙◌}
use mathlib.Core.Bool.{Bool, true, false, false≢true}
use mathlib.Core.Logic.{inl, inr}
use solid_syslog.Base.Tests.{◌==◌, ==_iff, Bool-cases, ltb, ltb→lt, if◌then◌else◌}
use native.Mathlib.Omega.{arith}

-- Whether a test passes at each of so many numbers, from one on.
unfoldable pub passes_from : ℕ → ℕ → (ℕ → Bool) → Bool
passes_from next zero test = true
passes_from next (suc left) test = if test next then passes_from (suc next) left test else false

-- A test that passes at each of them passes at any.
pub passes_from_lem :
    (left next : ℕ) (test : ℕ → Bool)
    → passes_from next left test ≡ true
    → (k : ℕ) → next ≤ k
    → k < next + left
    → test k ≡ true
unfolding passes_from
passes_from_lem zero next test all k low high = absurd (omega arith)
passes_from_lem (suc left) next test all k low high = elim (Bool-cases (test next)) [
  | inr fails ↦ absurd (false≢true (rw fails at all))
  | inl holds ↦ elim (Bool-cases (ltb next k)) [
    | inl later ↦
        passes_from_lem left (suc next) test (rw holds at all) k (ltb→lt next k later) (omega arith)
    | inr not_later ↦ let here : k ≡ next = ground arith in rw here holds
  ]
]

-- A test that passes at every two bytes.
pub bytes_sound :
    (p : ℕ → ℕ → Bool)
    → passes_from 0 256 (λ a. passes_from 0 256 (λ b. p a b)) ≡ true
    → (a b : ℕ) → a < 256
    → b < 256
    → p a b ≡ true
bytes_sound p table a b h k =
    passes_from_lem 256 0 (λ c. p a c)
      (passes_from_lem 256 0 (λ d. passes_from 0 256 (λ c. p d c)) table a (omega arith) h) b
      (omega arith) k

-- Two bytes joined by `|` are a 16-bit number.
pub bit_or_bytes : (lo hi : ℕ) → lo < 256 → hi < 256 → bit_or lo (hi * 256) ≡ lo + hi * 256
unfolding passes_from
bit_or_bytes lo hi h k =
    (==_iff (bit_or lo (hi * 256)) (lo + hi * 256)).0
      (bytes_sound (λ l g. bit_or l (g * 256) == l + g * 256) refl lo hi h k)

low_byte : (hi lo : ℕ) → hi < 256 → lo < 256 → (bit_and (hi * 256 + lo) 0xFF == lo) ≡ true
unfolding passes_from
low_byte hi lo h k = bytes_sound (λ g l. bit_and (g * 256 + l) 0xFF == l) refl hi lo h k

-- The lowest byte of a 16-bit number.
pub bit_and_byte : (n : ℕ) → n < 2 ^ 16 → bit_and n 0xFF ≡ n % 256
bit_and_byte n h =
    let split : n / 256 * 256 + n % 256 ≡ n = omega arith in
    ap (λ c. bit_and c 0xFF) (sym split)
    ∙ (==_iff (bit_and (n / 256 * 256 + n % 256) 0xFF) (n % 256)).0
        (low_byte (n / 256) (n % 256) (omega arith) (omega arith))
