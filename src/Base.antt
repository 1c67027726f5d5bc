-- ===== src/Base.antt =====
-- The names that the other modules share: the libraries', passed on, and those of the children.
mod Tests
mod Lists
mod Memory
pub mod Bits
pub use Tests.*
pub use Lists.*
pub use Memory.*
unfoldable pub use Memory.{slice, blit}
pub use Prim.Native.Nat.{
  ℕ, zero, suc, ◌+◌, ◌-◌, ◌*◌, ◌/◌, ◌%◌, ◌^◌, ◌≤◌, ◌<◌, bit_and, bit_or, bit_xor, min,
}
pub use mathlib.Core.Path.{◌≡◌, refl, sym, ap, ap₂, subst, ◌∙◌, ◌≡⟨◌⟩◌, ◌∎}
pub use mathlib.Core.Logic.{◌≢◌, ◌↔◌, ◌⊎◌, inl, inr}
pub use mathlib.Core.Bool.{Bool, true, false, not, ◌&&◌, ◌||◌}
pub use mathlib.Core.Option.{Option, none, some}
pub use mathlib.Core.List.{List, [], ◌∷◌, ◌++◌, map, append-nil, append_assoc}
pub use native.Mathlib.Omega.{arith}

-- branches that are equal, or equal where they are taken
pub branch_eq {ℓ} :
    {A : Type ℓ} (c : Bool) (x x' y : A) → x ≡ x' → (if c then x else y) ≡ (if c then x' else y)
branch_eq c x x' y e = ap (λ z. if c then z else y) e

pub branch_eq_on {ℓ} :
    {A : Type ℓ} (c : Bool) (x x' y : A)
    → (c ≡ true → x ≡ x')
    → (if c then x else y) ≡ (if c then x' else y)
branch_eq_on c x x' y h = elim (Bool-cases c) [
  | inl holds ↦ ap (λ z. if c then z else y) (h holds)
  | inr fails ↦ rw fails
]
