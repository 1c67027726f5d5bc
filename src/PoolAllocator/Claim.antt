-- ===== src/PoolAllocator/Claim.antt =====
-- What a pool hands out and takes back.
use solid_syslog.Base.{
  ℕ, zero, suc, ◌+◌, ◌≤◌, ◌<◌, Bool, true, false, List, [], ◌∷◌, ◌++◌, ltb, get_or, set, length,
  ◌≡◌, refl, sym, ap, subst, ◌⊎◌, inl, inr, arith, Bool-cases, ltb→lt, get_or-set_self,
}
use solid_syslog.PoolAllocator.{
  Call, PoolAllocator, slot_is_in_use, mark_in_use, try_claim, acquire_loop, acquire_first_free,
  free_if_in_use,
}

-- `at` is the first free slot, and is claimed; or there is none, and `at` is the number of slots.
pub record Claims (self : PoolAllocator) (at : ℕ) (claimed : PoolAllocator) : Type 0 where
  pub all_before : (j : ℕ) → j < at → slot_is_in_use self j ≡ true
  pub outcome :
      ((at ≡ self.count) × (claimed ≡ self))
      ⊎ ((at < self.count) × (slot_is_in_use self at ≡ false) × (claimed ≡ mark_in_use self at))

acquire_loop_lem :
    (fuel : ℕ) (self : PoolAllocator) (acquired : ℕ) (calls : List Call)
    → acquired ≤ self.count
    → self.count ≤ acquired + fuel
    → ((j : ℕ) → j < acquired → slot_is_in_use self j ≡ true)
    → let r = acquire_loop fuel self acquired calls in Claims self r.0 r.1.0
unfolding acquire_loop try_claim
acquire_loop_lem zero self acquired calls le all before = record {
  all_before = before;
  outcome = inl (omega arith, refl);
}
acquire_loop_lem (suc fuel) self acquired calls le all before =
    elim (Bool-cases (ltb acquired self.count)) [
      | inr over ↦ rw over (record { all_before = before; outcome = inl (ground arith, refl) })
      | inl inside ↦
          let lt = ltb→lt acquired self.count inside in
          elim (Bool-cases (slot_is_in_use self acquired)) [
            | inr is_free ↦
                rw (inside, is_free)
                  (record { all_before = before; outcome = inr (lt, is_free, refl) })
            | inl taken ↦
                rw (inside, taken)
                  (acquire_loop_lem fuel self (acquired + 1) (calls ++ _) (omega arith)
                    (omega arith)
                    (λ j h. elim (Bool-cases (ltb j acquired)) [
                      | inl earlier ↦ before j (ltb→lt j acquired earlier)
                      | inr last ↦ let same : j ≡ acquired = ground arith in rw same taken
                    ]))
          ]
    ]

acquire_first_free-Claims :
    (self : PoolAllocator) → let r = acquire_first_free self in Claims self r.0 r.1.0
unfolding acquire_first_free
acquire_first_free-Claims self =
    acquire_loop_lem self.count self 0 [] (omega arith) (omega arith) (λ j h. absurd (omega arith))

set-set_back :
    (xs : List Bool) (i : ℕ) → get_or xs i false ≡ false → set (set xs i true) i false ≡ xs
set-set_back [] i e = refl
set-set_back (x ∷ xs) zero e = ap (λ b. b ∷ xs) (sym e)
set-set_back (x ∷ xs) (suc i) e = ap (◌∷◌ x) (set-set_back xs i e)

-- freeing the slot gives back the pool, once
abbrev pub Returns : PoolAllocator → ℕ → Bool → PoolAllocator → Type 0
Returns self at has_cleanup claimed =
    ((free_if_in_use claimed at has_cleanup).0 ≡ true)
    × ((free_if_in_use claimed at has_cleanup).1.0 ≡ self)
    × ((free_if_in_use (free_if_in_use claimed at has_cleanup).1.0 at has_cleanup).0 ≡ false)

claimed-Returns :
    (self : PoolAllocator) (at : ℕ) (has_cleanup : Bool)
    → at < length self.in_use
    → slot_is_in_use self at ≡ false
    → Returns self at has_cleanup (mark_in_use self at)
unfolding free_if_in_use
claimed-Returns self at has_cleanup inside is_free =
    let now = get_or-set_self self.in_use at true false inside in
    let back : set (set self.in_use at true) at false ≡ self.in_use =
      set-set_back self.in_use at is_free in
    rw (now, back, is_free) (refl, refl, refl)

-- In a pool with a flag for each slot, AcquireFirstFree claims the first free slot and no other, and
-- the slot can be freed once, with or without a cleanup: the pool is then as it was, and a second
-- attempt finds nothing to free. Where all are in use it claims none and answers with the number of
-- slots.
pub acquire_first_free-Returns :
    (self : PoolAllocator) (has_cleanup : Bool)
    → self.count ≤ length self.in_use
    → let r = acquire_first_free self in
      Claims self r.0 r.1.0 × ((r.0 ≡ self.count) ⊎ Returns self r.0 has_cleanup r.1.0)
acquire_first_free-Returns self has_cleanup size =
    let r = acquire_first_free self in
    let claims = acquire_first_free-Claims self in
    (
      claims,
      elim claims.outcome [
        | inl nothing ↦ inl nothing.0
        | inr claim ↦ inr (
            subst (Returns self r.0 has_cleanup) (sym claim.2)
              (claimed-Returns self r.0 has_cleanup (omega (arith, claim.0, size)) claim.1))
      ],
    )
