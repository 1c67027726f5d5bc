-- ===== src/PoolAllocator/Tests.antt =====
-- A pool of three slots, and the theorem at it.
use solid_syslog.Base.{true, false, [], ◌∷◌, ◌≡◌, ◌⊎◌, refl, arith}
use solid_syslog.PoolAllocator.{PoolAllocator, try_claim, acquire_loop, acquire_first_free}
use solid_syslog.PoolAllocator.Claim.{Returns, Claims, acquire_first_free-Returns}

abbrev pool : PoolAllocator
pool = record { in_use = true ∷ false ∷ true ∷ []; count = 3 }

second_acquired : (acquire_first_free pool).0 ≡ 1
unfolding acquire_first_free acquire_loop try_claim
second_acquired = refl

acquire_first_free-Returns_example :
    Claims pool (acquire_first_free pool).0 (acquire_first_free pool).1.0
    × (((acquire_first_free pool).0 ≡ 3)
        ⊎ Returns pool (acquire_first_free pool).0 true (acquire_first_free pool).1.0)
acquire_first_free-Returns_example = acquire_first_free-Returns pool true (omega arith)
