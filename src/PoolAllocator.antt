-- ===== src/PoolAllocator.antt =====
-- Core/Source/SolidSyslogPoolAllocator.c: which slots of a static pool are in use. The config lock and
-- the cleanup callback are the calls that the operations log, in their order.
pub mod Claim
mod Tests
use solid_syslog.Base.{
  ℕ, zero, suc, ◌+◌, Bool, true, false, not, ◌&&◌, List, [], ◌∷◌, ◌++◌, Option, none, some, ltb,
  if◌then◌else◌, get_or, set,
}

pub data Call : Type 0 where
  lock_config unlock_config : Call
  cleanup : ℕ → Call

pub record PoolAllocator : Type 0 where
  pub in_use : List Bool
  pub count : ℕ

abbrev pub slot_is_in_use : PoolAllocator → ℕ → Bool
slot_is_in_use self index = get_or self.in_use index false

abbrev pub slot_is_free : PoolAllocator → ℕ → Bool
slot_is_free self index = not (slot_is_in_use self index)

abbrev pub mark_in_use : PoolAllocator → ℕ → PoolAllocator
mark_in_use self index = record self { in_use = set self.in_use index true }

abbrev pub mark_free : PoolAllocator → ℕ → PoolAllocator
mark_free self index = record self { in_use = set self.in_use index false }

unfoldable pub try_claim : PoolAllocator → ℕ → Bool × (PoolAllocator × List Call)
try_claim self index =
    let calls = lock_config ∷ unlock_config ∷ [] in
    if slot_is_free self index
    then (true, (mark_in_use self index, calls))
    else (false, (self, calls))

-- The loop of `AcquireFirstFree`, from an index on. A round adds one to the index, so `count`
-- rounds are enough.
unfoldable pub acquire_loop : ℕ → PoolAllocator → ℕ → List Call → ℕ × (PoolAllocator × List Call)
acquire_loop zero self acquired calls = (acquired, (self, calls))
acquire_loop (suc fuel) self acquired calls =
    let (claimed, (tried, more)) = try_claim self acquired in
    let next = acquire_loop fuel tried (acquired + 1) (calls ++ more) in
    if ltb acquired self.count
    then (if claimed then (acquired, (tried, calls ++ more)) else next)
    else (acquired, (self, calls))

unfoldable pub acquire_first_free : PoolAllocator → ℕ × (PoolAllocator × List Call)
acquire_first_free self = acquire_loop self.count self 0 []

-- `has_cleanup` says that the callback is not NULL
unfoldable pub free_if_in_use : PoolAllocator → ℕ → Bool → Bool × (PoolAllocator × List Call)
free_if_in_use self index has_cleanup =
    let cleaned = if has_cleanup then cleanup index ∷ [] else [] in
    if slot_is_in_use self index
    then (true, (mark_free self index, (lock_config ∷ cleaned) ++ unlock_config ∷ []))
    else (false, (self, lock_config ∷ unlock_config ∷ []))

abbrev pub index_is_valid : PoolAllocator → ℕ → Bool
index_is_valid self index = ltb index self.count
