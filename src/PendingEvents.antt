-- ===== src/PendingEvents.antt =====
-- Core/Source/SolidSyslogPendingEvents.c: one slot for each reported kind of event, where the last
-- event of the kind waits for a logger to report it. The slots, a global array, are the list that
-- the operations take and return; a category is its number, a severity that of RFC 5424.
pub mod RoundTrip
mod Tests
use solid_syslog.Base.{
  ℕ, zero, suc, ◌+◌, ◌-◌, Bool, true, false, not, ◌&&◌, ◌||◌, List, [], ◌∷◌, ltb, ◌==◌,
  if◌then◌else◌, get_or, set,
}

-- `struct SolidSyslogErrorEvent`. The source is told by its address.
pub record ErrorEvent : Type 0 where
  pub severity : ℕ
  pub source : ℕ
  pub category : ℕ
  pub detail : ℕ
  pub has_native_code : Bool
  pub native_code : ℕ

pub record PendingEventSlot : Type 0 where
  pub source : ℕ
  pub detail : ℕ
  pub native_code : ℕ
  pub severity_code : ℕ
  pub has_native_code : Bool
  pub pending : Bool

pub record PendingEventKind : Type 0 where
  pub category : ℕ
  pub severity : ℕ

-- `PendingEvents_Kinds`
abbrev pub kinds : List PendingEventKind
kinds =
    record { category = 0x0701; severity = 3 }
    ∷ record { category = 0x0501; severity = 3 }
    ∷ record { category = 0x0502; severity = 3 }
    ∷ record { category = 0x0503; severity = 3 }
    ∷ record { category = 0x0402; severity = 4 }
    ∷ record { category = 0x0601; severity = 3 }
    ∷ record { category = 0x0602; severity = 4 }
    ∷ record { category = 0x0806; severity = 4 }
    ∷ record { category = 0x0805; severity = 4 }
    ∷ record { category = 0x0804; severity = 3 }
    ∷ record { category = 0x0801; severity = 3 }
    ∷ record { category = 0x0803; severity = 3 }
    ∷ record { category = 0x0103; severity = 3 }
    ∷ record { category = 0x0A01; severity = 3 }
    ∷ record { category = 0x0101; severity = 4 }
    ∷ record { category = 0x0102; severity = 5 }
    ∷ []

abbrev pub kind_count : ℕ
kind_count = 16

-- `PendingEvents_Severities`
abbrev pub severities : List ℕ
severities = 0 ∷ 1 ∷ 2 ∷ 3 ∷ 4 ∷ 5 ∷ 6 ∷ 7 ∷ []

-- what an array holds out of bounds does not matter: the operations test the index first
abbrev pub kind_at : ℕ → PendingEventKind
kind_at index = get_or kinds index (record { category = 0; severity = 0 })

abbrev pub empty_slot : PendingEventSlot
empty_slot = record {
  source = 0;
  detail = 0;
  native_code = 0;
  severity_code = 0;
  has_native_code = false;
  pending = false;
}

abbrev pub slot_at : List PendingEventSlot → ℕ → PendingEventSlot
slot_at slots index = get_or slots index empty_slot

-- the loop of `IndexOf`, with `left` kinds to go
unfoldable pub index_loop : ℕ → ℕ → ℕ → ℕ → ℕ
index_loop zero index found category = found
index_loop (suc left) index found category =
    let next =
      index_loop left (index + 1) (if (kind_at index).category == category then index else found)
        category in
    if found == kind_count then next else found

unfoldable pub index_of : ℕ → ℕ
index_of category = index_loop kind_count 0 kind_count category

-- the loop of `SeverityCode`, over the severities from a position on
unfoldable pub code_loop : List ℕ → ℕ → ℕ → ℕ → ℕ
code_loop [] position code severity = code
code_loop (s ∷ rest) position code severity =
    code_loop rest (position + 1) (if s == severity then position + 1 else code) severity

unfoldable pub severity_code_of : ℕ → ℕ
severity_code_of severity = code_loop severities 0 0 severity

unfoldable pub severity_of : PendingEventKind → ℕ → ℕ
severity_of kind code = if ltb 0 code then get_or severities (code - 1) 0 else kind.severity

unfoldable pub record_event : ErrorEvent → List PendingEventSlot → List PendingEventSlot
record_event event slots =
    let index = index_of event.category in
    if ltb index kind_count
    then set slots index (record {
      source = event.source;
      detail = event.detail;
      native_code = event.native_code;
      severity_code = severity_code_of event.severity;
      has_native_code = event.has_native_code;
      pending = true;
    })
    else slots

unfoldable pub is_pending : List PendingEventSlot → ℕ → Bool
is_pending slots index = if ltb index kind_count then (slot_at slots index).pending else false

-- the loop of `AnyPending`, with `left` slots to go
unfoldable pub any_loop : ℕ → ℕ → Bool → List PendingEventSlot → Bool
any_loop zero index pending slots = pending
any_loop (suc left) index pending slots =
    let next = any_loop left (index + 1) (slot_at slots index).pending slots in
    if not pending then next else pending

unfoldable pub any_pending : List PendingEventSlot → Bool
any_pending slots = any_loop kind_count 0 false slots

-- `event` is what the caller's struct held, which stays where the index is out of bounds
unfoldable pub take_event :
    List PendingEventSlot → ℕ → ErrorEvent → Bool × (ErrorEvent × List PendingEventSlot)
take_event slots index event =
    let slot = slot_at slots index in
    if ltb index kind_count
    then (
      slot.pending,
      (
        record {
          severity = severity_of (kind_at index) slot.severity_code;
          source = slot.source;
          category = (kind_at index).category;
          detail = slot.detail;
          has_native_code = slot.has_native_code;
          native_code = slot.native_code;
        },
        set slots index (record slot { pending = false }),
      ),
    )
    else (false, (event, slots))

-- the loop of `Clear`
unfoldable pub clear : List PendingEventSlot → List PendingEventSlot
clear [] = []
clear (slot ∷ rest) = record slot { pending = false; severity_code = 0 } ∷ clear rest
