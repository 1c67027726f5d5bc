-- ===== src/PendingEvents/RoundTrip.antt =====
-- An event that is recorded is the event that is taken.
use solid_syslog.Base.{
  ℕ, zero, suc, ◌+◌, ◌<◌, true, false, List, ltb, ◌==◌, if◌then◌else◌, set, length, ◌≡◌, ◌≢◌, refl,
  sym, ◌⊎◌, inl, inr, arith, Bool-cases, lt→ltb, get_or-set_self, get_or-set_ne, length-set,
}
use solid_syslog.PendingEvents.{
  ErrorEvent, PendingEventSlot, PendingEventKind, kind_count, kind_at, empty_slot, index_loop,
  index_of, severity_code_of, severity_of, code_loop, record_event, is_pending, take_event,
}

index_loop-finds :
    (left index found category : ℕ)
    → (found ≡ kind_count) ⊎ ((kind_at found).category ≡ category)
    → (index_loop left index found category ≡ kind_count)
      ⊎ ((kind_at (index_loop left index found category)).category ≡ category)
unfolding index_loop
index_loop-finds zero index found category h = h
index_loop-finds (suc left) index found category h = elim (Bool-cases (found == kind_count)) [
  | inr done ↦ rw done h
  | inl unfound ↦ rw unfound (
      index_loop-finds left (index + 1)
        (if (kind_at index).category == category then index else found) category
        (elim (Bool-cases ((kind_at index).category == category)) [
          | inl same ↦ rw same (inr (ground arith))
          | inr other ↦ rw other h
        ]))
]

-- The index of a reported kind is that of a kind with the category.
index_of_lem :
    (category : ℕ)
    → index_of category < kind_count
    → (kind_at (index_of category)).category ≡ category
unfolding index_of
index_of_lem category h = elim (index_loop-finds kind_count 0 kind_count category (inl refl)) [
  | inl none_found ↦ absurd (omega arith)
  | inr found ↦ found
]

severity_of-severity_code :
    (kind : PendingEventKind) (s : ℕ) → s < 8 → severity_of kind (severity_code_of s) ≡ s
unfolding severity_of severity_code_of code_loop
severity_of-severity_code kind zero h = refl
severity_of-severity_code kind (suc zero) h = refl
severity_of-severity_code kind (suc (suc zero)) h = refl
severity_of-severity_code kind (suc (suc (suc zero))) h = refl
severity_of-severity_code kind (suc (suc (suc (suc zero)))) h = refl
severity_of-severity_code kind (suc (suc (suc (suc (suc zero))))) h = refl
severity_of-severity_code kind (suc (suc (suc (suc (suc (suc zero)))))) h = refl
severity_of-severity_code kind (suc (suc (suc (suc (suc (suc (suc zero))))))) h = refl
severity_of-severity_code kind (suc (suc (suc (suc (suc (suc (suc (suc n)))))))) h =
    absurd (omega arith)

-- what taking the slot of a recorded event gives
pub record TakesBack (event : ErrorEvent) (slots : List PendingEventSlot) (other : ErrorEvent)
    : Type 0 where
  pub taken : (take_event (record_event event slots) (index_of event.category) other).0 ≡ true
  pub same : (take_event (record_event event slots) (index_of event.category) other).1.0 ≡ event
  pub cleared :
      is_pending
        (take_event (record_event event slots) (index_of event.category) other).1.1
        (index_of event.category)
      ≡ false
  pub others :
      (j : ℕ)
      → j ≢ index_of event.category
      → is_pending (take_event (record_event event slots) (index_of event.category) other).1.1 j
        ≡ is_pending slots j

-- An event of a reported kind, with a severity of RFC 5424, that is recorded is what the slot of
-- its kind hands out next, whole; the slot is then no longer pending, and no other slot has
-- become or ceased to be pending.
pub take_event-record_event :
    (event : ErrorEvent) (slots : List PendingEventSlot) (other : ErrorEvent)
    → length slots ≡ kind_count
    → index_of event.category < kind_count
    → event.severity < 8
    → TakesBack event slots other
unfolding take_event record_event is_pending
take_event-record_event event slots other size kind severity =
    let i = index_of event.category in
    let inside : ltb i kind_count ≡ true = lt→ltb i kind_count kind in
    let slot : PendingEventSlot = record {
      source = event.source;
      detail = event.detail;
      native_code = event.native_code;
      severity_code = severity_code_of event.severity;
      has_native_code = event.has_native_code;
      pending = true;
    } in
    let written = get_or-set_self slots i slot empty_slot (omega arith) in
    let emptied : PendingEventSlot = record slot { pending = false } in
    let rewritten =
      get_or-set_self (set slots i slot) i emptied empty_slot
        (omega (arith, length-set slots i slot)) in
    record {
      taken = rw (inside, written) refl;
      same =
          rw
            (
              inside,
              written,
              index_of_lem event.category kind,
              severity_of-severity_code (kind_at i) event.severity severity,
            )
            refl;
      cleared = rw (inside, written, rewritten) refl;
      others = λ j apart.
          rw
            (
              inside,
              written,
              get_or-set_ne (set slots i slot) i j emptied empty_slot (λ e. apart (sym e)),
              get_or-set_ne slots i j slot empty_slot (λ e. apart (sym e)),
            )
            refl;
    }
