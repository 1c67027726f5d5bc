-- ===== src/CircularBuffer.antt =====
-- Core/Source/SolidSyslogCircularBuffer.c: a ring of length-prefixed records behind a mutex.
-- `self` is the record below and every function that updates it returns the new one. The ring is
-- a list of bytes; a record's size is the length of its list. The mutex, the policy callback and
-- the error handler are calls out of the module, so they are the events that an operation returns.
pub mod Layout
pub mod Access
pub mod Read
pub mod Append
pub mod Evict
pub mod Policy
pub mod Write
pub mod Trace
pub mod Reports
mod Tests
use solid_syslog.Base.{
  ℕ, zero, suc, ◌*◌, ◌/◌, ◌%◌, bit_or, Bool, true, false, not, ◌&&◌, ◌||◌, List, [], ◌∷◌, ltb, leb,
  ◌==◌, if◌then◌else◌, length, set, Bytes, byte_at, slice, blit, add_size,
}

-- `enum SolidSyslogDiscardPolicy`
pub data DiscardPolicy : Type 0 where
  oldest newest halt : DiscardPolicy

-- `enum SolidSyslogCircularBufferRunStarted`
pub data RunStarted : Type 0 where
  none_started refusals evictions : RunStarted

-- the details that the operations report
pub data Detail : Type 0 where
  record_too_large record_refused record_exceeds_max_message_size records_evicted : Detail

pub data Event : Type 0 where
  lock unlock ask_policy : Event
  report : Detail → Event

pub record CircularBuffer : Type 0 where
  pub ring : Bytes
  pub capacity : ℕ
  pub head : ℕ
  pub tail : ℕ
  pub wrap_point : ℕ
  pub loss_reported : Bool
  pub eviction_reported : Bool
  pub too_large_reported : Bool
  pub full : Bool

abbrev pub header_bytes : ℕ
header_bytes = 2

abbrev pub reset_to_start : CircularBuffer → CircularBuffer
reset_to_start self = record self { head = 0; tail = 0; wrap_point = self.capacity }

pub initialise : Bytes → ℕ → CircularBuffer
initialise ring ring_bytes = reset_to_start (record {
  ring = ring;
  capacity = ring_bytes;
  head = 0;
  tail = 0;
  wrap_point = 0;
  loss_reported = false;
  eviction_reported = false;
  too_large_reported = false;
  full = false;
})

abbrev pub is_empty : CircularBuffer → Bool
is_empty self = self.head == self.tail

abbrev pub is_wrapped : CircularBuffer → Bool
is_wrapped self = ltb self.tail self.head

abbrev pub head_at_wrap_point : CircularBuffer → Bool
head_at_wrap_point self = leb self.wrap_point self.head

abbrev pub consume_wrap_marker : CircularBuffer → CircularBuffer
consume_wrap_marker self = record self { head = 0; wrap_point = self.capacity }

-- `Ring[Head] | (Ring[Head + 1U] << 8U)`
pub peek_record_size : CircularBuffer → ℕ
peek_record_size self =
    bit_or (byte_at self.ring self.head) (byte_at self.ring (add_size self.head 1) * 256)

-- the bytes copied to `data`, and the buffer past the record
pub load_record : CircularBuffer → Bytes × CircularBuffer
load_record self =
    let size = peek_record_size self in
    (
      slice self.ring (add_size self.head header_bytes) size,
      record self { head = add_size self.head (add_size header_bytes size) },
    )

-- The results of `Read`: the return value, what is copied to `data` (`*bytesRead` is its length),
-- the buffer afterwards and the calls made.
pub record ReadResult : Type 0 where
  pub delivered : Bool
  pub copied : Bytes
  pub self : CircularBuffer
  pub events : List Event

-- the wrap marker that both `Read` and `DropHead` consume first
abbrev pub past_wrap_marker : CircularBuffer → CircularBuffer
past_wrap_marker self = if head_at_wrap_point self then consume_wrap_marker self else self

-- the branch of `Read` for a ring that holds a record
read_head : CircularBuffer → ℕ → ReadResult
read_head self max_size =
    if leb (peek_record_size self) max_size
    then (let (bytes, self') = load_record self in
        record {
          delivered = true;
          copied = bytes;
          self = record self' { full = false; too_large_reported = false };
          events = lock ∷ unlock ∷ [];
        })
    else record {
      delivered = false;
      copied = [];
      self = record self { too_large_reported = true };
      events =
          lock
          ∷ unlock
          ∷ (if not self.too_large_reported then report record_too_large ∷ [] else []);
    }

pub read : CircularBuffer → ℕ → ReadResult
unfolding read_head
read self max_size =
    if is_empty self
    then record { delivered = false; copied = []; self = self; events = lock ∷ unlock ∷ [] }
    else read_head (past_wrap_marker self) max_size

abbrev pub record_fits_at_tail : CircularBuffer → ℕ → Bool
record_fits_at_tail self record_bytes =
    if is_wrapped self
    then ltb (add_size self.tail record_bytes) self.head
    else leb (add_size self.tail record_bytes) self.capacity

abbrev pub record_fits_after_wrap : CircularBuffer → ℕ → Bool
record_fits_after_wrap self record_bytes = not (is_wrapped self) && ltb record_bytes self.head

pub record_fits : CircularBuffer → ℕ → Bool
record_fits self record_bytes =
    record_fits_at_tail self record_bytes || record_fits_after_wrap self record_bytes

abbrev pub could_hold_when_empty : CircularBuffer → ℕ → Bool
could_hold_when_empty self record_bytes = leb record_bytes self.capacity

is_oldest : DiscardPolicy → Bool
is_oldest oldest = true
is_oldest newest = false
is_oldest halt = false

pub policy_evicts_for : CircularBuffer → ℕ → DiscardPolicy → Bool
unfolding is_oldest
policy_evicts_for self record_bytes policy =
    could_hold_when_empty self record_bytes && is_oldest policy

pub drop_head : CircularBuffer → CircularBuffer
drop_head self =
    let s = past_wrap_marker self in
    let moved : CircularBuffer = record s {
      head = add_size s.head (add_size header_bytes (peek_record_size s));
    } in
    if is_empty moved then reset_to_start moved else moved

-- `while (!RecordFits) DropHead`, on fuel: `Evict.evict_lem` shows that it ends by its test.
pub evict_until_record_fits : ℕ → CircularBuffer → ℕ → CircularBuffer
evict_until_record_fits zero self record_bytes = self
evict_until_record_fits (suc fuel) self record_bytes = elim (record_fits self record_bytes) [
  | true ↦ self
  | false ↦ evict_until_record_fits fuel (drop_head self) record_bytes
]

abbrev pub wrap_tail : CircularBuffer → CircularBuffer
wrap_tail self = record self { wrap_point = self.tail; tail = 0 }

pub store_record : CircularBuffer → Bytes → CircularBuffer
store_record self bytes =
    let size = length bytes in
    let low = set self.ring self.tail (size % 256) in
    let high = set low (add_size self.tail 1) (size / 256 % 256) in
    record self {
      ring = blit high (add_size self.tail header_bytes) bytes;
      tail = add_size self.tail (add_size header_bytes size);
    }

pub keep_record : CircularBuffer → Bytes → Bool → RunStarted × CircularBuffer
keep_record self bytes evicted =
    let fits = record_fits_at_tail self (add_size header_bytes (length bytes)) in
    let stored = store_record (if fits then self else wrap_tail self) bytes in
    (
      if evicted && not stored.eviction_reported then evictions else none_started,
      record stored { loss_reported = false; eviction_reported = evicted; full = evicted },
    )

pub refuse_record : CircularBuffer → ℕ → RunStarted × CircularBuffer
refuse_record self record_bytes = (
  if self.loss_reported then none_started else refusals,
  record self {
    loss_reported = true;
    eviction_reported = false;
    full = could_hold_when_empty self record_bytes;
  },
)

-- the second half of `StoreApplyingPolicy`, after the eviction
pub keep_or_refuse : CircularBuffer → Bytes → Bool → RunStarted × CircularBuffer
keep_or_refuse self bytes evicted =
    let record_bytes = add_size header_bytes (length bytes) in
    if record_fits self record_bytes
    then keep_record self bytes evicted
    else refuse_record self record_bytes

-- the body between the lock and the unlock; `capacity + 1` rounds are enough for the loop
pub store_applying_policy : CircularBuffer → DiscardPolicy → Bytes → RunStarted × CircularBuffer
store_applying_policy self policy bytes =
    let record_bytes = add_size header_bytes (length bytes) in
    let s = if is_empty self then reset_to_start self else self in
    if not (record_fits s record_bytes) && policy_evicts_for s record_bytes policy
    then keep_or_refuse (evict_until_record_fits (suc s.capacity) s record_bytes) bytes true
    else keep_or_refuse s bytes false

pub report_run_started : RunStarted → List Event
report_run_started refusals = report record_refused ∷ []
report_run_started evictions = report records_evicted ∷ []
report_run_started none_started = []

-- `max_message_size` is the tunable SOLIDSYSLOG_MAX_MESSAGE_SIZE; `policy` answers `GetDiscardPolicy`.
pub write : ℕ → CircularBuffer → DiscardPolicy → Bytes → CircularBuffer × List Event
write max_message_size self policy bytes =
    if leb (length bytes) max_message_size
    then (let (started, self') = store_applying_policy self policy bytes in
        (self', ask_policy ∷ lock ∷ unlock ∷ report_run_started started))
    else (self, report record_exceeds_max_message_size ∷ [])

pub is_full : CircularBuffer → Bool × List Event
is_full self = (self.full, lock ∷ unlock ∷ [])
