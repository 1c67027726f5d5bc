-- ===== src/RecordStore/Appended.antt =====
-- A record that Append stored at the end of a block is what Read finds there.
use mathlib.Core.Bool.{false≢true}
use solid_syslog.Base.{
  ℕ, ◌+◌, ◌%◌, ◌^◌, ◌≤◌, ◌<◌, ◌≡◌, refl, ap, ap₂, sym, subst, ◌∙◌, ◌⊎◌, Bool, true, false, [], ◌∷◌,
  ◌++◌, arith, length, Bytes, byte_at, slice, if◌then◌else◌,
}
use solid_syslog.RecordStore.{
  BlockDevice, SecurityPolicy, Pass, open_opened, open_could_not_run, AppendResult,
  append_succeeded, append_seal_failed, append_device_failed, appends, record_size, assemble_record,
  append, read,
}
use solid_syslog.RecordStore.Shows.{Shows, Shows-behind}
use solid_syslog.RecordStore.Contents.{IsDevice}
use solid_syslog.RecordStore.Extent.{AreBytes}
use solid_syslog.RecordStore.Assembled.{content_of, SealsInPlace, image_of, assemble_record_lem}
use solid_syslog.RecordStore.ReadBack.{Stored}
use solid_syslog.RecordStore.RoundTrip.{GivesBack, Stored-GivesBack}

-- What the store relies on in an append of the device: if it succeeds, the bytes are behind the
-- block.
pub record AppendsBehind {W : Type 0} (device : BlockDevice W) (contents : W → ℕ → Bytes)
    : Type 0 where
  pub appends_bytes :
      (block : ℕ) (bytes : Bytes) (w : W)
      → (device.append block bytes w).0 ≡ true
      → contents (device.append block bytes w).1 block ≡ contents w block ++ bytes

-- What it relies on in the policy: a seal leaves the header in the clear and the blocks alone, and
-- what a seal made is opened as it was, unless there is no verdict.
pub record OpensItsOwn {W : Type 0} (policy : SecurityPolicy W) (contents : W → ℕ → Bytes)
    : Type 0 where
  pub header_kept :
      (content : Bytes) (w : W) (j : ℕ)
      → j < 4
      → byte_at (policy.seal_record 4 content w).0.1.0 j ≡ byte_at content j
  pub keeps_blocks :
      (content : Bytes) (w : W) (block : ℕ)
      → contents (policy.seal_record 4 content w).1 block ≡ contents w block
  pub opens_own :
      (content : Bytes) (w v : W)
      → (policy.seal_record 4 content w).0.0 ≡ true
      → let s = (policy.seal_record 4 content w).0 in
        let o = policy.open_record 4 s.1.0 s.1.1 v in
        ((o.0.0 ≡ open_opened) × (o.0.1 ≡ content)) ⊎ (o.0.0 ≡ open_could_not_run)

abbrev is_taken : AppendResult → Bool
is_taken append_succeeded = true
is_taken append_seal_failed = false
is_taken append_device_failed = false

-- An append that succeeded was sealed and taken by the device.
both_succeeded :
    {W : Type 0} (sealed appended : Bool) (p q : Pass W)
    → let r : AppendResult × Pass W =
        if sealed
        then (if appended then append_succeeded else append_device_failed, q)
        else (append_seal_failed, p) in
      r.0 ≡ append_succeeded → (sealed ≡ true) × (appended ≡ true)
both_succeeded true true p q e = (refl, refl)
both_succeeded true false p q e = absurd (false≢true (ap is_taken e))
both_succeeded false appended p q e = absurd (false≢true (ap is_taken e))

module _ {W : Type 0} (max_message_size : ℕ) (device : BlockDevice W) (policy : SecurityPolicy W)
    (contents : W → ℕ → Bytes) (law : IsDevice device contents)
    (behind : AppendsBehind device contents) (seals : SealsInPlace policy)
    (opens : OpensItsOwn policy contents) where
  pub append-Stored :
      (block : ℕ) (message : Bytes) (p : Pass W)
      → 4 + length message < 2 ^ 16
      → 4 + length message + policy.trailer_size + 1 ≤ length p.store.buffer
      → (append max_message_size device policy block message p).0 ≡ append_succeeded
      → let q = (append max_message_size device policy block message p).1 in
        let s = policy.seal_record 4 (content_of message) p.world in
        Stored policy.trailer_size
          (contents q.world block)
          (length (contents p.world block))
          message
          s.0.1.0
          s.0.1.1
        × ((s.0.0 ≡ true) × (length q.store.buffer ≡ length p.store.buffer))
  unfolding append
  append-Stored block message p short fit done =
      let s = policy.seal_record 4 (content_of message) p.world in
      let a = assemble_record max_message_size device policy message p in
      let (sealed_same, (image, (size, (world, calls)))) =
        assemble_record_lem max_message_size device policy seals message p short fit in
      let no_wrap : length message % 2 ^ 16 ≡ length message = omega arith in
      let bytes =
        slice a.1.store.buffer 0
          (record_size max_message_size device policy (length message % 2 ^ 16)) in
      let stored_bytes : bytes ≡ image_of max_message_size device policy seals message p =
        ap (λ k. slice a.1.store.buffer 0 (record_size max_message_size device policy k)) no_wrap
        ∙ image in
      let d = device.append block bytes a.1.world in
      let (sealed, taken) =
        both_succeeded a.0 d.0 a.1
          (record a.1 { world = d.1; calls = appends block bytes d.0 ∷ a.1.calls }) done in
      let before : contents a.1.world block ≡ contents p.world block =
        ap (λ (w : W). contents w block) world
        ∙ opens.keeps_blocks (content_of message) p.world block in
      let after : contents d.1 block
          ≡ contents p.world block ++ (s.0.1.0 ++ (s.0.1.1 ++ 0xFF ∷ [])) =
        behind.appends_bytes block bytes a.1.world taken
        ∙ ap₂ (λ (x y : Bytes). x ++ y) before stored_bytes in
      let stands : Stored policy.trailer_size (contents d.1 block) (length (contents p.world block))
          message s.0.1.0 s.0.1.1 =
        record {
          shown =
              subst
                (λ (b : Bytes).
                  Shows b (length (contents p.world block)) (s.0.1.0 ++ (s.0.1.1 ++ 0xFF ∷ [])))
                (sym after)
                (Shows-behind (contents p.world block) (s.0.1.0 ++ (s.0.1.1 ++ 0xFF ∷ [])));
          content_length = seals.same_length (content_of message) p.world ∙ omega arith;
          trailer_length = seals.trailer_length (content_of message) p.world;
          header = opens.header_kept (content_of message) p.world;
        } in
      rw sealed (stands, (sym sealed_same ∙ sealed, size))

  -- A message that Append put behind a block is what Read gives there, as far as the caller has room,
  -- unless the device fails or the policy has no verdict. The message is not empty and not too long,
  -- the buffer holds the record, the block holds bytes then, and its size and the largest record are
  -- together less than 2 ^ 32.
  pub append-GivesBack :
      (block : ℕ) (message : Bytes) (max_size : ℕ) (p : Pass W)
      → 0 < length message
      → length message ≤ max_message_size
      → max_message_size ≤ 65531
      → 4 + length message + policy.trailer_size + 1 ≤ length p.store.buffer
      → let at_end = length (contents p.world block) in
        let size = at_end + (4 + length message + policy.trailer_size + 1) in
        size + (max_message_size + policy.trailer_size + 5) < 2 ^ 32
        → (append max_message_size device policy block message p).0 ≡ append_succeeded
        → let q = (append max_message_size device policy block message p).1 in
          AreBytes (contents q.world block)
          → GivesBack device policy block message max_size
              (read max_message_size device policy block at_end size max_size q).0
  append-GivesBack block message max_size p some_left long max fit small done bytes =
      let a = append max_message_size device policy block message p in
      let s = policy.seal_record 4 (content_of message) p.world in
      let (stored, (sealed, same_size)) = append-Stored block message p (omega arith) fit done in
      Stored-GivesBack max_message_size device policy contents law block
        (length (contents p.world block) + (4 + length message + policy.trailer_size + 1)) message
        s.0.1.0 s.0.1.1 (length (contents p.world block)) max_size a.1 stored
        (λ v. opens.opens_own (content_of message) p.world v sealed) some_left long (omega arith)
        (omega arith) small bytes (omega (arith, same_size))
