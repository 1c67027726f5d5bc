-- ===== src/RecordStore/RoundTrip.antt =====
-- What Append stored, Read gives back.
use solid_syslog.Base.{
  ℕ, ◌+◌, ◌^◌, ◌≤◌, ◌<◌, ◌≡◌, refl, ap, sym, subst, ◌∙◌, inl, inr, Bool-cases, [], arith, length,
  take, take-eq_of_le, Bytes, slice, add_size, ltb, if◌then◌else◌,
}
use solid_syslog.RecordStore.{
  BlockDevice, SecurityPolicy, Pass, ReadResult, succeeded, could_not_open, device_failed,
  content_header_size, trailer_offset, is_succeeded, record_extent_is_known, bounded_size,
  read_span, read_record_extent, read_whole_record, read_and_validate_record,
  remember_current_record, read,
}
use solid_syslog.RecordStore.Shows.{Shows-slice_prefix}
use solid_syslog.RecordStore.Contents.{IsDevice, Failed, read_span-Span}
use solid_syslog.RecordStore.Extent.{
  AreBytes, Extent, record_whole, record_damaged, record_failed, read_record_extent-Extent,
}
use solid_syslog.RecordStore.ReadBack.{
  Stored, OpensAs, CouldNotRun, ReadBack, is_back, is_unopened, is_unread, stored-IsRecord,
  after_message-ReadBack,
}

-- the message that was stored, as far as the caller has room; or no verdict, of a policy that can be
-- without one; or a failure, of a device that can fail
pub data GivesBack {W : Type 0} (device : BlockDevice W) (policy : SecurityPolicy W) (block : ℕ)
    (message : Bytes) (max_size : ℕ) : ReadResult × Bytes → Type 0 where
  gives_message :
      (r : ReadResult × Bytes)
      → r ≡ (succeeded, take max_size message)
      → GivesBack device policy block message max_size r
  gives_no_verdict :
      CouldNotRun policy → GivesBack device policy block message max_size (could_not_open, [])
  gives_failure :
      Failed device block → GivesBack device policy block message max_size (device_failed, [])

take-bounded :
    (max_size : ℕ) (xs : Bytes) → take (bounded_size (length xs) max_size) xs ≡ take max_size xs
take-bounded max_size xs = elim (Bool-cases (ltb (length xs) max_size)) [
  | inl less ↦
      rw less (
        take-eq_of_le (length xs) xs (omega arith) ∙ sym (take-eq_of_le max_size xs (ground arith)))
  | inr more ↦ rw more refl
]

module _ {W : Type 0} (max_message_size : ℕ) (device : BlockDevice W) (policy : SecurityPolicy W)
    (contents : W → ℕ → Bytes) (law : IsDevice device contents) (block data_size : ℕ) where
  -- what the caller gets of a record that was read
  given_back :
      (message : Bytes) (max_size len c : ℕ) (result : ReadResult) (q : Pass W)
      → ReadBack max_message_size device policy contents law block data_size message (result, q)
      → (result ≡ succeeded → len ≡ length message)
      → let q2 =
          if record_extent_is_known result
          then remember_current_record max_message_size device policy block c len q
          else q in
        GivesBack device policy block message max_size (
          result,
          if is_succeeded result
              then slice q2.store.buffer content_header_size (bounded_size len max_size)
              else [],
        )
  unfolding remember_current_record
  given_back message max_size len c result q (is_back q1 shows) same =
      let here = same refl in
      let fits : bounded_size (length message) max_size ≤ length message = ground arith in
      gives_message (succeeded, slice q1.store.buffer 4 (bounded_size len max_size))
        (λ i. (
          succeeded,
          (ap (λ k. slice q1.store.buffer 4 (bounded_size k max_size)) here
                ∙ Shows-slice_prefix q1.store.buffer 4 (bounded_size (length message) max_size)
                    message fits shows
                ∙ take-bounded max_size message)
              i,
        ))
  given_back message max_size len c result q (is_unopened q1 f) same = gives_no_verdict f
  given_back message max_size len c result q (is_unread q1 f) same = gives_failure f

  -- A record that stands in the block is given back.
  pub Stored-GivesBack :
      (message content trailer : Bytes) (c max_size : ℕ) (p : Pass W)
      → Stored policy.trailer_size (contents p.world block) c message content trailer
      → OpensAs policy message content trailer
      → 0 < length message
      → length message ≤ max_message_size
      → 4 + length message < 2 ^ 16
      → c + (4 + length message + policy.trailer_size + 1) ≤ data_size
      → data_size + (max_message_size + policy.trailer_size + 5) < 2 ^ 32
      → AreBytes (contents p.world block)
      → 4 + length message + policy.trailer_size + 1 ≤ length p.store.buffer
      → GivesBack device policy block message max_size
          (read max_message_size device policy block c data_size max_size p).0
  unfolding read read_and_validate_record
  Stored-GivesBack message content trailer c max_size p stored opens some_left long short whole
        small bytes fit =
      from_extent (read_record_extent max_message_size device policy block c data_size p) (
        read_record_extent-Extent max_message_size device policy contents law block data_size c p
          bytes (omega arith) (omega arith) (omega arith))
    where
      m : Bytes
      m = contents p.world block

      from_extent :
          (x : (ReadResult × ℕ) × Pass W)
          → Extent device contents block max_message_size policy.trailer_size data_size c p x
          → let len = x.0.1 in
            let r =
              read_whole_record max_message_size device policy block c data_size len (x.0.0, x.1) in
            let q2 =
              if record_extent_is_known r.0
              then remember_current_record max_message_size device policy block c len r.1
              else r.1 in
            GivesBack device policy block message max_size (
              r.0,
              if is_succeeded r.0
                  then slice q2.store.buffer content_header_size (bounded_size len max_size)
                  else [],
            )
      from_extent x (record_failed len q kept f) = gives_failure f
      from_extent x (record_damaged len q kept none_here) = absurd (
          none_here (length message) (
            stored-IsRecord max_message_size device policy contents law block data_size message
              content trailer m c stored opens some_left long short whole small bytes))
      from_extent x (record_whole len q kept r same) =
          let n = length message in
          let here =
            stored-IsRecord max_message_size device policy contents law block data_size message
              content trailer m c stored opens some_left long short whole small bytes in
          let same_len : len ≡ n = r.header.little_endian ∙ sym here.header.little_endian in
          let at_message : add_size c content_header_size ≡ c + 4 = omega arith in
          let at_trailer : trailer_offset c n ≡ c + (4 + n) = omega arith in
          let back =
            after_message-ReadBack max_message_size device policy contents law block data_size
              message content trailer m c stored opens some_left long short whole small bytes q
              (read_span max_message_size device policy block (c + 4) 4 n data_size q)
              (read_span-Span max_message_size device policy contents law block data_size (c + 4) 4
                n q (omega arith))
              kept.same_block (omega (arith, kept.same_size)) same in
          let placed : ReadBack max_message_size device policy contents law block data_size message
              (read_whole_record max_message_size device policy block c data_size n
                (succeeded, q)) =
            rw (at_message, at_trailer) back in
          let there : ReadBack max_message_size device policy contents law block data_size message (
              read_whole_record max_message_size device policy block c data_size len
                (succeeded, q)) =
            subst
              (λ l. ReadBack max_message_size device policy contents law block data_size message (
                read_whole_record max_message_size device policy block c data_size l
                  (succeeded, q)))
              (sym same_len) placed in
          let w =
            read_whole_record max_message_size device policy block c data_size len (succeeded, q) in
          given_back message max_size len c w.0 w.1 there (λ e. same_len)
