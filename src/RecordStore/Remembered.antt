-- ===== src/RecordStore/Remembered.antt =====
-- What the record store remembers of a record that it read whole.
use mathlib.Core.Bool.{false≢true}
use solid_syslog.Base.{
  ℕ, ◌+◌, ◌^◌, ◌≤◌, ◌<◌, ◌≡◌, refl, ap, sym, ◌∙◌, true, if_lem, arith, length, Bytes, if◌then◌else◌,
}
use solid_syslog.RecordStore.{
  BlockDevice, SecurityPolicy, Pass, ReadResult, succeeded, is_succeeded, sent_flag_offset,
  record_extent_is_known, read_record_extent, read_whole_record, read_and_validate_record,
  remember_current_record, read,
}
use solid_syslog.RecordStore.Contents.{IsDevice}
use solid_syslog.RecordStore.Extent.{
  AreBytes, Extent, record_whole, record_damaged, record_failed, read_record_extent-Extent,
}
use solid_syslog.RecordStore.ReadBack.{Stored, OpensAs, stored-IsRecord}

module _ {W : Type 0} (max_message_size : ℕ) (device : BlockDevice W) (policy : SecurityPolicy W)
    (contents : W → ℕ → Bytes) (law : IsDevice device contents) (block data_size : ℕ) where
  -- the flag of a record of so many bytes at `c`
  abbrev pub RemembersAt : ℕ → ℕ → Pass W → Type 0
  RemembersAt c len q =
      (q.store.has_read_record ≡ true)
      × (q.store.last_sent_flag_offset ≡ sent_flag_offset max_message_size device policy c len)

  -- Of a record that stands in the block and was read, the store remembers the flag.
  pub read-RemembersAt :
      (message content trailer : Bytes) (c max_size : ℕ) (p : Pass W)
      → Stored policy.trailer_size (contents p.world block) c message content trailer
      → OpensAs policy message content trailer
      → 0 < length message
      → length message ≤ max_message_size
      → 4 + length message < 2 ^ 16
      → c + (4 + length message + policy.trailer_size + 1) ≤ data_size
      → data_size + (max_message_size + policy.trailer_size + 5) < 2 ^ 32
      → AreBytes (contents p.world block)
      → 4 + length message + policy.trailer_size + 1 ≤ length p.store.buffer
      → let r = read max_message_size device policy block c data_size max_size p in
        r.0.0 ≡ succeeded → RemembersAt c (length message) r.1
  unfolding read read_and_validate_record remember_current_record
  read-RemembersAt message content trailer c max_size p stored opens some_left long short whole
        small bytes fit =
      from_extent (read_record_extent max_message_size device policy block c data_size p) (
        read_record_extent-Extent max_message_size device policy contents law block data_size c p
          bytes (omega arith) (omega arith) (omega arith))
    where
      from_extent :
          (x : (ReadResult × ℕ) × Pass W)
          → Extent device contents block max_message_size policy.trailer_size data_size c p x
          → let len = x.0.1 in
            let r =
              read_whole_record max_message_size device policy block c data_size len (x.0.0, x.1) in
            r.0 ≡ succeeded
            → RemembersAt c (length message) (
                if record_extent_is_known r.0
                then remember_current_record max_message_size device policy block c len r.1
                else r.1)
      from_extent x (record_failed len q kept f) ok = absurd (false≢true (ap is_succeeded ok))
      from_extent x (record_damaged len q kept none_here) ok =
          absurd (false≢true (ap is_succeeded ok))
      from_extent x (record_whole len q kept r same) ok =
          let here =
            stored-IsRecord max_message_size device policy contents law block data_size message
              content trailer (contents p.world block) c stored opens some_left long short whole
              small bytes in
          let same_len : len ≡ length message =
            r.header.little_endian ∙ sym here.header.little_endian in
          let y =
            read_whole_record max_message_size device policy block c data_size len (succeeded, q) in
          if_lem (RemembersAt c (length message)) (record_extent_is_known y.0)
            (remember_current_record max_message_size device policy block c len y.1) y.1
            (λ known. (refl, ap (sent_flag_offset max_message_size device policy c) same_len))
            (λ unknown. absurd (false≢true (sym unknown ∙ ap record_extent_is_known ok)))
