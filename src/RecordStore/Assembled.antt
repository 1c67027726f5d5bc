-- ===== src/RecordStore/Assembled.antt =====
-- What Append hands to the device: the sealed content, the trailer and the flag.
use solid_syslog.Base.{
  ℕ, ◌+◌, ◌/◌, ◌%◌, ◌^◌, ◌≤◌, ◌<◌, ◌≡◌, refl, ap, sym, subst, ◌∙◌, inl, bit_and, Bool, [], ◌∷◌,
  ◌++◌, arith, length, length-append, Bytes, slice, blit, length-blit,
}
use solid_syslog.Base.Bits.{bit_and_byte}
use solid_syslog.RecordStore.{
  BlockDevice, SecurityPolicy, Pass, content_size, record_size, assemble_record,
}
use solid_syslog.RecordStore.Shows.{Shows, Shows-slice, Shows-blit, Shows-blit_other, Shows-append}

-- the content of a record, before it is sealed
abbrev pub content_of : Bytes → Bytes
content_of message = 0xA5 ∷ 0x5A ∷ (length message % 256) ∷ (length message / 256) ∷ message

-- What the store relies on in sealing: the content keeps its length, and the trailer has its own.
pub record SealsInPlace {W : Type 0} (policy : SecurityPolicy W) : Type 0 where
  pub same_length :
      (content : Bytes) (w : W) → length (policy.seal_record 4 content w).0.1.0 ≡ length content
  pub trailer_length :
      (content : Bytes) (w : W)
      → length (policy.seal_record 4 content w).0.1.1 ≡ policy.trailer_size

module _ {W : Type 0} (max_message_size : ℕ) (device : BlockDevice W) (policy : SecurityPolicy W)
    (seals : SealsInPlace policy) where
  -- the answer of the policy for a message
  abbrev pub sealing : Bytes → Pass W → (Bool × (Bytes × Bytes)) × W
  sealing message p = policy.seal_record 4 (content_of message) p.world

  -- the whole record as it is stored
  abbrev pub image_of : Bytes → Pass W → Bytes
  image_of message p = (sealing message p).0.1.0 ++ ((sealing message p).0.1.1 ++ 0xFF ∷ [])

  pub length-image_of :
      (message : Bytes) (p : Pass W)
      → length (image_of message p) ≡ 4 + length message + policy.trailer_size + 1
  length-image_of message p =
      let s = sealing message p in
      let all : length (image_of message p) ≡ length s.0.1.0 + length (s.0.1.1 ++ 0xFF ∷ []) =
        length-append s.0.1.0 (s.0.1.1 ++ 0xFF ∷ []) in
      let tail : length (s.0.1.1 ++ 0xFF ∷ []) ≡ length s.0.1.1 + 1 =
        length-append s.0.1.1 (0xFF ∷ []) in
      let content : length s.0.1.0 ≡ 4 + length message =
        seals.same_length (content_of message) p.world ∙ omega arith in
      omega (arith, all, tail, content, seals.trailer_length (content_of message) p.world)

  -- the header and the message in the buffer
  assembled_content :
      (message : Bytes) (buffer : Bytes)
      → length message < 2 ^ 16
      → 4 + length message ≤ length buffer
      → let b0 = blit buffer 0 (0xA5 ∷ 0x5A ∷ []) in
        let len = length message % 2 ^ 16 in
        let b1 = blit b0 2 (bit_and len 0xFF ∷ bit_and (len / 2 ^ 8) 0xFF ∷ []) in
        Shows (blit b1 4 message) 0 (content_of message)
  assembled_content message buffer small fit =
      let n = length message in
      let b0 = blit buffer 0 (0xA5 ∷ 0x5A ∷ []) in
      let same : n % 2 ^ 16 ≡ n = omega arith in
      let lo : bit_and n 0xFF ≡ n % 256 = bit_and_byte n small in
      let hi : bit_and (n / 2 ^ 8) 0xFF ≡ n / 256 =
        bit_and_byte (n / 256) (omega arith) ∙ omega arith in
      let len_bytes : Bytes = (n % 256) ∷ (n / 256) ∷ [] in
      let b1 = blit b0 2 len_bytes in
      let size0 = length-blit buffer 0 (0xA5 ∷ 0x5A ∷ []) in
      let size1 = length-blit b0 2 len_bytes in
      let magic = Shows-blit_other b1 0 (0xA5 ∷ 0x5A ∷ []) 4 message (inl (omega arith)) (
        Shows-blit_other b0 0 (0xA5 ∷ 0x5A ∷ []) 2 len_bytes (inl (omega arith))
          (Shows-blit buffer 0 (0xA5 ∷ 0x5A ∷ []) (omega arith))) in
      let lengths =
        Shows-blit_other b1 2 len_bytes 4 message (inl (omega arith))
          (Shows-blit b0 2 len_bytes (omega arith)) in
      let body = Shows-blit b1 4 message (omega arith) in
      rw (same, lo, hi)
        (Shows-append (blit b1 4 message) 0 (0xA5 ∷ 0x5A ∷ []) (len_bytes ++ message) magic
          (Shows-append (blit b1 4 message) 2 len_bytes message lengths body))

  -- the sealed content, the trailer and the flag, written over it
  sealed_into :
      (b2 : Bytes) (n : ℕ) (content trailer : Bytes)
      → length content ≡ 4 + n
      → length trailer ≡ policy.trailer_size
      → 4 + n + policy.trailer_size + 1 ≤ length b2
      → let b5 =
          blit
            (blit (blit b2 0 content) (4 + n) trailer)
            (4 + n + policy.trailer_size)
            (0xFF ∷ []) in
        (slice b5 0 (4 + n + policy.trailer_size + 1) ≡ content ++ (trailer ++ 0xFF ∷ []))
        × (length b5 ≡ length b2)
  sealed_into b2 n content trailer same tail fit =
      let at_flag = 4 + n + policy.trailer_size in
      let flag : Bytes = 0xFF ∷ [] in
      let b3 = blit b2 0 content in
      let b4 = blit b3 (4 + n) trailer in
      let b5 = blit b4 at_flag flag in
      let size3 = length-blit b2 0 content in
      let size4 = length-blit b3 (4 + n) trailer in
      let shows_content = Shows-blit_other b4 0 content at_flag flag (inl (omega arith)) (
        Shows-blit_other b3 0 content (4 + n) trailer (inl (omega arith))
          (Shows-blit b2 0 content (omega arith))) in
      let shows_trailer =
        Shows-blit_other b4 (4 + n) trailer at_flag flag (inl (omega arith))
          (Shows-blit b3 (4 + n) trailer (omega arith)) in
      let shows_flag = Shows-blit b4 at_flag flag (omega arith) in
      let behind =
        Shows-append b5 (4 + n) trailer flag shows_trailer
          (subst (λ k. Shows b5 k flag) (omega arith) shows_flag) in
      let all =
        Shows-append b5 0 content (trailer ++ flag) shows_content
          (subst (λ k. Shows b5 k (trailer ++ flag)) (omega arith) behind) in
      let inner : length (trailer ++ flag) ≡ length trailer + 1 = length-append trailer flag in
      let size : length (content ++ (trailer ++ flag)) ≡ at_flag + 1 =
        length-append content (trailer ++ flag) ∙ omega arith in
      (
        ap (slice b5 0) (sym size) ∙ Shows-slice b5 0 (content ++ (trailer ++ flag)) all,
        length-blit b4 at_flag flag ∙ size4 ∙ size3,
      )

  -- A record that was assembled stands in the buffer, as it is to be stored.
  pub assemble_record_lem :
      (message : Bytes) (p : Pass W)
      → 4 + length message < 2 ^ 16
      → 4 + length message + policy.trailer_size + 1 ≤ length p.store.buffer
      → let a = assemble_record max_message_size device policy message p in
        (a.0 ≡ (sealing message p).0.0)
        × ((slice a.1.store.buffer 0 (record_size max_message_size device policy (length message))
              ≡ image_of message p)
            × ((length a.1.store.buffer ≡ length p.store.buffer)
                × ((a.1.world ≡ (sealing message p).1) × (a.1.calls ≡ p.calls))))
  unfolding assemble_record
  assemble_record_lem message p small fit =
      let n = length message in
      let len = n % 2 ^ 16 in
      let b0 = blit p.store.buffer 0 (0xA5 ∷ 0x5A ∷ []) in
      let b1 = blit b0 2 (bit_and len 0xFF ∷ bit_and (len / 2 ^ 8) 0xFF ∷ []) in
      let b2 = blit b1 4 message in
      let size2 : length b2 ≡ length p.store.buffer =
        length-blit b1 4 message
        ∙ length-blit b0 2 (bit_and len 0xFF ∷ bit_and (len / 2 ^ 8) 0xFF ∷ [])
        ∙ length-blit p.store.buffer 0 (0xA5 ∷ 0x5A ∷ []) in
      let no_wrap : content_size n ≡ 4 + n = omega arith in
      let content : slice b2 0 (content_size n) ≡ content_of message =
        ap (slice b2 0) (no_wrap ∙ omega arith)
        ∙ Shows-slice b2 0 (content_of message)
            (assembled_content message p.store.buffer (omega arith) (omega arith)) in
      let s = sealing message p in
      let (image, size) =
        sealed_into b2 n s.0.1.0 s.0.1.1
          (seals.same_length (content_of message) p.world ∙ omega arith)
          (seals.trailer_length (content_of message) p.world) (omega arith) in
      rw content (refl, (image, (size ∙ size2, (refl, refl))))
