-- ===== src/RecordStore/Contents.antt =====
-- A block device that holds blocks of bytes, and what a span read from it is.
use solid_syslog.Base.{
  ◌∙◌, ℕ, ◌+◌, ◌^◌, ◌≤◌, ◌<◌, ◌≡◌, refl, ap, Bool, true, false, Bool-cases, inl, inr, arith, length,
  Bytes, slice, blit, length-blit, add_size, leb→le, if◌then◌else◌, ◌∷◌,
}
use solid_syslog.RecordStore.{
  BlockDevice, SecurityPolicy, Pass, ReadResult, succeeded, corrupt, device_failed, with_buffer,
  span_is_within_data, read_span, reads,
}

-- What the store relies on: a read that succeeds gives the bytes of the block, and no read changes a
-- block.
pub record IsDevice {W : Type 0} (device : BlockDevice W) (contents : W → ℕ → Bytes) : Type 0 where
  pub reads_bytes :
      (block offset count : ℕ) (w : W)
      → (device.read block offset count w).0.0 ≡ true
      → (device.read block offset count w).0.1 ≡ slice (contents w block) offset count
  pub keeps_blocks :
      (block offset count : ℕ) (w : W) (other : ℕ)
      → contents (device.read block offset count w).1 other ≡ contents w other

module _ {W : Type 0} (contents : W → ℕ → Bytes) (block : ℕ) where
  -- the block and the size of the buffer stay
  pub record Kept (p q : Pass W) : Type 0 where
    pub same_block : contents q.world block ≡ contents p.world block
    pub same_size : length q.store.buffer ≡ length p.store.buffer

  pub Kept-refl : (p : Pass W) → Kept p p
  Kept-refl p = record { same_block = refl; same_size = refl }

  pub Kept-trans : {p q r : Pass W} → Kept p q → Kept q r → Kept p r
  Kept-trans k l = record {
    same_block = l.same_block ∙ k.same_block;
    same_size = l.same_size ∙ k.same_size;
  }

-- a read of the block that fails
pub record Failed {W : Type 0} (device : BlockDevice W) (block : ℕ) : Type 0 where
  pub at_offset : ℕ
  pub at_count : ℕ
  pub at_world : W
  pub fails : (device.read block at_offset at_count at_world).0.0 ≡ false

module _ {W : Type 0} (device : BlockDevice W) (contents : W → ℕ → Bytes) (block : ℕ) where
  -- the outcomes of `ReadSpan`
  pub data Span (data_size offset position count : ℕ) (p : Pass W)
      : ReadResult × Pass W → Type 0 where
    span_read :
        (q : Pass W)
        → Kept contents block p q
        → offset + count ≤ data_size
        → q.store.buffer
          ≡ blit p.store.buffer position (slice (contents p.world block) offset count)
        → Span data_size offset position count p (succeeded, q)
    span_beyond : data_size < offset + count → Span data_size offset position count p (corrupt, p)
    span_failed :
        (q : Pass W)
        → Kept contents block p q
        → Failed device block
        → Span data_size offset position count p (device_failed, q)

module _ {W : Type 0} (max_message_size : ℕ) (device : BlockDevice W) (policy : SecurityPolicy W)
    (contents : W → ℕ → Bytes) (law : IsDevice device contents) (block data_size : ℕ) where
  pub read_span-Span :
      (offset position count : ℕ) (p : Pass W)
      → offset + count < 2 ^ 32
      → Span device contents block data_size offset position count p
          (read_span max_message_size device policy block offset position count data_size p)
  unfolding read_span
  read_span-Span offset position count p small =
      elim (Bool-cases (span_is_within_data offset count data_size)) [
        | inr beyond ↦ rw beyond (span_beyond (ground arith))
        | inl within ↦ rw within (
            got (device.read block offset count p.world).0.0 refl
              (omega (arith, leb→le (add_size offset count) data_size within)))
      ]
    where
      got :
          (ok : Bool)
          → (device.read block offset count p.world).0.0 ≡ ok
          → offset + count ≤ data_size
          → let r = device.read block offset count p.world in
            Span device contents block data_size offset position count p (
              if r.0.0 then succeeded else device_failed,
              with_buffer
                  (record p { world = r.1; calls = reads block offset count r.0.0 ∷ p.calls })
                  (blit p.store.buffer position r.0.1),
            )
      got true e inside = rw e (
          span_read
            (with_buffer
              (record p {
                world = (device.read block offset count p.world).1;
                calls = reads block offset count true ∷ p.calls;
              })
              (blit p.store.buffer position (device.read block offset count p.world).0.1))
            (record {
              same_block = law.keeps_blocks block offset count p.world block;
              same_size =
                  length-blit p.store.buffer position (device.read block offset count p.world).0.1;
            })
            inside
            (ap (blit p.store.buffer position) (law.reads_bytes block offset count p.world e)))
      got false e inside = rw e (
          span_failed
            (with_buffer
              (record p {
                world = (device.read block offset count p.world).1;
                calls = reads block offset count false ∷ p.calls;
              })
              (blit p.store.buffer position (device.read block offset count p.world).0.1))
            (record {
              same_block = law.keeps_blocks block offset count p.world block;
              same_size =
                  length-blit p.store.buffer position (device.read block offset count p.world).0.1;
            })
            (record { at_offset = offset; at_count = count; at_world = p.world; fails = e }))
