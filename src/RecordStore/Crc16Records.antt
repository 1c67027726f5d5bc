-- ===== src/RecordStore/Crc16Records.antt =====
-- The CRC-16 policy as the policy of a record store, and a device that is one block of memory.
use solid_syslog.RecordStore.Extent.{AreBytes}
use solid_syslog.Base.{
  ℕ, ◌≡◌, Bool, ◌&&◌, and_true, ltb, ltb→lt, zero, suc, [], ◌∷◌, arith, refl, inl, true, ◌++◌,
  Bytes, slice, blit, if◌then◌else◌,
}
use solid_syslog.Crc16.{crc16_seal_record, crc16_open_record}
use solid_syslog.Crc16.Seal.{crc16_open_record-crc16_seal_record}
use solid_syslog.RecordStore.{BlockDevice, SecurityPolicy, open_opened, open_rejected}
use solid_syslog.RecordStore.Contents.{IsDevice}
use solid_syslog.RecordStore.Assembled.{SealsInPlace}
use solid_syslog.RecordStore.Appended.{AppendsBehind, OpensItsOwn}

module _ {W : Type 0} where
  -- Core/Source/SolidSyslogCrc16Policy.c behind the vtable of a policy
  abbrev pub crc16_policy : SecurityPolicy W
  crc16_policy = record {
    trailer_size = 2;
    seal_record = λ header_length content w. ((true, (content, crc16_seal_record content)), w);
    open_record = λ header_length content trailer w.
        ((if crc16_open_record content trailer then open_opened else open_rejected, content), w);
  }

  pub crc16_policy-SealsInPlace : SealsInPlace crc16_policy
  unfolding crc16_seal_record
  crc16_policy-SealsInPlace = record {
    same_length = λ content w. refl;
    trailer_length = λ content w. refl;
  }

  pub crc16_policy-OpensItsOwn : (contents : W → ℕ → Bytes) → OpensItsOwn crc16_policy contents
  crc16_policy-OpensItsOwn contents = record {
    header_kept = λ content w j less. refl;
    keeps_blocks = λ content w block. refl;
    opens_own =
        λ content w v sealed. inl (rw (crc16_open_record-crc16_seal_record content) (refl, refl));
  }

-- one block of memory
abbrev pub memory_block : BlockDevice Bytes
memory_block = record {
  read = λ block offset count w. ((true, slice w offset count), w);
  append = λ block bytes w. (true, w ++ bytes);
  write_at = λ block offset bytes w. (true, blit w offset bytes);
}

abbrev pub memory_contents : Bytes → ℕ → Bytes
memory_contents w block = w

pub memory_block-IsDevice : IsDevice memory_block memory_contents
memory_block-IsDevice = record {
  reads_bytes = λ block offset count w ok. refl;
  keeps_blocks = λ block offset count w other. refl;
}

pub memory_block-AppendsBehind : AppendsBehind memory_block memory_contents
memory_block-AppendsBehind = record { appends_bytes = λ block bytes w ok. refl }

-- a list of bytes, by a look at each
abbrev pub all_bytes : Bytes → Bool
all_bytes [] = true
all_bytes (b ∷ bs) = ltb b 256 && all_bytes bs

pub all_bytes-AreBytes : (bs : Bytes) → all_bytes bs ≡ true → AreBytes bs
all_bytes-AreBytes [] e = λ i. omega arith
all_bytes-AreBytes (b ∷ bs) e =
    at_any (all_bytes-AreBytes bs (and_true (ltb b 256) (all_bytes bs) e).1)
  where
    at_any : AreBytes bs → AreBytes (b ∷ bs)
    at_any rest zero = ltb→lt b 256 (and_true (ltb b 256) (all_bytes bs) e).0
    at_any rest (suc i) = rest i
