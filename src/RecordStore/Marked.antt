-- ===== src/RecordStore/Marked.antt =====
-- The records of a block that are finished with, and what a scan over them may answer.
use solid_syslog.Base.{
  ℕ, ◌+◌, ◌<◌, ◌≡◌, Bool, true, false, ◌==◌, ==_iff, Bool-cases, inl, inr, ◌⊎◌, arith, Bytes,
  byte_at,
}
use solid_syslog.RecordStore.{
  BlockDevice, scan_clean, scan_corrupt, scan_device_failed, flag_marks_sent_or_discarded,
}
use solid_syslog.RecordStore.Scan.{Scan}
use solid_syslog.RecordStore.Contents.{Failed}
use solid_syslog.RecordStore.Extent.{IsRecord}

-- The flag of the record says that it is finished with.
abbrev pub IsMarked : ℕ → Bytes → ℕ → ℕ → Type 0
IsMarked trailer_size m c len =
    (byte_at m (c + (4 + len + trailer_size)) ≡ 0)
    ⊎ (byte_at m (c + (4 + len + trailer_size)) ≡ 0x0F)

module _ (max_message_size trailer_size : ℕ) (m : Bytes) (data_size : ℕ) where
  -- Only records that are finished with stand between the start of the block and a place in it.
  pub data AllMarked : ℕ → Type 0 where
    at_start : AllMarked 0
    behind :
        (c len : ℕ)
        → AllMarked c
        → IsRecord max_message_size trailer_size m data_size c len
        → IsMarked trailer_size m c len
        → AllMarked (c + (4 + len + trailer_size + 1))

module _ {W : Type 0} (device : BlockDevice W) (block max_message_size trailer_size : ℕ) (m : Bytes)
    (data_size : ℕ) where
  -- what `FindFirstUnsent` answers: the end of the data behind such records only, the first record
  -- that is not finished with, the end with a damage where no record stands, or a failure of a device
  -- that can fail
  pub data FirstUnsent : Scan → Type 0 where
    all_sent :
        AllMarked max_message_size trailer_size m data_size data_size
        → FirstUnsent (record { cursor = data_size; scanned = scan_clean })
    unsent_at :
        (c len : ℕ)
        → AllMarked max_message_size trailer_size m data_size c
        → IsRecord max_message_size trailer_size m data_size c len
        → (¬ IsMarked trailer_size m c len)
        → FirstUnsent (record { cursor = c; scanned = scan_clean })
    damaged_at :
        (c : ℕ)
        → AllMarked max_message_size trailer_size m data_size c
        → c < data_size
        → ((l : ℕ) → ¬ IsRecord max_message_size trailer_size m data_size c l)
        → FirstUnsent (record { cursor = data_size; scanned = scan_corrupt })
    device_fails :
        Failed device block
        → FirstUnsent (record { cursor = data_size; scanned = scan_device_failed })

  -- a round of the scan: it stepped over a record that is finished with, or has its answer
  pub data Round (c : ℕ) : Bool × Scan → Type 0 where
    steps :
        (len : ℕ)
        → IsRecord max_message_size trailer_size m data_size c len
        → IsMarked trailer_size m c len
        → Round c (true, record { cursor = c + (4 + len + trailer_size + 1); scanned = scan_clean })
    ends : (scan : Scan) → FirstUnsent scan → Round c (false, scan)

pub marks_right : (flag : ℕ) → flag_marks_sent_or_discarded flag ≡ true → (flag ≡ 0) ⊎ (flag ≡ 0x0F)
marks_right flag e = elim (Bool-cases (flag == 0)) [
  | inl zero_flag ↦ inl ((==_iff flag 0).0 zero_flag)
  | inr other ↦ inr ((==_iff flag 0x0F).0 (rw other at e))
]

pub marks_not :
    (flag : ℕ) → flag_marks_sent_or_discarded flag ≡ false → ¬ ((flag ≡ 0) ⊎ (flag ≡ 0x0F))
marks_not flag e (inl h) = absurd (ground arith)
marks_not flag e (inr h) = absurd (ground arith)
