-- ===== src/Formatter/Ascii.antt =====
-- `SolidSyslogFormatter_PrintUsAsciiString` and `AsciiCharacter`: RFC 5424 PRINTUSASCII.
use solid_syslog.Base.{
  ℕ, zero, suc, ◌≤◌, ◌≡◌, refl, [], ◌∷◌, arith, Bytes, Bool-cases, if◌then◌else◌, ◌==◌, inl, inr,
}
use solid_syslog.Formatter.{
  Formatter, write_char, write_bytes, is_printable_us_ascii, non_printable_substitute,
  write_printable_us_ascii_char, print_loop, print_us_ascii_string,
}
use solid_syslog.Formatter.Emit.{IsValid, Emits, terminated-Emits}

-- the source up to its terminator, of at most so many bytes
abbrev pub up_to_terminator : ℕ → Bytes → Bytes
up_to_terminator zero source = []
up_to_terminator (suc left) [] = []
up_to_terminator (suc left) (b ∷ bs) =
    let rest = up_to_terminator left bs in if b == 0 then [] else b ∷ rest

-- PRINTUSASCII
abbrev pub IsPrintable : ℕ → Type 0
IsPrintable b = (33 ≤ b) × (b ≤ 126)

-- byte by byte: a printable byte as it is, a question mark for any other
abbrev pub Substituted : Bytes → Bytes → Type 0
Substituted [] [] = Unit {0}
Substituted [] (c ∷ cs) = ⊥
Substituted (b ∷ bs) [] = ⊥
Substituted (b ∷ bs) (c ∷ cs) =
    (IsPrintable c × ((IsPrintable b → c ≡ b) × ((¬ IsPrintable b) → c ≡ b'?'))) × Substituted bs cs

abbrev substitute : ℕ → ℕ
substitute b = if is_printable_us_ascii b then b else non_printable_substitute

substitute_lem :
    (b : ℕ)
    → IsPrintable (substitute b)
      × ((IsPrintable b → substitute b ≡ b) × ((¬ IsPrintable b) → substitute b ≡ b'?'))
substitute_lem b = elim (Bool-cases (is_printable_us_ascii b)) [
  | inl printable ↦
      rw printable (
        (ground arith, ground arith),
        ((λ p. refl), (λ n. absurd (n (ground arith, ground arith)))),
      )
  | inr other ↦ rw other ((omega arith, omega arith), ((λ p. absurd (ground arith)), (λ n. refl)))
]

write_substitute :
    (f : Formatter) (b : ℕ) → write_printable_us_ascii_char f b ≡ write_char f (substitute b)
unfolding write_printable_us_ascii_char
write_substitute f b = elim (Bool-cases (is_printable_us_ascii b)) [
  | inl printable ↦ rw printable
  | inr other ↦ rw other
]

abbrev substituted : Bytes → Bytes
substituted [] = []
substituted (b ∷ bs) = substitute b ∷ substituted bs

substituted_lem : (bs : Bytes) → Substituted bs (substituted bs)
substituted_lem [] = tt
substituted_lem (b ∷ bs) = (substitute_lem b, substituted_lem bs)

print_loop-text :
    (left : ℕ) (f : Formatter) (source : Bytes)
    → print_loop left f source ≡ write_bytes f (substituted (up_to_terminator left source))
unfolding print_loop write_bytes
print_loop-text zero f source = refl
print_loop-text (suc left) f [] = refl
print_loop-text (suc left) f (b ∷ bs) = elim (Bool-cases (b == 0)) [
  | inl terminator ↦ rw terminator
  | inr other ↦
      rw (other, write_substitute f b) (print_loop-text left (write_char f (substitute b)) bs)
]

-- From a valid formatter, `PrintUsAsciiString` appends, as far as it fits, one byte for each byte of the source up to its
-- terminator, of which it takes at most `max_length`: a byte of PRINTUSASCII as it is, a question
-- mark for any other. So only PRINTUSASCII is written.
pub print_us_ascii_string_lem :
    (f : Formatter) (source : Bytes) (max_length : ℕ)
    → IsValid f
    → (written : Bytes) × Substituted (up_to_terminator max_length source) written
      × Emits f written (print_us_ascii_string f source max_length)
unfolding print_us_ascii_string
print_us_ascii_string_lem f source m valid =
    let written = substituted (up_to_terminator m source) in
    (
      written,
      substituted_lem (up_to_terminator m source),
      rw (print_loop-text m f source) (terminated-Emits written valid),
    )
