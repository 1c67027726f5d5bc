-- ===== src/Formatter/Truncated.antt =====
-- Text that is too long for its storage: `Create`, `BoundedString` and `AsFormattedBuffer` together.
use solid_syslog.Base.{
  ℕ, zero, suc, ◌-◌, ◌≤◌, min, ◌≡◌, refl, ap, ◌∙◌, sym, Bool-cases, ltb, inl, inr, [], ◌∷◌, arith,
  length, take, Bytes, take-eq_of_le,
}
use solid_syslog.Utf8.Scalar.{WellFormed}
use solid_syslog.Formatter.{
  Formatter, null_terminate, create, bounded_string, trim_from, as_formatted_buffer,
}
use solid_syslog.Formatter.Emit.{Emits, text, room, create-IsValid}
use solid_syslog.Formatter.Faithful.{NulFree, bounded_string_copies}
use solid_syslog.Formatter.Trim.{Trimmed, as_formatted_buffer-Trimmed}

create-empty :
    (storage : Bytes) (n : ℕ) → ((create storage n).position ≡ 0) × ((create storage n).size ≡ n)
unfolding create null_terminate
create-empty storage n = elim (Bool-cases (ltb 0 n)) [
  | inl there ↦ rw there (refl, refl)
  | inr nothing ↦ rw nothing (refl, refl)
]

-- the first bytes of a text that was appended to nothing
prefix_written :
    {f g : Formatter} (source : Bytes)
    → f.position ≡ 0
    → Emits f source g
    → (g.position ≤ length source) × (text g ≡ take g.position source)
prefix_written {f} {g} source start e =
    let a = e.appended in
    let long : g.position ≡ min (room f) (length source) = omega (arith, a.advanced) in
    let nothing : text f ≡ [] = rw start in
    let written : text g ≡ take (room f) source = rw nothing at a.written in
    (omega arith, written ∙ cut (room f) g.position source long)
  where
    cut : (r p : ℕ) (s : Bytes) → p ≡ min r (length s) → take r s ≡ take p s
    cut zero p s h = let nothing : p ≡ 0 = omega arith in rw nothing
    cut (suc r) p [] h =
        take-eq_of_le (suc r) [] (omega arith) ∙ sym (take-eq_of_le p [] (omega arith))
    cut (suc r) zero (x ∷ s) h = absurd (omega arith)
    cut (suc r) (suc p) (x ∷ s) h = ap (◌∷◌ x) (cut r p s (omega arith))

-- A well-formed source without terminators inside, of at most the length allowed, that is written
-- into a new formatter over `n` bytes of a storage that has them, comes out as its longest well-formed prefix
-- among those of at most `n - 1` bytes, with zeros behind it.
pub truncated_text-Trimmed :
    (storage : Bytes) (n : ℕ) (source : Bytes) (max_length : ℕ)
    → n ≤ length storage
    → WellFormed source
    → NulFree source
    → length source ≤ max_length
    → let g = bounded_string (create storage n) source max_length in
      (g.position ≡ min (n - 1) (length source))
      × Trimmed g source (trim_from g.buffer g.position) (as_formatted_buffer g)
truncated_text-Trimmed storage n source m fit wf nul short =
    let f = create storage n in
    let made = create-empty storage n in
    let valid = (create-IsValid storage n fit).0 in
    let e = bounded_string_copies f source m valid wf nul short in
    let g = bounded_string f source m in
    let p = prefix_written {f = f} {g = g} source made.0 e in
    (
      omega (arith, made.0, made.1, e.appended.advanced),
      as_formatted_buffer-Trimmed g source e.appended.valid wf p.0 p.1,
    )
