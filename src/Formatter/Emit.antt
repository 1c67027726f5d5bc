-- ===== src/Formatter/Emit.antt =====
-- What every write does: it appends as much as fits, and keeps the terminator behind it.
use solid_syslog.Base.{
  ℕ, zero, suc, ◌+◌, ◌-◌, ◌≤◌, ◌<◌, min, ◌≡◌, refl, ap, sym, ◌∙◌, inl, inr, true, false, [], ◌∷◌,
  ◌++◌, append-nil, append_assoc, arith, length, set, take, Bytes, byte_at, length-set,
  get_or-set_self, Bool-cases, ltb, ltb→lt,
}
use solid_syslog.Formatter.{
  Formatter, null_terminate, create, has_capacity, write_char, write_bytes,
}

take-set_self :
    (p : ℕ) (xs : Bytes) (v : ℕ) → p < length xs → take (suc p) (set xs p v) ≡ take p xs ++ v ∷ []
take-set_self p [] v h = absurd (omega arith)
take-set_self zero (x ∷ xs) v h = refl
take-set_self (suc p) (x ∷ xs) v h = ap (◌∷◌ x) (take-set_self p xs v (omega arith))

pub take-set_behind : (p : ℕ) (xs : Bytes) (v : ℕ) → take p (set xs p v) ≡ take p xs
take-set_behind zero xs v = refl
take-set_behind (suc p) [] v = refl
take-set_behind (suc p) (x ∷ xs) v = ap (◌∷◌ x) (take-set_behind p xs v)

-- The buffer is there, and there is always room for the terminator.
pub record IsValid (f : Formatter) : Type 0 where
  pub storage : f.size ≤ length f.buffer
  pub inside : f.position ≤ f.size - 1

-- the bytes written
abbrev pub text : Formatter → Bytes
text f = take f.position f.buffer

-- how many more fit in front of the terminator
abbrev pub room : Formatter → ℕ
room f = f.size - 1 - f.position

-- `g` is `f` with as much of `bytes` appended as fits.
pub record Appended (f : Formatter) (bytes : Bytes) (g : Formatter) : Type 0 where
  pub valid : IsValid g
  pub same_size : g.size ≡ f.size
  pub advanced : g.position ≡ f.position + min (room f) (length bytes)
  pub written : text g ≡ text f ++ take (room f) bytes

write_char-full : {f : Formatter} (v : ℕ) → room f ≡ 0 → write_char f v ≡ f
unfolding write_char
write_char-full {f} v h = let none_left : has_capacity f ≡ false = ground arith in rw none_left

write_char-fits :
    (f : Formatter) (v : ℕ)
    → 0 < room f
    → write_char f v ≡ record f { buffer = set f.buffer f.position v; position = f.position + 1 }
unfolding write_char
write_char-fits f v h = let some_left : has_capacity f ≡ true = ground arith in rw some_left

take-nil : (n : ℕ) → take {A = ℕ} n [] ≡ []
take-nil zero = refl
take-nil (suc n) = refl

write_bytes-full : (bytes : Bytes) {f : Formatter} → room f ≡ 0 → write_bytes f bytes ≡ f
unfolding write_bytes
write_bytes-full [] h = refl
write_bytes-full (b ∷ bytes) {f} h = rw (write_char-full {f = f} b h) (write_bytes-full bytes h)

take-pos : (n : ℕ) (b : ℕ) (bytes : Bytes) → 0 < n → take n (b ∷ bytes) ≡ b ∷ take (n - 1) bytes
take-pos zero b bytes h = absurd (omega arith)
take-pos (suc n) b bytes h = ap (λ k. b ∷ take k bytes) (omega arith)

text-write_char :
    {f : Formatter} (v : ℕ)
    → IsValid f
    → 0 < room f
    → take (f.position + 1) (set f.buffer f.position v) ≡ text f ++ v ∷ []
text-write_char {f} v valid h =
    let next : f.position + 1 ≡ suc f.position = omega arith in
    rw next (take-set_self f.position f.buffer v (omega (arith, valid.storage)))

-- Writing bytes appends as many of them as fit, in order.
pub write_bytes-Appended :
    (bytes : Bytes) {f : Formatter} → IsValid f → Appended f bytes (write_bytes f bytes)
unfolding write_bytes
write_bytes-Appended [] {f} valid = record {
  valid = valid;
  same_size = refl;
  advanced = omega arith;
  written = rw (take-nil (room f)) (sym (append-nil (text f)));
}
write_bytes-Appended (b ∷ bytes) {f} valid = elim (Bool-cases (ltb 0 (room f))) [
  | inr full ↦
      let no_room : room f ≡ 0 = ground arith in
      rw (write_char-full {f = f} b no_room, write_bytes-full bytes {f = f} no_room)
        (record {
          valid = valid;
          same_size = refl;
          advanced = omega arith;
          written = rw no_room (sym (append-nil (text f)));
        })
  | inl free ↦
      let pos = ltb→lt 0 (room f) free in
      let g : Formatter = record f {
        buffer = set f.buffer f.position b;
        position = f.position + 1;
      } in
      let one_less : room f - 1 ≡ room g = omega arith in
      let g_valid : IsValid g = record {
        storage = omega (arith, valid.storage, length-set f.buffer f.position b);
        inside = omega arith;
      } in
      let rest = write_bytes-Appended bytes {f = g} g_valid in
      rw (write_char-fits f b pos) (record {
        valid = rest.valid;
        same_size = rest.same_size;
        advanced = omega (arith, rest.advanced);
        written =
            rest.written
            ∙ ap (λ t. t ++ take (room g) bytes) (text-write_char {f = f} b valid pos)
            ∙ append_assoc (text f) (b ∷ []) (take (room g) bytes)
            ∙ ap (λ t. text f ++ t)
                (sym (take-pos (room f) b bytes pos ∙ ap (λ k. b ∷ take k bytes) one_less));
      })
]

-- Writing two runs of bytes is writing them in a row.
pub write_bytes-append :
    (xs ys : Bytes) (f : Formatter) → write_bytes (write_bytes f xs) ys ≡ write_bytes f (xs ++ ys)
unfolding write_bytes
write_bytes-append [] ys f = refl
write_bytes-append (x ∷ xs) ys f = write_bytes-append xs ys (write_char f x)

-- The operation has appended `bytes`, as far as they fit, and terminated the text.
pub record Emits (f : Formatter) (bytes : Bytes) (g : Formatter) : Type 0 where
  pub appended : Appended f bytes g
  pub terminated : 0 < g.size → byte_at g.buffer g.position ≡ 0

null_terminate-Emits :
    {f g : Formatter} (bytes : Bytes) → Appended f bytes g → Emits f bytes (null_terminate g)
unfolding null_terminate
null_terminate-Emits {f} {g} bytes a = elim (Bool-cases (ltb 0 g.size)) [
  | inr nothing ↦ rw nothing (record { appended = a; terminated = λ h. absurd (ground arith) })
  | inl there ↦ rw there (record {
    appended = record {
      valid = record {
        storage = omega (arith, a.valid.storage, length-set g.buffer g.position 0);
        inside = a.valid.inside;
      };
      same_size = a.same_size;
      advanced = a.advanced;
      written = take-set_behind g.position g.buffer 0 ∙ a.written;
    };
    terminated = λ h.
        get_or-set_self g.buffer g.position 0 0 (omega (arith, a.valid.storage, a.valid.inside));
  })
]

-- An operation that writes bytes and terminates them.
pub terminated-Emits :
    (bytes : Bytes) {f : Formatter}
    → IsValid f
    → Emits f bytes (null_terminate (write_bytes f bytes))
terminated-Emits bytes valid = null_terminate-Emits bytes (write_bytes-Appended bytes valid)

-- A new formatter is valid and holds no text.
pub create-IsValid :
    (storage : Bytes) (n : ℕ)
    → n ≤ length storage
    → IsValid (create storage n) × (text (create storage n) ≡ [])
unfolding create
create-IsValid storage n h =
    let start : Formatter = record { size = n; position = 0; buffer = storage } in
    let valid : IsValid start = record { storage = h; inside = omega arith } in
    let e = terminated-Emits [] {f = start} valid in
    (
      unfold write_bytes in e.appended.valid,
      unfold write_bytes in (e.appended.written ∙ take-nil (room start)),
    )
