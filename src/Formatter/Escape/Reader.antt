-- ===== src/Formatter/Escape/Reader.antt =====
-- A reader of PARAM-VALUE (RFC 5424 section 6.3.3): it undoes the escapes up to the closing quote.
use solid_syslog.Base.{
  ℕ, ◌≡◌, refl, ap, sym, ◌∙◌, false, [], ◌∷◌, ◌++◌, append_assoc, arith, Bytes, if◌then◌else◌, ◌==◌,
  Option, none, some,
}
use solid_syslog.Formatter.{needs_escape}

-- a byte in front of what the rest gives
abbrev pub prepend : Bytes → Option (Bytes × Bytes) → Option (Bytes × Bytes)
prepend b none = none
prepend b (some (value, rest)) = some (b ++ value, rest)

-- The value before the closing quote, and what is behind the quote. A closing bracket must not
-- stand in a value unescaped.
unfoldable pub read_value : Bytes → Option (Bytes × Bytes)
read_value [] = none
read_value (b ∷ []) = if b == b'"' then some ([], []) else none
read_value (b ∷ c ∷ cs) =
    let escaped = prepend (c ∷ []) (read_value cs) in
    let plain = prepend (b ∷ []) (read_value (c ∷ cs)) in
    if b == b'"'
    then some ([], c ∷ cs)
    else if b == b']'
    then none
    else if b == b'\\'
    then escaped
    else plain

-- no byte that wants an escape
abbrev pub Plain : Bytes → Type 0
Plain [] = Unit {0}
Plain (b ∷ bs) = (needs_escape b ≡ false) × Plain bs

pub read_value-quote : (rest : Bytes) → read_value (b'"' ∷ rest) ≡ some ([], rest)
unfolding read_value
read_value-quote [] = refl
read_value-quote (c ∷ cs) = refl

prepend-prepend :
    (a b : Bytes) (o : Option (Bytes × Bytes)) → prepend a (prepend b o) ≡ prepend (a ++ b) o
prepend-prepend a b none = refl
prepend-prepend a b (some (v, r)) = ap (λ (t : Bytes). some (t, r)) (sym (append_assoc a b v))

prepend-nil : (o : Option (Bytes × Bytes)) → prepend [] o ≡ o
prepend-nil none = refl
prepend-nil (some (v, r)) = refl

read_value-plain :
    (b : ℕ) (t : Bytes)
    → needs_escape b ≡ false
    → read_value (b ∷ t) ≡ prepend (b ∷ []) (read_value t)
unfolding read_value
read_value-plain b [] h = ground arith
read_value-plain b (c ∷ cs) h =
    let quote : (b == b'"') ≡ false = ground arith in
    let bracket : (b == b']') ≡ false = ground arith in
    let backslash : (b == b'\\') ≡ false = ground arith in rw (quote, bracket, backslash)

-- Plain bytes are read as they are.
pub read_value-append : (bs t : Bytes) → Plain bs → read_value (bs ++ t) ≡ prepend bs (read_value t)
read_value-append [] t h = sym (prepend-nil (read_value t))
read_value-append (b ∷ bs) t h =
    read_value-plain b (bs ++ t) h.0
    ∙ ap (prepend (b ∷ [])) (read_value-append bs t h.1)
    ∙ prepend-prepend (b ∷ []) bs (read_value t)

-- An escape is read as the byte that it stands for.
pub read_value-escape :
    (c : ℕ) (t : Bytes) → read_value (b'\\' ∷ c ∷ t) ≡ prepend (c ∷ []) (read_value t)
unfolding read_value
read_value-escape c t = refl
