-- ===== src/Senders/Stream/Peer.antt =====
-- The other end of a stream: a receiver of RFC 6587 octet counting, written apart from the sender.
use solid_syslog.Base.{
  ℕ, zero, suc, ◌+◌, ◌-◌, ◌*◌, ◌^◌, ◌≤◌, ◌<◌, min, ◌≡◌, refl, ap, ◌∙◌, false, ◌==◌, if◌then◌else◌,
  List, [], ◌∷◌, ◌++◌, append_assoc, arith, length, take, Bytes, length-take, length-append, map,
}
use solid_syslog.Formatter.Decimal.{AllDigits, read_decimal}
use solid_syslog.Senders.{Report}
use solid_syslog.Senders.Stream.{Call, resolves, opens, sends, closes, raises, prefix_bytes}
use solid_syslog.Senders.Stream.Frame.{prefix_bytes_lem}

-- The receiver is in the length of a frame, or inside a message, of which so many bytes are missing
-- behind the next one.
pub data Phase : Type 0 where
  counting : ℕ → Phase
  reading : ℕ → Bytes → Phase

-- the messages received, the last one first
pub record Peer : Type 0 where
  pub phase : Phase
  pub got : List Bytes

abbrev pub begin_message : ℕ → List Bytes → Peer
begin_message zero got = record { phase = counting 0; got = [] ∷ got }
begin_message (suc n) got = record { phase = reading n []; got = got }

abbrev pub hear_byte : Phase → List Bytes → ℕ → Peer
hear_byte (counting n) got b =
    if b == b' '
    then begin_message n got
    else record { phase = counting (n * 10 + (b - b'0')); got = got }
hear_byte (reading zero start) got b = record { phase = counting 0; got = (start ++ b ∷ []) ∷ got }
hear_byte (reading (suc n) start) got b = record { phase = reading n (start ++ b ∷ []); got = got }

unfoldable pub hear : Peer → Bytes → Peer
hear p [] = p
hear p (b ∷ bs) = hear (hear_byte p.phase p.got b) bs

-- What arrives of a write that failed: so many bytes, at least the last one missing.
abbrev pub cut_short : (Bytes → ℕ) → Bytes → Bytes
cut_short part bytes = take (min (part bytes) (length bytes - 1)) bytes

-- what the peer has received, from the calls of the sender, the last one first; `part` says how
-- much of each failed write arrives
abbrev pub peer : (Bytes → ℕ) → List Call → Peer
peer part [] = record { phase = counting 0; got = [] }
peer part (resolves host port resolved ∷ cs) = peer part cs
peer part (opens opened ∷ cs) = record (peer part cs) { phase = counting 0 }
peer part (sends bytes sent ∷ cs) =
    hear (peer part cs) (if sent then bytes else cut_short part bytes)
peer part (closes ∷ cs) = peer part cs
peer part (raises r ∷ cs) = peer part cs

pub peer-raises :
    (part : Bytes → ℕ) (rs : List Report) (cs : List Call)
    → peer part (map raises rs ++ cs) ≡ peer part cs
peer-raises part [] cs = refl
peer-raises part (r ∷ rs) cs = peer-raises part rs cs

hear-append : (p : Peer) (xs ys : Bytes) → hear p (xs ++ ys) ≡ hear (hear p xs) ys
unfolding hear
hear-append p [] ys = refl
hear-append p (x ∷ xs) ys = hear-append (hear_byte p.phase p.got x) xs ys

-- Digits make the number that they stand for.
hear-digits :
    (ds : Bytes) (acc : ℕ) (got : List Bytes)
    → AllDigits ds
    → hear (record { phase = counting acc; got = got }) ds
      ≡ record { phase = counting (read_decimal acc ds); got = got }
unfolding hear read_decimal
hear-digits [] acc got h = refl
hear-digits (d ∷ ds) acc got h =
    let no_space : (d == b' ') ≡ false = ground arith in
    rw no_space (hear-digits ds (acc * 10 + (d - b'0')) got h.1)

-- The last byte of a message makes it whole.
hear-message :
    (bs : Bytes) (n : ℕ) (start : Bytes) (got : List Bytes)
    → length bs ≡ suc n
    → hear (record { phase = reading n start; got = got }) bs
      ≡ record { phase = counting 0; got = (start ++ bs) ∷ got }
unfolding hear
hear-message [] n start got h = absurd (omega arith)
hear-message (b ∷ []) zero start got h = refl
hear-message (b ∷ c ∷ bs) zero start got h = absurd (omega arith)
hear-message (b ∷ bs) (suc n) start got h =
    hear-message bs n (start ++ b ∷ []) got (omega arith)
    ∙ ap (λ (t : Bytes). record { phase = counting 0; got = t ∷ got })
        (append_assoc start (b ∷ []) bs)

-- Without its last byte no message arrives.
hear-part :
    (bs : Bytes) (n : ℕ) (start : Bytes) (got : List Bytes)
    → length bs ≤ n
    → (hear (record { phase = reading n start; got = got }) bs).got ≡ got
unfolding hear
hear-part [] n start got h = refl
hear-part (b ∷ bs) zero start got h = absurd (omega arith)
hear-part (b ∷ bs) (suc n) start got h = hear-part bs n (start ++ b ∷ []) got (omega arith)

-- A message of a stream: not empty, and its length has 32 bits.
abbrev pub IsMessage : Bytes → Type 0
IsMessage m = (0 < length m) × (length m < 2 ^ 32)

AllDigits-take : (k : ℕ) (ds : Bytes) → AllDigits ds → AllDigits (take k ds)
AllDigits-take zero ds h = tt
AllDigits-take (suc k) [] h = tt
AllDigits-take (suc k) (d ∷ ds) h = (h.0, AllDigits-take k ds h.1)

take-append_left : (k : ℕ) (xs ys : Bytes) → k ≤ length xs → take k (xs ++ ys) ≡ take k xs
take-append_left zero xs ys h = refl
take-append_left (suc k) [] ys h = absurd (omega arith)
take-append_left (suc k) (x ∷ xs) ys h = ap (◌∷◌ x) (take-append_left k xs ys (omega arith))

length-cut_short : (part : Bytes → ℕ) (bs : Bytes) → length (cut_short part bs) ≤ length bs - 1
length-cut_short part bs = omega (arith, length-take (min (part bs) (length bs - 1)) bs)

begin_some :
    (n k : ℕ) (got : List Bytes)
    → n ≡ suc k
    → begin_message n got ≡ record { phase = reading k []; got = got }
begin_some n k got e = rw e refl

module _ (part : Bytes → ℕ) (m : Bytes) (h : IsMessage m) (got : List Bytes) where
  -- Behind the prefix of a message the receiver waits for the message.
  pub hear-prefix :
      hear (record { phase = counting 0; got = got }) (prefix_bytes (length m))
      ≡ record { phase = reading (length m - 1) []; got = got }
  hear-prefix =
      let (ds, numeral, e) = prefix_bytes_lem (length m) h.1 in
      let some_left : read_decimal 0 ds ≡ suc (length m - 1) = omega (arith, numeral.value, h.0) in
      ap (hear (record { phase = counting 0; got = got })) e
      ∙ hear-append (record { phase = counting 0; got = got }) ds (b' ' ∷ [])
      ∙ ap (λ (p : Peer). hear p (b' ' ∷ [])) (hear-digits ds 0 got numeral.digits)
      ∙ unfold hear in begin_some (read_decimal 0 ds) (length m - 1) got some_left

  -- Of a prefix that is cut short no message comes.
  pub hear-cut_prefix :
      (hear
        (record { phase = counting 0; got = got })
        (cut_short part (prefix_bytes (length m)))).got
      ≡ got
  hear-cut_prefix =
      let (ds, numeral, e) = prefix_bytes_lem (length m) h.1 in
      let bytes = prefix_bytes (length m) in
      let k = min (part bytes) (length bytes - 1) in
      let size : length bytes ≡ length ds + 1 = ap length e ∙ length-append ds (b' ' ∷ []) in
      let inside : take k bytes ≡ take k ds =
        ap (take k) e ∙ take-append_left k ds (b' ' ∷ []) (omega arith) in
      ap (λ (bs : Bytes). (hear (record { phase = counting 0; got = got }) bs).got) inside
      ∙ ap (λ (p : Peer). p.got)
          (hear-digits (take k ds) 0 got (AllDigits-take k ds numeral.digits))

  pub hear-whole :
      hear (record { phase = reading (length m - 1) []; got = got }) m
      ≡ record { phase = counting 0; got = m ∷ got }
  hear-whole = hear-message m (length m - 1) [] got (omega (arith, h.0))

  pub hear-cut_message :
      (hear (record { phase = reading (length m - 1) []; got = got }) (cut_short part m)).got ≡ got
  hear-cut_message = hear-part (cut_short part m) (length m - 1) [] got (length-cut_short part m)
