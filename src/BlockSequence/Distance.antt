-- ===== src/BlockSequence/Distance.antt =====
-- The circle of sequence numbers, and that `NextPresentSequence` ends on a block of the run.
use mathlib.Core.Bool.{false≢true}
use solid_syslog.Base.{
  ℕ, zero, suc, ◌+◌, ◌-◌, ◌%◌, ◌≤◌, ◌<◌, ◌≡◌, ◌≢◌, refl, ap, sym, ◌∙◌, Bool, true, Bool-cases, inl,
  inr, ◌==◌, ==_iff, arith, if◌then◌else◌,
}
use solid_syslog.BlockSequence.{next_sequence, next_present_loop}

-- how far it is from one number on to another
abbrev pub distance : ℕ → ℕ → ℕ
distance from target = (target + 100 - from) % 100

pub set_same : (index : ℕ) (b other : Bool) → (if index == index then b else other) ≡ b
set_same index b other = rw ((==_iff index index).1 refl) refl

pub set_other :
    (i index : ℕ) (b other : Bool) → i ≢ index → (if i == index then b else other) ≡ other
set_other i index b other apart = elim (Bool-cases (i == index)) [
  | inl same ↦ absurd (apart ((==_iff i index).0 same))
  | inr differs ↦ rw differs refl
]

-- a block that is present, nearer to `target`
pub record Nearer (present : ℕ → Bool) (current target r : ℕ) : Type 0 where
  pub small : r < 100
  pub is_present : present r ≡ true
  pub nearer : distance r target < distance current target

-- As far as to a block that is present, more fuel changes nothing.
pub next_present_loop-Nearer :
    (fuel : ℕ) (present : ℕ → Bool) (current target : ℕ)
    → current < 100
    → target < 100
    → present target ≡ true
    → current ≢ target
    → distance current target ≤ fuel
    → Nearer present current target (next_present_loop fuel present current)
unfolding next_present_loop
next_present_loop-Nearer zero present current target c_small t_small there apart enough =
    absurd (apart (omega (arith, c_small, t_small, enough)))
next_present_loop-Nearer (suc fuel) present current target c_small t_small there apart enough =
    let next = next_sequence current in
    let again = next_present_loop-Nearer fuel present next target (omega arith) t_small there in
    let step : distance next target + 1 ≡ distance current target =
      closer current target c_small t_small apart in
    elim (Bool-cases (present next)) [
      | inl here ↦
          rw here (record { small = omega arith; is_present = here; nearer = omega (arith, step) })
      | inr hole ↦
          let rest =
            again (λ e. absurd (false≢true (sym hole ∙ ap present e ∙ there)))
              (omega (arith, step, enough)) in
          rw hole (record {
            small = rest.small;
            is_present = rest.is_present;
            nearer = omega (arith, rest.nearer, step);
          })
    ]
  where
    closer :
        (current target : ℕ)
        → current < 100
        → target < 100
        → current ≢ target
        → distance (next_sequence current) target + 1 ≡ distance current target
    closer current target c_small t_small apart = omega (arith, c_small, t_small, apart)
