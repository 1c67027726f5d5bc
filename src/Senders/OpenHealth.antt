-- ===== src/Senders/OpenHealth.antt =====
-- Core/Source/SolidSyslogStreamOpenHealth.c: a failed open of a stream is reported once a run.
use solid_syslog.Base.{
  Bool-cases, inl, inr, and_true, ==_iff, ℕ, ◌≡◌, refl, ap, Bool, true, false, not, ◌&&◌, ◌==◌,
  if◌then◌else◌, List, [], ◌∷◌, Option, none, some,
}

-- `struct SolidSyslogStreamOpenHealth`
pub record OpenHealth : Type 0 where
  pub failing : Bool
  pub failed_detail : ℕ

-- a report of a failure: severity, category, detail, and the native code where there is one
pub record FailureReport : Type 0 where
  pub severity : ℕ
  pub category : ℕ
  pub detail : ℕ
  pub native_code : Option ℕ

unfoldable pub admit : OpenHealth → ℕ → Bool × OpenHealth
admit self detail =
    let is_news = not (self.failing && self.failed_detail == detail) in
    (is_news, if is_news then record { failing = true; failed_detail = detail } else self)

unfoldable pub report_failure : OpenHealth → ℕ → ℕ → ℕ → List FailureReport × OpenHealth
report_failure self severity category detail =
    let (is_news, next) = admit self detail in
    let report : FailureReport = record {
      severity = severity;
      category = category;
      detail = detail;
      native_code = none;
    } in
    (if is_news then report ∷ [] else [], next)

unfoldable pub report_failure_with_native_code :
    OpenHealth → ℕ → ℕ → ℕ → ℕ → List FailureReport × OpenHealth
report_failure_with_native_code self severity category detail native_code =
    let (is_news, next) = admit self detail in
    let report : FailureReport = record {
      severity = severity;
      category = category;
      detail = detail;
      native_code = some native_code;
    } in
    (if is_news then report ∷ [] else [], next)

unfoldable pub opened : OpenHealth → OpenHealth
opened self = record self { failing = false }

-- an attempt to open: it succeeds, or fails with a detail and perhaps a native code
pub data Attempt : Type 0 where
  succeeds : Attempt
  fails : ℕ → ℕ → ℕ → Option ℕ → Attempt

-- what an attempt does to the health, and its reports
abbrev pub note : OpenHealth → Attempt → List FailureReport × OpenHealth
note self succeeds = ([], opened self)
note self (fails severity category detail none) = report_failure self severity category detail
note self (fails severity category detail (some code)) =
    report_failure_with_native_code self severity category detail code

-- the attempts of a stream from its creation on, the last one first: the reports of the last one
-- and the health behind it
unfoldable pub attempt_all : List Attempt → List FailureReport × OpenHealth
attempt_all [] = ([], record { failing = false; failed_detail = 0 })
attempt_all (a ∷ before) = note (attempt_all before).1 a

-- whether an attempt failed with this detail
abbrev pub failed_so : List Attempt → ℕ → Bool
failed_so [] detail = false
failed_so (succeeds ∷ before) detail = false
failed_so (fails severity category d code ∷ before) detail = d == detail

-- an attempt reports itself unless the attempt right before it failed with the same detail
abbrev pub news : List Attempt → List FailureReport
news [] = []
news (succeeds ∷ before) = []
news (fails severity category detail code ∷ before) =
    let report : FailureReport = record {
      severity = severity;
      category = category;
      detail = detail;
      native_code = code;
    } in
    if failed_so before detail then [] else report ∷ []

admit-failing :
    (h : OpenHealth) (detail : ℕ)
    → (admit h detail).1 ≡ record { failing = true; failed_detail = detail }
unfolding admit
admit-failing h detail = elim (Bool-cases (h.failing && h.failed_detail == detail)) [
  | inr news_now ↦ rw news_now refl
  | inl old ↦
      let (on, same) = and_true h.failing (h.failed_detail == detail) old in
      let known = (==_iff h.failed_detail detail).0 same in
      rw old (λ i. record { failing = on i; failed_detail = known i })
]

health-failed_so :
    (before : List Attempt) (detail : ℕ)
    → let h = (attempt_all before).1 in
      (h.failing && h.failed_detail == detail) ≡ failed_so before detail
unfolding attempt_all opened report_failure report_failure_with_native_code
health-failed_so [] detail = refl
health-failed_so (succeeds ∷ before) detail = refl
health-failed_so (fails s c d none ∷ before) detail =
    ap (λ (h : OpenHealth). h.failing && h.failed_detail == detail)
      (admit-failing (attempt_all before).1 d)
health-failed_so (fails s c d (some code) ∷ before) detail =
    ap (λ (h : OpenHealth). h.failing && h.failed_detail == detail)
      (admit-failing (attempt_all before).1 d)

if-not :
    {A : Type 0} (b c : Bool) (x y : A) → b ≡ c → (if not b then x else y) ≡ (if c then y else x)
if-not true c x y e = rw⁻¹ e refl
if-not false c x y e = rw⁻¹ e refl

-- Whatever attempts there were, the last one reports itself unless the attempt right before it
-- failed with the same detail; a success reports nothing.
pub attempt_reports : (attempts : List Attempt) → (attempt_all attempts).0 ≡ news attempts
unfolding attempt_all report_failure report_failure_with_native_code admit
attempt_reports [] = refl
attempt_reports (succeeds ∷ before) = refl
attempt_reports (fails s c d none ∷ before) =
    let h = (attempt_all before).1 in
    if-not (h.failing && h.failed_detail == d) (failed_so before d) _ _ (health-failed_so before d)
attempt_reports (fails s c d (some code) ∷ before) =
    let h = (attempt_all before).1 in
    if-not (h.failing && h.failed_detail == d) (failed_so before d) _ _ (health-failed_so before d)
