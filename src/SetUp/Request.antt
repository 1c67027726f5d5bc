-- ===== src/SetUp/Request.antt =====
-- The request that Log hands to the scratch.
use solid_syslog.Base.{
  Bool, true, false, ◌⊎◌, ◌<◌, inl, inr, sym, Bool-cases, ltb→lt, ℕ, ltb, ◌&&◌, List, [], ◌∷◌,
  Option, none, some, if◌then◌else◌, ◌≡◌, ◌≢◌, refl, ap, arith,
}
use mathlib.Core.Bool.{false≢true}
use solid_syslog.SetUp.{
  Detail, log_inconsistent_sd, log_null_handle, log_null_message, SolidSyslog, is_null, LogRequest,
  request_of, do_log,
}

-- What Log makes of a handle and a message: a request of these. An array that is NULL with a count
-- above 0 is reported, and its count is 0 in the request; else the count is as given, with no report.
pub record Requests (handle : SolidSyslog) (message : ℕ) (sd : Option ℕ) (count : ℕ)
    (r : List Detail × Option LogRequest) : Type 0 where
  pub request : LogRequest
  pub handed_on : r.1 ≡ some request
  pub same_message : request.message ≡ message
  pub same_sd : request.sd ≡ sd
  pub same_handle : request.handle ≡ handle
  pub counted :
      (((sd ≢ none) ⊎ (count ≡ 0)) × ((request.sd_count ≡ count) × (r.0 ≡ [])))
      ⊎ (((sd ≡ none) × (0 < count)) × ((request.sd_count ≡ 0) × (r.0 ≡ log_inconsistent_sd ∷ [])))

-- what it makes of any arguments
pub data Logs (handle : Option SolidSyslog) (message sd : Option ℕ) (count : ℕ)
    (r : List Detail × Option LogRequest) : Type 0 where
  no_handle : handle ≡ none → r ≡ (log_null_handle ∷ [], none) → Logs handle message sd count r
  no_message :
      handle ≢ none
      → message ≡ none
      → r ≡ (log_null_message ∷ [], none)
      → Logs handle message sd count r
  requested :
      (h : SolidSyslog) (m : ℕ)
      → handle ≡ some h
      → message ≡ some m
      → Requests h m sd count r
      → Logs handle message sd count r

abbrev is_there : {A : Type 0} → Option A → Bool
is_there none = false
is_there (some a) = true

request_of-Requests :
    (handle : SolidSyslog) (message : ℕ) (sd : Option ℕ) (count : ℕ)
    → Requests handle message sd count (request_of handle message sd count)
unfolding request_of
request_of-Requests handle message sd count = record {
  request = record {
    handle = handle;
    message = message;
    sd = sd;
    sd_count = if is_null sd && ltb 0 count then 0 else count;
  };
  handed_on = refl;
  same_message = refl;
  same_sd = refl;
  same_handle = refl;
  counted = by_array sd;
}
  where
    by_array :
        (sd : Option ℕ)
        → let inconsistent = is_null sd && ltb 0 count in
          (((sd ≢ none) ⊎ (count ≡ 0))
            × (((if inconsistent then 0 else count) ≡ count)
                × ((if inconsistent then log_inconsistent_sd ∷ [] else []) ≡ [])))
          ⊎ (((sd ≡ none) × (0 < count))
              × (((if inconsistent then 0 else count) ≡ 0)
                  × ((if inconsistent then log_inconsistent_sd ∷ [] else [])
                      ≡ log_inconsistent_sd ∷ [])))
    by_array (some a) = inl (inl (λ e. absurd (false≢true (sym (ap is_there e)))), (refl, refl))
    by_array none = elim (Bool-cases (ltb 0 count)) [
      | inl some_count ↦ rw some_count (inr ((refl, ltb→lt 0 count some_count), (refl, refl)))
      | inr no_count ↦ rw no_count (inl (inr (ground arith), (refl, refl)))
    ]

-- Log with a handle and a message hands one request on, of the same handle, message and array; an
-- array that is NULL with a count above 0 is reported, once, and has the count 0 in the request, and
-- else the count is the one given, with no report. Without a handle it hands nothing on and reports
-- that, once; with a handle but without a message it hands nothing on and reports that, once.
pub do_log-Requests :
    (handle : Option SolidSyslog) (message sd : Option ℕ) (count : ℕ)
    → Logs handle message sd count (do_log handle message sd count)
unfolding do_log
do_log-Requests none message sd count = no_handle refl refl
do_log-Requests (some handle) none sd count =
    no_message (λ e. absurd (false≢true (sym (ap is_there e)))) refl refl
do_log-Requests (some handle) (some message) sd count =
    requested handle message refl refl (request_of-Requests handle message sd count)
