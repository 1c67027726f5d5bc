-- ===== src/Senders/Tests.antt =====
-- Failed opens of a stream, and the theorem on them.
use solid_syslog.Base.{◌≡◌, refl, List, [], ◌∷◌, none, some}
use solid_syslog.Senders.OpenHealth.{Attempt, succeeds, fails, attempt_all, news, attempt_reports}

abbrev attempts : List Attempt
attempts = fails 4 1 7 none ∷ succeeds ∷ fails 4 1 7 (some 104) ∷ fails 4 1 7 (some 111) ∷ []

attempt_reports_example : (attempt_all attempts).0 ≡ news attempts
attempt_reports_example = attempt_reports attempts

-- the same failure with another native code is no news
repeat_is_silent : news (fails 4 1 7 (some 104) ∷ fails 4 1 7 (some 111) ∷ []) ≡ []
repeat_is_silent = refl
