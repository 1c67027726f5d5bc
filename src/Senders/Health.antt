-- ===== src/Senders/Health.antt =====
-- What the reports of a sender tell of its health.
use solid_syslog.Base.{Bool, true, false, List, [], ◌∷◌, ◌++◌, Option, none, some, ◌≡◌, refl, ap}
use solid_syslog.Senders.{
  Category, delivery_failed, delivery_restored, records_lost, bad_argument, Report, HealthReporter,
  update_health,
}

-- A failure may be told only of a healthy sender, and a restoration only of one that failed.
abbrev pub after_report : Category → Option Bool → Option Bool
after_report delivery_failed none = none
after_report delivery_failed (some true) = some false
after_report delivery_failed (some false) = none
after_report delivery_restored none = none
after_report delivery_restored (some true) = none
after_report delivery_restored (some false) = some true
after_report records_lost t = t
after_report bad_argument t = t

-- the health that a listener knows from the reports, the last one first
abbrev pub told : List Report → Option Bool
told [] = some true
told (r ∷ rs) = after_report r.category (told rs)

pub update_health_lem :
    (healthy delivered : Bool) (reporter : HealthReporter) (rs : List Report)
    → told rs ≡ some healthy
    → let u = update_health healthy delivered reporter in
      (told (u.1 ++ rs) ≡ some u.0) × (u.0 ≡ delivered)
unfolding update_health
update_health_lem true true reporter rs h = (h, refl)
update_health_lem true false reporter rs h = (ap (after_report delivery_failed) h, refl)
update_health_lem false true reporter rs h = (ap (after_report delivery_restored) h, refl)
update_health_lem false false reporter rs h = (h, refl)
