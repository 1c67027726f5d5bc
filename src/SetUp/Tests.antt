-- ===== src/SetUp/Tests.antt =====
-- A configuration with no sender and no array for its count, and the theorems at it.
use solid_syslog.Base.{[], ◌∷◌, none, some, ◌≡◌, refl, replicate}
use solid_syslog.SetUp.{
  Config, create_null_sender, create_inconsistent_sd, log_inconsistent_sd, install_structured_data,
  initialise, reset_to_defaults, request_of, do_log,
}
use solid_syslog.SetUp.Defaults.{SetsUp, initialise-SetsUp}
use solid_syslog.SetUp.Request.{Logs, do_log-Requests}

abbrev config : Config
config = record {
  buffer = some 1;
  sender = none;
  store = some 3;
  scratch = none;
  clock = some 4;
  get_hostname = some 5;
  get_hostname_context = some 6;
  get_app_name = none;
  get_app_name_context = some 7;
  get_process_id = none;
  get_process_id_context = none;
  sd = none;
  sd_count = 2;
  get_discard_policy = some 8;
  discard_policy_context = none;
  on_halt = none;
  halt_context = none;
  is_event_reporting_on = none;
  event_reporting_context = none;
}

reports_both :
    (initialise config (replicate 16 0xFF) 16).1 ≡ create_null_sender ∷ create_inconsistent_sd ∷ []
unfolding initialise install_structured_data
reports_both = refl

reports_inconsistent :
    (do_log (some reset_to_defaults) (some 9) none 3).0 ≡ log_inconsistent_sd ∷ []
unfolding do_log request_of
reports_inconsistent = refl

initialise-SetsUp_example : SetsUp config (initialise config (replicate 16 0xFF) 16)
initialise-SetsUp_example = initialise-SetsUp config (replicate 16 0xFF) 16

do_log-Requests_example :
    Logs (some reset_to_defaults) (some 9) none 3 (do_log (some reset_to_defaults) (some 9) none 3)
do_log-Requests_example = do_log-Requests (some reset_to_defaults) (some 9) none 3
