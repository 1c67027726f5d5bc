-- ===== src/SetUp.antt =====
-- Core/Source/SolidSyslog.c, the other half: Initialise installs what a configuration gives over safe
-- defaults, and Log hands a request to the scratch. A pointer is its address, or `none` for NULL;
-- an object or a function is the module's own default or one that was given. The scratch, the
-- message formatter and the buffer are ports.
pub mod Install
pub mod Defaults
pub mod Request
mod Tests
use solid_syslog.Base.{
  ℕ, ltb, ◌+◌, Bool, true, false, not, ◌&&◌, List, [], ◌∷◌, ◌++◌, Option, none, some, Bytes, take,
  if◌then◌else◌, replicate,
}
use solid_syslog.Formatter.{Formatter, create, as_formatted_buffer}

-- the Null object or the default function, or the one at an address
pub data Installed : Type 0 where
  default : Installed
  given : ℕ → Installed

-- the details that set-up and Log report
pub data Detail : Type 0 where
  create_null_buffer create_null_sender create_null_store create_inconsistent_sd : Detail
  log_null_handle log_null_message log_inconsistent_sd : Detail

-- a callback and its context
pub record Callback : Type 0 where
  pub function : Installed
  pub context : Option ℕ

-- `struct SolidSyslogMessageFormatterContext`
pub record FormatContext : Type 0 where
  pub clock : Installed
  pub get_hostname : Callback
  pub get_app_name : Callback
  pub get_process_id : Callback
  pub sd : Option ℕ
  pub sd_count : ℕ

-- `struct SolidSyslog`
pub record SolidSyslog : Type 0 where
  pub buffer : Installed
  pub sender : Installed
  pub store : Installed
  pub scratch : Installed
  pub format : FormatContext
  pub record_storage : Option Formatter
  pub record_capacity : ℕ
  pub record_length : ℕ
  pub holds_record : Bool
  pub held_record_is_report : Bool
  pub held_record_loss_reported : Bool
  pub discard_policy : Callback
  pub on_halt : Callback
  pub is_event_reporting_on : Callback
  pub report_turned_down : Bool
  pub halted : Bool

-- `struct SolidSyslogConfig`
pub record Config : Type 0 where
  pub buffer : Option ℕ
  pub sender : Option ℕ
  pub store : Option ℕ
  pub scratch : Option ℕ
  pub clock : Option ℕ
  pub get_hostname : Option ℕ
  pub get_hostname_context : Option ℕ
  pub get_app_name : Option ℕ
  pub get_app_name_context : Option ℕ
  pub get_process_id : Option ℕ
  pub get_process_id_context : Option ℕ
  pub sd : Option ℕ
  pub sd_count : ℕ
  pub get_discard_policy : Option ℕ
  pub discard_policy_context : Option ℕ
  pub on_halt : Option ℕ
  pub halt_context : Option ℕ
  pub is_event_reporting_on : Option ℕ
  pub event_reporting_context : Option ℕ

abbrev pub no_callback : Callback
no_callback = record { function = default; context = none }

abbrev pub reset_to_defaults : SolidSyslog
reset_to_defaults = record {
  buffer = default;
  sender = default;
  store = default;
  scratch = default;
  format = record {
    clock = default;
    get_hostname = no_callback;
    get_app_name = no_callback;
    get_process_id = no_callback;
    sd = none;
    sd_count = 0;
  };
  record_storage = none;
  record_capacity = 0;
  record_length = 0;
  holds_record = false;
  held_record_is_report = false;
  held_record_loss_reported = false;
  discard_policy = no_callback;
  on_halt = no_callback;
  is_event_reporting_on = no_callback;
  report_turned_down = false;
  halted = false;
}

-- what an installation leaves, and what it reports
abbrev pub SettingUp : Type 0
SettingUp = SolidSyslog × List Detail

abbrev pub install_buffer : Option ℕ → SettingUp → SettingUp
install_buffer none (self, reports) = (self, reports ++ create_null_buffer ∷ [])
install_buffer (some a) (self, reports) = (record self { buffer = given a }, reports)

abbrev pub install_sender : Option ℕ → SettingUp → SettingUp
install_sender none (self, reports) = (self, reports ++ create_null_sender ∷ [])
install_sender (some a) (self, reports) = (record self { sender = given a }, reports)

abbrev pub install_store : Option ℕ → SettingUp → SettingUp
install_store none (self, reports) = (self, reports ++ create_null_store ∷ [])
install_store (some a) (self, reports) = (record self { store = given a }, reports)

abbrev pub install_clock : Option ℕ → SettingUp → SettingUp
install_clock none s = s
install_clock (some a) (self, reports) =
    (record self { format = record self.format { clock = given a } }, reports)

abbrev pub callback : ℕ → Option ℕ → Callback
callback a context = record { function = given a; context = context }

abbrev pub install_hostname : Option ℕ → Option ℕ → SettingUp → SettingUp
install_hostname none context s = s
install_hostname (some a) context (self, reports) =
    (record self { format = record self.format { get_hostname = callback a context } }, reports)

abbrev pub install_app_name : Option ℕ → Option ℕ → SettingUp → SettingUp
install_app_name none context s = s
install_app_name (some a) context (self, reports) =
    (record self { format = record self.format { get_app_name = callback a context } }, reports)

abbrev pub install_process_id : Option ℕ → Option ℕ → SettingUp → SettingUp
install_process_id none context s = s
install_process_id (some a) context (self, reports) =
    (record self { format = record self.format { get_process_id = callback a context } }, reports)

abbrev pub install_discard_policy : Option ℕ → Option ℕ → SettingUp → SettingUp
install_discard_policy none context s = s
install_discard_policy (some a) context (self, reports) =
    (record self { discard_policy = callback a context }, reports)

abbrev pub install_halt : Option ℕ → Option ℕ → SettingUp → SettingUp
install_halt none context s = s
install_halt (some a) context (self, reports) =
    (record self { on_halt = callback a context }, reports)

abbrev pub install_scratch : Option ℕ → SettingUp → SettingUp
install_scratch none s = s
install_scratch (some a) (self, reports) = (record self { scratch = given a }, reports)

abbrev pub install_event_reporting : Option ℕ → Option ℕ → SettingUp → SettingUp
install_event_reporting none context s = s
install_event_reporting (some a) context (self, reports) =
    (record self { is_event_reporting_on = callback a context }, reports)

abbrev pub is_null : Option ℕ → Bool
is_null none = true
is_null (some a) = false

unfoldable pub install_structured_data : Option ℕ → ℕ → SettingUp → SettingUp
install_structured_data configured count (self, reports) =
    if is_null configured && ltb 0 count then (self, reports ++ create_inconsistent_sd ∷ []) else (
      record self { format = record self.format { sd = configured; sd_count = count } },
      reports,
    )

-- `storage` is what the storage held
unfoldable pub initialise : Config → Bytes → ℕ → SettingUp
initialise config storage record_capacity =
    let self : SolidSyslog = record reset_to_defaults {
      record_storage = some (create storage record_capacity);
      record_capacity = record_capacity;
    } in
    let a =
      install_store config.store
        (install_sender config.sender (install_buffer config.buffer (self, []))) in
    let b =
      install_hostname config.get_hostname config.get_hostname_context
        (install_clock config.clock a) in
    let c = install_app_name config.get_app_name config.get_app_name_context b in
    let d = install_process_id config.get_process_id config.get_process_id_context c in
    let e = install_structured_data config.sd config.sd_count d in
    let f = install_discard_policy config.get_discard_policy config.discard_policy_context e in
    let g = install_scratch config.scratch (install_halt config.on_halt config.halt_context f) in
    install_event_reporting config.is_event_reporting_on config.event_reporting_context g

abbrev pub cleanup : SolidSyslog → SolidSyslog
cleanup self = reset_to_defaults

-- `struct LogRequest`; the message is its address
pub record LogRequest : Type 0 where
  pub handle : SolidSyslog
  pub message : ℕ
  pub sd : Option ℕ
  pub sd_count : ℕ

-- What DoLog reports, and the request that it hands to the scratch, if it does.
unfoldable pub request_of : SolidSyslog → ℕ → Option ℕ → ℕ → List Detail × Option LogRequest
request_of handle message sd sd_count =
    let inconsistent = is_null sd && ltb 0 sd_count in
    (
      if inconsistent then log_inconsistent_sd ∷ [] else [],
      some (record {
        handle = handle;
        message = message;
        sd = sd;
        sd_count = if inconsistent then 0 else sd_count;
      }),
    )

unfoldable pub do_log :
    Option SolidSyslog → Option ℕ → Option ℕ → ℕ → List Detail × Option LogRequest
do_log none message sd sd_count = (log_null_handle ∷ [], none)
do_log (some handle) none sd sd_count = (log_null_message ∷ [], none)
do_log (some handle) (some message) sd sd_count = request_of handle message sd sd_count

abbrev pub log : Option SolidSyslog → Option ℕ → List Detail × Option LogRequest
log handle message = do_log handle message none 0

abbrev pub log_with_sd :
    Option SolidSyslog → Option ℕ → Option ℕ → ℕ → List Detail × Option LogRequest
log_with_sd handle message sd sd_count = do_log handle message sd sd_count

-- `format` is the message formatter over the request. The result is what is written to the buffer:
-- `Length` bytes of the storage.
unfoldable pub format_into_scratch :
    (LogRequest → Formatter → Formatter) → Bytes → ℕ → LogRequest → Bytes
format_into_scratch format storage message_bytes request =
    let f = as_formatted_buffer (format request (create storage message_bytes)) in
    take f.position f.buffer
