-- ===== src/SetUp/Install.antt =====
-- What each Install function does, given or not.
use solid_syslog.Base.{ℕ, List, [], ◌∷◌, ◌++◌, Option, none, some, ◌≡◌, refl, sym, ap, append-nil}
use solid_syslog.SetUp.{
  install_clock, install_hostname, install_app_name, install_process_id, install_discard_policy,
  install_halt, install_scratch, install_event_reporting, Installed, default, given, Detail,
  create_null_buffer, create_null_sender, create_null_store, Callback, callback, no_callback,
  SettingUp, install_buffer, install_sender, install_store,
}

-- what is given, or what was there
abbrev pub or_old : Option ℕ → Installed → Installed
or_old none old = old
or_old (some a) old = given a

abbrev pub or_old_callback : Option ℕ → Option ℕ → Callback → Callback
or_old_callback none context old = old
or_old_callback (some a) context old = callback a context

abbrev pub installed : Option ℕ → Installed
installed configured = or_old configured default

abbrev pub called_back : Option ℕ → Option ℕ → Callback
called_back configured context = or_old_callback configured context no_callback

abbrev pub reported_if_null : Option ℕ → Detail → List Detail
reported_if_null none d = d ∷ []
reported_if_null (some a) d = []

-- Each installation in one equation.
pub with_buffer :
    (o : Option ℕ) (s : SettingUp)
    → install_buffer o s
      ≡ (record s.0 { buffer = or_old o s.0.buffer }, s.1 ++ reported_if_null o create_null_buffer)
with_buffer none s = refl
with_buffer (some a) s =
    ap (λ (r : List Detail). (record s.0 { buffer = given a }, r)) (sym (append-nil s.1))

pub with_sender :
    (o : Option ℕ) (s : SettingUp)
    → install_sender o s
      ≡ (record s.0 { sender = or_old o s.0.sender }, s.1 ++ reported_if_null o create_null_sender)
with_sender none s = refl
with_sender (some a) s =
    ap (λ (r : List Detail). (record s.0 { sender = given a }, r)) (sym (append-nil s.1))

pub with_store :
    (o : Option ℕ) (s : SettingUp)
    → install_store o s
      ≡ (record s.0 { store = or_old o s.0.store }, s.1 ++ reported_if_null o create_null_store)
with_store none s = refl
with_store (some a) s =
    ap (λ (r : List Detail). (record s.0 { store = given a }, r)) (sym (append-nil s.1))

pub with_scratch :
    (o : Option ℕ) (s : SettingUp)
    → install_scratch o s ≡ (record s.0 { scratch = or_old o s.0.scratch }, s.1)
with_scratch none s = refl
with_scratch (some a) s = refl

pub with_clock :
    (o : Option ℕ) (s : SettingUp)
    → install_clock o s
      ≡ (record s.0 { format = record s.0.format { clock = or_old o s.0.format.clock } }, s.1)
with_clock none s = refl
with_clock (some a) s = refl

pub with_hostname :
    (o c : Option ℕ) (s : SettingUp)
    → install_hostname o c s ≡ (
      record s.0 {
        format = record s.0.format { get_hostname = or_old_callback o c s.0.format.get_hostname };
      },
      s.1,
    )
with_hostname none c s = refl
with_hostname (some a) c s = refl

pub with_app_name :
    (o c : Option ℕ) (s : SettingUp)
    → install_app_name o c s ≡ (
      record s.0 {
        format = record s.0.format { get_app_name = or_old_callback o c s.0.format.get_app_name };
      },
      s.1,
    )
with_app_name none c s = refl
with_app_name (some a) c s = refl

pub with_process_id :
    (o c : Option ℕ) (s : SettingUp)
    → install_process_id o c s ≡ (
      record s.0 {
        format = record s.0.format {
          get_process_id = or_old_callback o c s.0.format.get_process_id;
        };
      },
      s.1,
    )
with_process_id none c s = refl
with_process_id (some a) c s = refl

pub with_discard_policy :
    (o c : Option ℕ) (s : SettingUp)
    → install_discard_policy o c s
      ≡ (record s.0 { discard_policy = or_old_callback o c s.0.discard_policy }, s.1)
with_discard_policy none c s = refl
with_discard_policy (some a) c s = refl

pub with_halt :
    (o c : Option ℕ) (s : SettingUp)
    → install_halt o c s ≡ (record s.0 { on_halt = or_old_callback o c s.0.on_halt }, s.1)
with_halt none c s = refl
with_halt (some a) c s = refl

pub with_event_reporting :
    (o c : Option ℕ) (s : SettingUp)
    → install_event_reporting o c s
      ≡ (record s.0 { is_event_reporting_on = or_old_callback o c s.0.is_event_reporting_on }, s.1)
with_event_reporting none c s = refl
with_event_reporting (some a) c s = refl
