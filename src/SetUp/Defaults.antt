-- ===== src/SetUp/Defaults.antt =====
-- What Initialise installs over the defaults, and what it reports.
use solid_syslog.SetUp.{Detail}
use solid_syslog.Base.{
  ◌≢◌, List, ℕ, ◌<◌, ltb, true, false, ◌&&◌, [], ◌∷◌, ◌++◌, Option, none, some, Bytes, ◌≡◌, refl,
  sym, ap, arith, subst, ltb→lt, Bool-cases, inl, inr, ◌⊎◌,
}
use mathlib.Core.Bool.{false≢true}
use solid_syslog.Formatter.{create}
use solid_syslog.SetUp.{
  create_null_buffer, create_null_sender, create_null_store, create_inconsistent_sd, Config,
  SettingUp, reset_to_defaults, install_structured_data, is_null, initialise,
}
use solid_syslog.SetUp.Install.{
  or_old, or_old_callback, installed, called_back, reported_if_null, with_buffer, with_sender,
  with_store, with_scratch, with_clock, with_hostname, with_app_name, with_process_id,
  with_discard_policy, with_halt, with_event_reporting,
}

-- which of the objects that are needed are NULL
abbrev pub null_reports : Config → List Detail
null_reports config =
    (reported_if_null config.buffer create_null_buffer
      ++ reported_if_null config.sender create_null_sender)
    ++ reported_if_null config.store create_null_store

-- what the configuration has installed, and what it has had reported
pub record SetsUp (config : Config) (s : SettingUp) : Type 0 where
  pub buffer : s.0.buffer ≡ installed config.buffer
  pub sender : s.0.sender ≡ installed config.sender
  pub store : s.0.store ≡ installed config.store
  pub scratch : s.0.scratch ≡ installed config.scratch
  pub clock : s.0.format.clock ≡ installed config.clock
  pub hostname :
      s.0.format.get_hostname ≡ called_back config.get_hostname config.get_hostname_context
  pub app_name :
      s.0.format.get_app_name ≡ called_back config.get_app_name config.get_app_name_context
  pub process_id :
      s.0.format.get_process_id ≡ called_back config.get_process_id config.get_process_id_context
  pub discard_policy :
      s.0.discard_policy ≡ called_back config.get_discard_policy config.discard_policy_context
  pub on_halt : s.0.on_halt ≡ called_back config.on_halt config.halt_context
  pub reporting :
      s.0.is_event_reporting_on
      ≡ called_back config.is_event_reporting_on config.event_reporting_context
  -- the array and its count as they are given, with no report of them; or none of the two, which is
  -- reported, where the array is NULL and the count is not 0
  pub structured_data :
      (((config.sd ≢ none) ⊎ (config.sd_count ≡ 0))
        × ((s.0.format.sd ≡ config.sd)
            × ((s.0.format.sd_count ≡ config.sd_count) × (s.1 ≡ null_reports config))))
      ⊎ (((config.sd ≡ none) × (0 < config.sd_count))
          × ((s.0.format.sd ≡ none)
              × ((s.0.format.sd_count ≡ 0)
                  × (s.1 ≡ null_reports config ++ create_inconsistent_sd ∷ []))))
  -- a record is not held, and the logger is not halted
  pub fresh : (s.0.holds_record ≡ false) × (s.0.halted ≡ false)

-- what Initialise is before the structured data is installed
abbrev before_sd : Config → Bytes → ℕ → SettingUp
before_sd config storage capacity = (
  record reset_to_defaults {
    record_storage = some (create storage capacity);
    record_capacity = capacity;
    buffer = installed config.buffer;
    sender = installed config.sender;
    store = installed config.store;
    format = record {
      clock = installed config.clock;
      get_hostname = called_back config.get_hostname config.get_hostname_context;
      get_app_name = called_back config.get_app_name config.get_app_name_context;
      get_process_id = called_back config.get_process_id config.get_process_id_context;
      sd = none;
      sd_count = 0;
    };
  },
  (reported_if_null config.buffer create_null_buffer
        ++ reported_if_null config.sender create_null_sender)
      ++ reported_if_null config.store create_null_store,
)

-- and what is installed after it
abbrev after_sd : Config → SettingUp → SettingUp
after_sd config s = (
  record s.0 {
    discard_policy =
        or_old_callback config.get_discard_policy config.discard_policy_context s.0.discard_policy;
    on_halt = or_old_callback config.on_halt config.halt_context s.0.on_halt;
    scratch = or_old config.scratch s.0.scratch;
    is_event_reporting_on =
        or_old_callback config.is_event_reporting_on config.event_reporting_context
          s.0.is_event_reporting_on;
  },
  s.1,
)

initialise-eq :
    (config : Config) (storage : Bytes) (capacity : ℕ)
    → initialise config storage capacity
      ≡ after_sd config
          (install_structured_data config.sd config.sd_count (before_sd config storage capacity))
unfolding initialise
initialise-eq config storage capacity = λ i.
    with_event_reporting config.is_event_reporting_on config.event_reporting_context
      (with_scratch config.scratch
        (with_halt config.on_halt config.halt_context
          (with_discard_policy config.get_discard_policy config.discard_policy_context
            (install_structured_data config.sd config.sd_count (
              with_process_id config.get_process_id config.get_process_id_context
                (with_app_name config.get_app_name config.get_app_name_context
                  (with_hostname config.get_hostname config.get_hostname_context
                    (with_clock config.clock
                      (with_store config.store
                        (with_sender config.sender
                          (with_buffer config.buffer
                            (
                              record reset_to_defaults {
                                record_storage = some (create storage capacity);
                                record_capacity = capacity;
                              },
                              [],
                            )
                            i)
                          i)
                        i)
                      i)
                    i)
                  i)
                i))
            i)
          i)
        i)
      i

consistent :
    (sd : Option ℕ) (count : ℕ) → (is_null sd && ltb 0 count) ≡ false → (sd ≢ none) ⊎ (count ≡ 0)
consistent none count e = inr (ground arith)
consistent (some a) count e = inl (λ h. absurd (false≢true (ap is_null h)))

inconsistent :
    (sd : Option ℕ) (count : ℕ) → (is_null sd && ltb 0 count) ≡ true → (sd ≡ none) × (0 < count)
inconsistent none count e = (refl, ltb→lt 0 count e)
inconsistent (some a) count e = absurd (false≢true e)

-- Initialise leaves no object and no callback out: each is what the configuration gives or a
-- default. It installs the array of structured data with its count as they are given, unless the array
-- is NULL with a count above 0: then it installs none with a count of 0 and reports that. What it
-- reports before is each of buffer, sender and store that is NULL, in this order, and nothing else. It
-- holds no record and is not halted.
pub initialise-SetsUp :
    (config : Config) (storage : Bytes) (capacity : ℕ)
    → SetsUp config (initialise config storage capacity)
unfolding install_structured_data
initialise-SetsUp config storage capacity =
    subst (SetsUp config) (sym (initialise-eq config storage capacity))
      (elim (Bool-cases (is_null config.sd && ltb 0 config.sd_count)) [
        | inl bad ↦ rw bad (record {
          buffer = refl;
          sender = refl;
          store = refl;
          scratch = refl;
          clock = refl;
          hostname = refl;
          app_name = refl;
          process_id = refl;
          discard_policy = refl;
          on_halt = refl;
          reporting = refl;
          structured_data = inr (inconsistent config.sd config.sd_count bad, (refl, (refl, refl)));
          fresh = (refl, refl);
        })
        | inr good ↦ rw good (record {
          buffer = refl;
          sender = refl;
          store = refl;
          scratch = refl;
          clock = refl;
          hostname = refl;
          app_name = refl;
          process_id = refl;
          discard_policy = refl;
          on_halt = refl;
          reporting = refl;
          structured_data = inl (consistent config.sd config.sd_count good, (refl, (refl, refl)));
          fresh = (refl, refl);
        })
      ])
