-- ===== src/Examples/Fixtures.antt =====
-- A device with a clock for the examples: numbers are hundredths, and a port has one device that
-- answers as it is told.
use wireview_pro_ii.Base.{
  ℕ, ◌+◌, ◌-◌, ◌*◌, ◌/◌, ◌^◌, true, false, List, [], ◌∷◌, none, some, inl, inr, ltb, ◌==◌,
}
use wireview_pro_ii.Base.Int.{pos, pos_part}
use wireview_pro_ii.Domain.Error.{Result, ok}
use wireview_pro_ii.Domain.Telemetry.{DeviceIdentity, Telemetry}
use wireview_pro_ii.Float.{FloatOps}
use wireview_pro_ii.Config.Types.{DeviceConfiguration}
use wireview_pro_ii.Config.Items.{Serde, null}
use wireview_pro_ii.Config.Mock.{mock}
use wireview_pro_ii.Domain.Connection.{ready, DaemonState}
use wireview_pro_ii.Manager.Backend.{Backend, Env}
use wireview_pro_ii.Manager.State.{Manager}

-- A number that is not negative, in hundredths.
abbrev pub hundredths : FloatOps ℕ
hundredths = record {
  of_int = λ n. pos_part n * 100;
  literal = λ n places. pos_part n * 100 / 10 ^ places;
  negative_zero = 0;
  add = λ a b. a + b;
  sub = λ a b. a - b;
  mul = λ a b. a * b / 100;
  div = λ a b. a * 100 / b;
  abs = λ a. a;
  round = λ a. (a + 50) / 100 * 100;
  lt = ltb;
  eq = λ a b. a == b;
  is_finite = λ a. true;
  to_int = λ a. pos (a / 100);
}

pub record Device : Type 0 where
  pub time : ℕ
  pub active : DeviceConfiguration ℕ

-- How the device answers where the examples differ.
pub record Answers : Type 0 where
  pub telemetry : Result (Telemetry ℕ)
  pub store : DeviceConfiguration ℕ → Result (Unit {0})
  pub chunk : Result (List ℕ)
  pub resume : Result (Unit {0})

abbrev pub mock_configuration : DeviceConfiguration ℕ
mock_configuration = mock hundredths

abbrev pub device : Device
device = record { time = 5000; active = mock_configuration }

abbrev pub reading : Telemetry ℕ
reading = record {
  sequence = 0;
  session_id = 0;
  observed_at_ms = 7;
  stale = false;
  metrics = record {
    vdd_v = 330;
    avg_voltage_v = 1210;
    total_current_a = 2000;
    total_power_w = 24200;
    fan_duty_percent = 4000;
    cable_capability_w = 600;
    pins = [];
    temperatures = record {
      input_c = 4000;
      output_c = 4100;
      external_1_c = none;
      external_2_c = none;
    };
  };
  active_fault_mask = 0;
  logged_fault_mask = 0;
  active_faults = [];
  logged_faults = [];
}

abbrev pub identity : DeviceIdentity
identity = record {
  unique_id = "0011";
  vendor_id = 0x0483;
  product_id = 0x5740;
  firmware_version = "1";
  hardware_revision = "2";
  config_version = 2;
  product_name = "WireView Pro II";
  build_string = "";
  capabilities = [];
}

abbrev pub backend_of : Answers → Backend ℕ Device
backend_of a = record {
  now = λ d. d.time;
  sleep = λ n d. record d { time = d.time + n };
  new_cancellation = λ d. (0, d);
  cancel = λ cell d. d;
  connect = λ port d. (ok identity, d);
  disconnect = λ d. d;
  read_build_information = λ d. (ok ("WireView Pro II", "build"), d);
  read_telemetry = λ d. (a.telemetry, d);
  read_configuration = λ d. (ok d.active, d);
  write_configuration = λ c d. (ok tt, record d { active = c });
  nvm_configuration = λ operation d. (a.store d.active, d);
  reboot_device = λ d. (ok tt, d);
  clear_faults = λ active logged d. (ok tt, d);
  pause_history_updates = λ d. (ok tt, d);
  resume_history_updates = λ d. (a.resume, d);
  read_history_chunk = λ offset size cell lease d. (a.chunk, d);
  read_theme_asset = λ slot d. (ok [], d);
  write_theme_asset = λ slot content d. (ok tt, d);
  set_screen = λ screen d. (ok tt, d);
}

-- A text has no settings, and settings have no items.
abbrev pub serde : Serde ℕ
serde = record {
  to_value = λ settings. null;
  to_string = λ document. "";
  serialize = λ document. inr "";
  from_str = λ text. inl "no document";
  settings_from_str = λ text. inl "no settings";
}

abbrev pub env_of : Answers → Env ℕ Device
env_of a = record { floats = hundredths; backend = backend_of a; serde = serde }

-- Everything works.
abbrev pub sound : Answers
sound = record {
  telemetry = ok reading;
  store = λ active. ok tt;
  chunk = ok (1 ∷ []);
  resume = ok tt;
}

abbrev state : DaemonState ℕ
state = record {
  sequence = 3;
  session_id = 1;
  connection = ready 1;
  connected_port = some "p";
  last_disconnect_reason = none;
  identity = some identity;
  telemetry = some (record reading { session_id = 1 });
}

-- A manager with a device on the port "p", in its first session.
abbrev pub attached : Manager ℕ Device
attached = record {
  device = device;
  poll_interval = 500;
  published = state;
  events = [];
  state = state;
  current_port = some "p";
  retry = none;
  consecutive_poll_failures = 2;
  last_successful_poll = some 4000;
  active_history_dump = none;
  next_history_dump_id = 0;
  debug_pause_expires_at = none;
  display_physically_paused = false;
  display_resume_retry_at = none;
  history_cancellation = none;
  last_nvm_mutation = some 4500;
}
