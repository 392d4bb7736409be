-- ===== src/Examples/Client.antt =====
-- The answers of a daemon as the client takes them, at a daemon with a history of one byte repeated.
use wireview_pro_ii.Base.{
  ℕ, ◌+◌, ◌≡◌, refl, false, List, [], ◌∷◌, length, length-replicate, replicate, ◌*◌, ap,
}
use wireview_pro_ii.Domain.Telemetry.{PinMetrics, Telemetry}
use wireview_pro_ii.Ipc.Messages.{StatusDto, HistoryDumpDto, telemetry_dto}
use wireview_pro_ii.Ipc.Compatibility.{api_version, api_capabilities, compatible, validate_status}
use wireview_pro_ii.Client.Errors.{good}
use wireview_pro_ii.Client.Snapshot.{try_from}
use wireview_pro_ii.Client.Telemetry.{view, IsFinite, try_from-telemetry_dto}
use wireview_pro_ii.Client.Download.{Daemon, flash_length, download_history}
use wireview_pro_ii.Client.Lease.{Downloaded, download_history-Downloaded}
use wireview_pro_ii.Client.Honest.{Honest, chunk, download_history_lem}
use wireview_pro_ii.Examples.Fixtures.{hundredths, reading}

-- The pin with the number `n` carries `n` amperes.
abbrev pin : ℕ → PinMetrics ℕ
pin n = record { voltage_v = 1210; current_a = n * 100; power_w = n * 1210 }

abbrev loaded : Telemetry ℕ
loaded = record reading {
  metrics = record (reading.metrics) { pins = pin 1 ∷ pin 2 ∷ pin 3 ∷ pin 4 ∷ pin 5 ∷ pin 6 ∷ [] };
}

loaded-IsFinite : IsFinite hundredths loaded
unfolding IsFinite
loaded-IsFinite = (refl, refl, refl, refl)

try_from-telemetry_dto_example :
    try_from hundredths (telemetry_dto hundredths loaded) ≡ good (view loaded)
try_from-telemetry_dto_example = try_from-telemetry_dto hundredths loaded refl loaded-IsFinite

abbrev report : StatusDto
report = record {
  api_version = api_version;
  api_compatibility_id = "wireview-2-047f86fdb168c045";
  api_capabilities = api_capabilities;
  daemon_version = "1";
  daemon_build_id = "b";
  state = "ready";
  sequence = 1;
  session_id = 4;
  connected_port = "p";
  last_disconnect_reason = "";
  busy_operation = "";
  recovery_cause = "";
  candidates = [];
  poll_interval_ms = 500;
  display_paused = false;
  display_pause_debug_active = false;
  display_pause_history_active = false;
  display_pause_remaining_ms = 0;
}

abbrev lease : HistoryDumpDto
lease = record { dump_id = 3; session_id = 4; total_bytes = flash_length }

-- A list of any length; it stays shut, since the history is long.
filled : (n : ℕ) → (log : List ℕ) × (length log ≡ n)
filled n = (replicate n 0x5a, length-replicate n 0x5a)

abbrev history : List ℕ
history = (filled flash_length).0

-- The world counts the calls.
abbrev steady : Daemon ℕ
steady = record {
  connect = λ w. (good tt, w + 1);
  get_status = λ w. (good report, w + 1);
  begin_history_dump = λ w. (good lease, w + 1);
  read_history_dump_chunk = λ id offset size w. (good (chunk history offset size), w + 1);
  end_history_dump = λ id w. (good tt, w + 1);
  is_cancelled = λ w. false;
  progress = λ n w. w;
  required_schema = "wireview-2-047f86fdb168c045";
}

report_accepted : validate_status steady.required_schema report ≡ compatible
unfolding validate_status
report_accepted = refl

abbrev steady_Honest : Honest steady history
steady_Honest = record {
  status = report;
  dump = lease;
  whole = (filled flash_length).1;
  runs = λ w. refl;
  connects = λ w. refl;
  reports = λ w. refl;
  accepted = report_accepted;
  begins = λ w. refl;
  sized = refl;
  same_session = refl;
  reads = λ offset size w. refl;
  ends = λ w. refl;
}

download_history_lem_example : (download_history steady 0).0 ≡ good history
download_history_lem_example = download_history_lem steady history steady_Honest 0

downloaded : download_history steady 0 ≡ (good history, (download_history steady 0).1)
downloaded =
    ap (λ r. (r, (download_history steady 0).1))
      (download_history_lem steady history steady_Honest 0)

download_history-Downloaded_example : Downloaded steady history 0 (download_history steady 0).1
download_history-Downloaded_example =
    download_history-Downloaded steady history 0 (download_history steady 0).1 downloaded
