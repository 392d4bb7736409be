-- ===== src/Examples/Graph.antt =====
-- The buffer of the graphs at a clock that goes back.
use wireview_pro_ii.Base.{ℕ, ◌≡◌, List, [], ◌∷◌, arith}
use wireview_pro_ii.Client.Snapshot.{TelemetrySnapshot}
use wireview_pro_ii.Client.Telemetry.{view}
use wireview_pro_ii.Graph.State.{empty}
use wireview_pro_ii.Graph.Times.{Inv}
use wireview_pro_ii.Graph.Changes.{
  Change, recorded, paused, toggled, windowed, AreWords, run, graph-Inv,
}
use wireview_pro_ii.Graph.Journal.{newest, journal, graph-newest}
use wireview_pro_ii.Examples.Fixtures.{hundredths, reading}

abbrev at : ℕ → ℕ → ℕ → TelemetrySnapshot ℕ
at session_id sequence time = record (view reading) {
  session_id = session_id;
  sequence = sequence;
  observed_at_ms = time;
}

-- The second sample is earlier, the third is old, and the fourth starts another session.
abbrev changes : List (Change ℕ)
changes =
    recorded (at 1 1 100)
    ∷ recorded (at 1 2 90)
    ∷ toggled 1
    ∷ recorded (at 1 2 95)
    ∷ paused
    ∷ windowed 300
    ∷ recorded (at 2 1 40)
    ∷ []

changes-AreWords : AreWords changes
changes-AreWords =
    (ground arith, (ground arith, (tt, (ground arith, (tt, (tt, (ground arith, tt)))))))

graph-Inv_example : Inv (run hundredths (λ n. n) changes empty)
graph-Inv_example = graph-Inv hundredths (λ n. n) changes changes-AreWords

graph-newest_example :
    (run hundredths (λ n. n) changes empty).samples
    ≡ newest hundredths (λ n. n) (journal hundredths (λ n. n) changes empty [])
graph-newest_example = graph-newest hundredths (λ n. n) changes
