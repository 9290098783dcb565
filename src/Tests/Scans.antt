-- ===== src/Tests/Scans.antt =====
-- A scan that is requested and executed twice, with a pipeline that counts its runs.
use tasks_management.Base.{List, [], count_where, false, none, refl, true, ℕ, ◌+◌, ◌∷◌, ◌≡◌, ◌≤◌}
use tasks_management.Scans.{
  ScanPipeline, ScanRun, ScanTicket, ScanWorld, end_run, execute, in_state, is_terminal, queued,
  raised, returned, run_pipeline, running, transition,
}
use tasks_management.Scans.Claims.{
  Op, at_most_one_start, enqueue_run, finish_run, start_run, starts,
}
use tasks_management.Scans.Service.{execute_ends}
use tasks_management.Tests.Proposals.{call}

abbrev run : ScanRun
run = record {
  id = "s1";
  environment = "dev";
  created_at = 1;
  scope = "WRD";
  state = queued;
  idempotency_key = "dev:WRD:10";
  correlation_id = "c1";
  started_at = none;
  completed_at = none;
  failure_reason = none;
}

abbrev counting : ScanPipeline ℕ
counting = record {
  run = λ scope c n. (
    returned (record { degraded = false; risk_result_ids = []; alert_ids = []; report_id = none }),
    n + 1,
  );
}

abbrev ticket : ScanTicket
ticket = record { scan_run_id = "s1"; state = queued; duplicate = false }

abbrev world : ScanWorld ℕ
world = record { runs = run ∷ []; pipeline = 0; ran = [] }

abbrev ops : List Op
ops =
    start_run call "s1"
    ∷ enqueue_run call "dev" "WRD" "dev:WRD:11" "c2"
    ∷ start_run call "s1"
    ∷ finish_run call "s1" (raised "TimeoutError")
    ∷ []

at_most_one_start_example : starts "s1" ops (run ∷ []) ≤ 1
at_most_one_start_example = at_most_one_start "s1" ops (run ∷ []) (tt, (refl, (tt, (tt, tt))))

execute_ends_example :
    let (state, w') = execute counting call call ticket "WRD" "c1" world in
    (is_terminal state ≡ true)
    × (count_where (in_state "s1" queued) w'.runs ≡ 0)
    × (count_where (in_state "s1" running) w'.runs ≡ 0)
    × (w'.ran ≡ "s1" ∷ [])
unfolding execute transition count_where run_pipeline end_run
execute_ends_example = execute_ends counting call call ticket "WRD" "c1" world refl (λ h. cc)
