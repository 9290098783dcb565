-- ===== src/Scans.antt =====
-- domain/workforce_risk/scans/service.py, class ScanService, with
-- packages/persistence/src/workforce_persistence/scan_repository.py, class DatabaseScanStore. The scan
-- pipeline is a parameter. Each call of the store is one transaction.
pub mod Claims
pub mod Service
use mathlib.Core.Option
use tasks_management.Base.{
  Bool, Call, EqTest, List, Option, Platform, String, [], arith, concat, contains, count_where, eqb,
  false, find_first, if◌then◌else◌, nat_eq, none, not, option_eq, some, string_eq, true,
  update_where, ℕ, ◌&&◌, ◌++◌, ◌==◌, ◌↔◌, ◌∷◌, ◌≡◌,
}

pub data ScanState : Type 0 where
  queued running completed completed_degraded failed skipped_duplicate : ScanState

abbrev pub scan_index : ScanState → ℕ
scan_index queued = 0
scan_index running = 1
scan_index completed = 2
scan_index completed_degraded = 3
scan_index failed = 4
scan_index skipped_duplicate = 5

pub scan_index_iff : (a b : ScanState) → (eqb (scan_index a) (scan_index b) ≡ true) ↔ (a ≡ b)
scan_index_iff a b = (λ h. ground arith, λ h. ground arith)

instance abbrev pub scan_eq : EqTest ScanState
scan_eq = record { same = λ a b. eqb (scan_index a) (scan_index b); same_iff = scan_index_iff }

pub record ScanTicket : Type 0 where
  pub scan_run_id : String
  pub state : ScanState
  pub duplicate : Bool

pub record PipelineResult : Type 0 where
  pub degraded : Bool
  pub risk_result_ids : List String
  pub alert_ids : List String
  pub report_id : Option String

-- a row of the table `scan_runs`
pub record ScanRun : Type 0 where
  pub id : String
  pub environment : String
  pub created_at : ℕ
  pub scope : String
  pub state : ScanState
  pub idempotency_key : String
  pub correlation_id : String
  pub started_at : Option ℕ
  pub completed_at : Option ℕ
  pub failure_reason : Option String

abbrev pub has_key : String → String → ScanRun → Bool
has_key env key r = r.environment == env && r.idempotency_key == key

abbrev pub new_run : Call → String → String → String → String → ScanRun
new_run call env scope key correlation_id = record {
  id = call.uuid 0;
  environment = env;
  created_at = call.now;
  scope = scope;
  state = queued;
  idempotency_key = key;
  correlation_id = correlation_id;
  started_at = none;
  completed_at = none;
  failure_reason = none;
}

-- DatabaseScanStore.enqueue
unfoldable pub enqueue :
    Call → String → String → String → String → List ScanRun → ScanTicket × List ScanRun
enqueue call env scope key correlation_id runs = elim (find_first (has_key env key) runs) [
  | some existing ↦
      (record { scan_run_id = existing.id; state = existing.state; duplicate = true }, runs)
  | none ↦ (
    record { scan_run_id = call.uuid 0; state = queued; duplicate = false },
    runs ++ new_run call env scope key correlation_id ∷ [],
  )
]

unfoldable pub is_terminal : ScanState → Bool
unfolding contains
is_terminal s = contains s (completed ∷ completed_degraded ∷ failed ∷ skipped_duplicate ∷ [])

-- the values that DatabaseScanStore.transition writes
abbrev pub run_moved : ℕ → ScanState → Option String → ScanRun → ScanRun
run_moved now target failure_reason r = record r {
  state = target;
  failure_reason = failure_reason;
  started_at = if target == running then some now else r.started_at;
  completed_at = if is_terminal target then some now else r.completed_at;
}

abbrev pub in_state : String → ScanState → ScanRun → Bool
in_state id expected r = r.id == id && r.state == expected

-- DatabaseScanStore.transition
unfoldable pub transition :
    Call → String → ScanState → ScanState → Option String → List ScanRun → Bool × List ScanRun
transition call id expected target failure_reason runs = (
  count_where (in_state id expected) runs == 1,
  update_where (in_state id expected) (run_moved call.now target failure_reason) runs,
)

-- DatabaseScanStore.get
unfoldable pub get : String → String → List ScanRun → Option ScanTicket
get id env runs =
    Option.map (λ (r : ScanRun). record { scan_run_id = r.id; state = r.state; duplicate = false })
      (find_first (λ r. r.id == id && r.environment == env) runs)

unfoldable pub scan_window_key : Platform → String → String → String → String
scan_window_key platform env scope window =
    platform.sha256 (concat env (concat ":" (concat scope (concat ":" window))))

-- what the pipeline returns, or the name of the exception that it raises
pub data PipelineOutcome : Type 0 where
  returned : PipelineResult → PipelineOutcome
  raised : String → PipelineOutcome

-- `ScanPipeline.run`, on the scope and the correlation id, with a state of its own
pub record ScanPipeline (S : Type 0) : Type 0 where
  pub run : String → String → S → PipelineOutcome × S

pub record ScanWorld (S : Type 0) : Type 0 where
  pub runs : List ScanRun
  pub pipeline : S
  -- the scans the pipeline was run for, oldest first
  pub ran : List String

-- ScanService.request
unfoldable pub request :
    Platform → String → Call → String → String → String → List ScanRun → ScanTicket × List ScanRun
request platform env call scope window correlation_id runs =
    enqueue call env scope (scan_window_key platform env scope window) correlation_id runs

-- the state and the reason that end a run
abbrev pub target_of : PipelineOutcome → ScanState × Option String
target_of (raised name) = (failed, some name)
target_of (returned r) = (if r.degraded then completed_degraded else completed, none)

module _ {S : Type 0} (pipeline : ScanPipeline S) where
  -- `execute` after the pipeline has run
  unfoldable pub end_run : Call → String → PipelineOutcome → ScanWorld S → ScanState × ScanWorld S
  end_run call id outcome w =
      let (target, reason) = target_of outcome in
      (target, record w { runs = (transition call id running target reason w.runs).1 })

  unfoldable pub run_pipeline :
      ScanTicket → String → String → ScanWorld S → PipelineOutcome × ScanWorld S
  run_pipeline ticket scope correlation_id w =
      let (outcome, s) = pipeline.run scope correlation_id w.pipeline in
      (outcome, record w { pipeline = s; ran = w.ran ++ ticket.scan_run_id ∷ [] })

  -- ScanService.execute, with the clocks of its two transitions
  unfoldable pub execute :
      Call → Call → ScanTicket → String → String → ScanWorld S → ScanState × ScanWorld S
  execute first second ticket scope correlation_id w =
      let (claimed, runs') = transition first ticket.scan_run_id queued running none w.runs in
      let (outcome, w') = run_pipeline ticket scope correlation_id (record w { runs = runs' }) in
      if ticket.duplicate
      then (ticket.state, w)
      else if not claimed
      then (skipped_duplicate, record w { runs = runs' })
      else end_run second ticket.scan_run_id outcome w'

-- ScanService.status
abbrev pub status : String → String → List ScanRun → Option ScanTicket
unfolding get
status env id runs = get id env runs
