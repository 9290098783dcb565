-- ===== src/Scans/Claims.antt =====
-- DatabaseScanStore: the transactions of several workers, interleaved.
use tasks_management.Base.{
  ==_eq, All, Bool, Bool-cases, Call, List, Option, Option-cases, String, [], and_left, and_right,
  arith, count_where, count_where-update_where, false, find_first, if◌then◌else◌, inl, inr, nat_eq,
  none, option_eq, refl, some, string_eq, subst, true, update_where, ℕ, ◌&&◌, ◌++◌, ◌+◌, ◌==◌, ◌∷◌,
  ◌≡◌, ◌≤◌,
}
use tasks_management.Scans.{
  PipelineOutcome, ScanRun, ScanState, completed, completed_degraded, enqueue, failed, has_key,
  in_state, new_run, queued, raised, returned, run_moved, running, scan_eq, target_of, transition,
}

-- a transaction that some worker makes on the table of runs
pub data Op : Type 0 where
  enqueue_run : Call → String → String → String → String → Op
  start_run : Call → String → Op
  finish_run : Call → String → PipelineOutcome → Op

-- the table after it, and whether it has started a run of `id`
unfoldable pub apply : String → Op → List ScanRun → Bool × List ScanRun
apply id (enqueue_run call env scope key correlation_id) runs =
    (false, (enqueue call env scope key correlation_id runs).1)
apply id (start_run call other) runs =
    let (claimed, runs') = transition call other queued running none runs in
    (claimed && other == id, runs')
apply id (finish_run call other outcome) runs =
    let (target, reason) = target_of outcome in
    (false, (transition call other running target reason runs).1)

-- how often a run of `id` is started
unfoldable pub starts : String → List Op → List ScanRun → ℕ
starts id [] runs = 0
starts id (op ∷ ops) runs =
    let (started, runs') = apply id op runs in (if started then 1 else 0) + starts id ops runs'

-- the identifiers of new runs are new
abbrev pub NewIds : String → Op → Type 0
NewIds id (enqueue_run call _ _ _ _) = (call.uuid 0 == id) ≡ false
NewIds id _ = Unit

-- how many runs of `id` wait to be started
abbrev pub waiting : String → List ScanRun → ℕ
waiting id runs = count_where (in_state id queued) runs

count_where-append :
    (p : ScanRun → Bool) (xs ys : List ScanRun)
    → count_where p (xs ++ ys) ≡ count_where p xs + count_where p ys
unfolding count_where
count_where-append p [] ys = omega arith
count_where-append p (x ∷ xs) ys = omega (arith, count_where-append p xs ys)

pub moved_is_not_waiting :
    (now : ℕ) (id : String) (target : ScanState) (reason : Option String) (x : ScanRun)
    → (target == queued) ≡ false
    → in_state id queued (run_moved now target reason x) ≡ false
moved_is_not_waiting now id target reason x h = rw h (ground arith)

waiting-transition :
    (call : Call) (id other : String) (expected target : ScanState) (reason : Option String)
    (runs : List ScanRun)
    → (target == queued) ≡ false
    → waiting id (transition call other expected target reason runs).1 ≤ waiting id runs
unfolding transition update_where count_where
waiting-transition call id other expected target reason [] h = omega arith
waiting-transition call id other expected target reason (x ∷ xs) h =
    let rest = waiting-transition call id other expected target reason xs h in
    elim (Bool-cases (in_state other expected x)) [
      | inl t ↦ rw t (rw (moved_is_not_waiting call.now id target reason x h) (omega (arith, rest)))
      | inr f ↦ rw f (omega (arith, rest))
    ]

pub waiting-start :
    (call : Call) (id : String) (reason : Option String) (runs : List ScanRun)
    → waiting id (transition call id queued running reason runs).1 ≡ 0
unfolding transition
waiting-start call id reason runs =
    count_where-update_where (in_state id queued) (run_moved call.now running reason)
      (λ x. moved_is_not_waiting call.now id running reason x refl) runs

pub waiting-finish :
    (call : Call) (id other : String) (outcome : PipelineOutcome) (runs : List ScanRun)
    → waiting id (apply id (finish_run call other outcome) runs).1 ≤ waiting id runs
unfolding apply
waiting-finish call id other (raised name) runs =
    waiting-transition call id other running failed (some name) runs refl
waiting-finish call id other (returned r) runs = elim (Bool-cases r.degraded) [
  | inl t ↦ rw t (waiting-transition call id other running completed_degraded none runs refl)
  | inr f ↦ rw f (waiting-transition call id other running completed none runs refl)
]

waiting-enqueue :
    (call : Call) (id env scope key correlation_id : String) (runs : List ScanRun)
    → (call.uuid 0 == id) ≡ false
    → waiting id (enqueue call env scope key correlation_id runs).1 ≤ waiting id runs
unfolding enqueue
waiting-enqueue call id env scope key correlation_id runs fresh =
    elim (Option-cases (find_first (has_key env key) runs)) [
      | inl missing ↦
          let r = new_run call env scope key correlation_id in
          let added : count_where (in_state id queued) (r ∷ []) ≡ 0 =
            unfold count_where in rw fresh refl in
          rw (missing, enqueue)
            (omega (arith, count_where-append (in_state id queued) runs (r ∷ []), added))
      | inr (existing, found) ↦ rw (found, enqueue) (omega arith)
    ]

waiting-apply :
    (id : String) (op : Op) (runs : List ScanRun)
    → NewIds id op
    → waiting id (apply id op runs).1 ≤ waiting id runs
unfolding apply
waiting-apply id (enqueue_run call env scope key correlation_id) runs fresh =
    waiting-enqueue call id env scope key correlation_id runs fresh
waiting-apply id (start_run call other) runs fresh =
    waiting-transition call id other queued running none runs refl
waiting-apply id (finish_run call other outcome) runs fresh =
    waiting-finish call id other outcome runs

waiting-started :
    (id : String) (op : Op) (runs : List ScanRun)
    → (apply id op runs).0 ≡ true
    → (waiting id runs ≡ 1) × (waiting id (apply id op runs).1 ≡ 0)
unfolding apply
waiting-started id (enqueue_run call env scope key correlation_id) runs h = cc
waiting-started id (start_run call other) runs h =
    let same : other ≡ id = ==_eq {a = other} (and_right _ _ h) in
    subst
      (λ i.
        (waiting i runs ≡ 1) × (waiting i (transition call other queued running none runs).1 ≡ 0))
      same
      (
        ==_eq {a = waiting other runs} (unfold transition in and_left _ _ h),
        waiting-start call other none runs,
      )
waiting-started id (finish_run call other outcome) runs h = cc

starts-none_waiting :
    (id : String) (ops : List Op) (runs : List ScanRun)
    → All (NewIds id) ops
    → waiting id runs ≡ 0
    → starts id ops runs ≡ 0
unfolding starts
starts-none_waiting id [] runs fresh h = refl
starts-none_waiting id (op ∷ ops) runs (new, fresh) h = elim (Bool-cases (apply id op runs).0) [
  | inl t ↦ absurd (omega (arith, (waiting-started id op runs t).0))
  | inr f ↦ rw f (
      omega (
        arith,
        starts-none_waiting id ops (apply id op runs).1 fresh
            (omega (arith, waiting-apply id op runs new)),
      ))
]

-- However the transactions of any number of workers interleave - runs requested, started and ended in
-- any order - a run is started at most once, provided that new runs get new identifiers.
pub at_most_one_start :
    (id : String) (ops : List Op) (runs : List ScanRun)
    → All (NewIds id) ops
    → starts id ops runs ≤ 1
unfolding starts
at_most_one_start id [] runs fresh = omega arith
at_most_one_start id (op ∷ ops) runs (new, fresh) = elim (Bool-cases (apply id op runs).0) [
  | inl t ↦ rw t (
      omega (
        arith,
        starts-none_waiting id ops (apply id op runs).1 fresh (waiting-started id op runs t).1,
      ))
  | inr f ↦ rw f (omega (arith, at_most_one_start id ops (apply id op runs).1 fresh))
]
