-- ===== src/Scans/Service.antt =====
-- ScanService: requesting a scan twice, and executing a ticket twice.
use tasks_management.Base.{
  ==_refl, Bool-cases, Call, List, Option, Option-cases, Platform, String, [], and_intro, ap, arith,
  contains, count_where, count_where-update_where, false, find_first, find_first-append,
  find_first-single, inl, inr, nat_eq, none, option_eq, or_else, refl, some, string_eq, subst, sym,
  true, ℕ, ◌++◌, ◌==◌, ◌∙◌, ◌∷◌, ◌≡◌, ◌≢◌, ◌⊎◌,
}
use tasks_management.Scans.{
  PipelineOutcome, ScanPipeline, ScanRun, ScanState, ScanTicket, ScanWorld, completed,
  completed_degraded, end_run, enqueue, execute, failed, has_key, in_state, is_terminal, new_run,
  queued, raised, request, returned, run_moved, run_pipeline, running, scan_eq, scan_window_key,
  skipped_duplicate, target_of, transition,
}
use tasks_management.Scans.Claims.{apply, waiting, waiting-finish, waiting-start}

abbrev duplicate_of : ScanRun → ScanTicket
duplicate_of r = record { scan_run_id = r.id; state = r.state; duplicate = true }

enqueue_new :
    (call : Call) (env scope key c : String) (runs : List ScanRun)
    → find_first (has_key env key) runs ≡ none
    → enqueue call env scope key c runs ≡ (
      record { scan_run_id = call.uuid 0; state = queued; duplicate = false },
      runs ++ new_run call env scope key c ∷ [],
    )
unfolding enqueue
enqueue_new call env scope key c runs h = rw (h, enqueue) refl

enqueue_found :
    (call : Call) (env scope key c : String) (runs : List ScanRun) (existing : ScanRun)
    → find_first (has_key env key) runs ≡ some existing
    → enqueue call env scope key c runs ≡ (duplicate_of existing, runs)
unfolding enqueue
enqueue_found call env scope key c runs existing h = rw (h, enqueue) refl

-- the second request finds what the first left
abbrev Repeats : Call → String → String → String → String → ScanTicket × List ScanRun → Type 0
Repeats call env scope key c (ticket, runs) =
    let (ticket', runs') = enqueue call env scope key c runs in
    (ticket'.scan_run_id ≡ ticket.scan_run_id) × (ticket'.duplicate ≡ true) × (runs' ≡ runs)

enqueue_again :
    (env : String) (call call' : Call) (scope key c c' : String) (runs : List ScanRun)
    → Repeats call' env scope key c' (enqueue call env scope key c runs)
enqueue_again env call call' scope key c c' runs =
    let r = new_run call env scope key c in
    elim (Option-cases (find_first (has_key env key) runs)) [
      | inl missing ↦
          let appended : find_first (has_key env key) (runs ++ r ∷ []) ≡ some r =
            find_first-append (has_key env key) runs (r ∷ [])
            ∙ ap (λ o. or_else o (find_first (has_key env key) (r ∷ []))) missing
            ∙ find_first-single (has_key env key) r (and_intro _ _ (==_refl env) (==_refl key)) in
          subst (Repeats call' env scope key c')
            (sym (enqueue_new call env scope key c runs missing))
            (rw (enqueue_found call' env scope key c' (runs ++ r ∷ []) r appended)
              (refl, refl, refl))
      | inr (existing, found) ↦
          subst (Repeats call' env scope key c')
            (sym (enqueue_found call env scope key c runs existing found))
            (rw (enqueue_found call' env scope key c' runs existing found) (refl, refl, refl))
    ]

-- Requesting the scan of a scope and window again gives a ticket of the same run, marked as a duplicate,
-- and changes nothing, whenever the second request is made.
request_again :
    (platform : Platform) (env : String) (call call' : Call) (scope window c c' : String)
    (runs : List ScanRun)
    → let (ticket, runs') = request platform env call scope window c runs in
      let (ticket', runs'') = request platform env call' scope window c' runs' in
      (ticket'.scan_run_id ≡ ticket.scan_run_id) × (ticket'.duplicate ≡ true) × (runs'' ≡ runs')
unfolding request
request_again platform env call call' scope window c c' runs =
    enqueue_again env call call' scope (scan_window_key platform env scope window) c c' runs

moved_is_not_running :
    (now : ℕ) (id : String) (target : ScanState) (reason : Option String) (x : ScanRun)
    → (target == running) ≡ false
    → in_state id running (run_moved now target reason x) ≡ false
moved_is_not_running now id target reason x h = rw h (ground arith)

-- what the end of a run makes of the table
ended :
    (call : Call) (id : String) (outcome : PipelineOutcome) (runs : List ScanRun)
    → let (target, reason) = target_of outcome in
      (is_terminal target ≡ true)
      × (count_where (in_state id running) (transition call id running target reason runs).1 ≡ 0)
unfolding transition is_terminal contains
ended call id (raised name) runs = (
  refl,
  count_where-update_where (in_state id running) _
      (λ x. moved_is_not_running call.now id failed (some name) x refl) runs,
)
ended call id (returned r) runs = elim (Bool-cases r.degraded) [
  | inl t ↦ rw t (
    refl,
    count_where-update_where (in_state id running) (run_moved call.now completed_degraded none)
        (λ x. moved_is_not_running call.now id completed_degraded none x refl) runs,
  )
  | inr f ↦ rw f (
    refl,
    count_where-update_where (in_state id running) (run_moved call.now completed none)
        (λ x. moved_is_not_running call.now id completed none x refl) runs,
  )
]

module _ {S : Type 0} (pipeline : ScanPipeline S) where
  waiting-execute :
      (first second : Call) (ticket : ScanTicket) (scope c : String) (w : ScanWorld S)
      → ticket.duplicate ≡ false
      → waiting ticket.scan_run_id (execute pipeline first second ticket scope c w).1.runs ≡ 0
  unfolding execute end_run run_pipeline apply
  waiting-execute first second ticket scope c w h =
      let id = ticket.scan_run_id in
      let started = transition first id queued running none w.runs in
      let (outcome, w') = run_pipeline pipeline ticket scope c (record w { runs = started.1 }) in
      let before = waiting-start first id none w.runs in
      elim (Bool-cases started.0) [
        | inl t ↦ rw (h, t) (omega (arith, before, waiting-finish second id id outcome started.1))
        | inr f ↦ rw (h, f) before
      ]

  ran-idle :
      (first second : Call) (ticket : ScanTicket) (scope c : String) (w : ScanWorld S)
      → (ticket.duplicate ≡ true) ⊎ (waiting ticket.scan_run_id w.runs ≡ 0)
      → (execute pipeline first second ticket scope c w).1.ran ≡ w.ran
  unfolding execute transition
  ran-idle first second ticket scope c w (inl d) = rw d refl
  ran-idle first second ticket scope c w (inr idle) =
      let lost : (waiting ticket.scan_run_id w.runs == 1) ≡ false = rw idle refl in
      elim (Bool-cases ticket.duplicate) [ inl d ↦ rw d refl | inr n ↦ rw (n, lost) refl ]

  -- Executing a ticket a second time never runs the pipeline, whatever the first execution came to and
  -- whatever the pipeline does.
  execute_again :
      (first second third fourth : Call) (ticket : ScanTicket) (scope c : String) (w : ScanWorld S)
      → let w' = (execute pipeline first second ticket scope c w).1 in
        (execute pipeline third fourth ticket scope c w').1.ran ≡ w'.ran
  execute_again first second third fourth ticket scope c w = elim (Bool-cases ticket.duplicate) [
    | inl d ↦ ran-idle third fourth ticket scope c _ (inl d)
    | inr n ↦
        ran-idle third fourth ticket scope c _
          (inr (waiting-execute first second ticket scope c w n))
  ]

  -- An execution that is not skipped ends its run: it is no longer waiting or running, the state returned
  -- is a final one.
  pub execute_ends :
      (first second : Call) (ticket : ScanTicket) (scope c : String) (w : ScanWorld S)
      → ticket.duplicate ≡ false
      → (execute pipeline first second ticket scope c w).0 ≢ skipped_duplicate
      → let (state, w') = execute pipeline first second ticket scope c w in
        (is_terminal state ≡ true)
        × (count_where (in_state ticket.scan_run_id queued) w'.runs ≡ 0)
        × (count_where (in_state ticket.scan_run_id running) w'.runs ≡ 0)
        × (w'.ran ≡ w.ran ++ ticket.scan_run_id ∷ [])
  unfolding execute end_run run_pipeline
  execute_ends first second ticket scope c w h k =
      let id = ticket.scan_run_id in
      let started = transition first id queued running none w.runs in
      let (outcome, w') = run_pipeline pipeline ticket scope c (record w { runs = started.1 }) in
      let (final, settled) = ended second id outcome started.1 in
      let idle = waiting-execute first second ticket scope c w h in
      elim (Bool-cases started.0) [
        | inl t ↦ rw (h, t) (final, rw (h, t) at idle, settled, refl)
        | inr f ↦ absurd (k (rw (h, f) refl))
      ]
