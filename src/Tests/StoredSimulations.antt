-- ===== src/Tests/StoredSimulations.antt =====
-- A simulation that is stored beside another one.
use tasks_management.Base.{
  List, Payload, String, [], contains, find_first, list_eq, nat_eq, ok, option_eq, refl, some,
  string_eq, ◌∷◌, ◌≡◌,
}
use tasks_management.Risk.{ConfidenceLevel, confidence_eq, level_eq}
use tasks_management.Proposals.Models.{
  SimulationRow, StoredSimulation, get_simulation, read_simulation, validate_candidate,
}
use tasks_management.Proposals.Simulations.{
  get_simulation-persist, persist, persisted, row_of_simulation, simulation_eq,
}

abbrev simulation : String → StoredSimulation
simulation id = record {
  simulation_id = id;
  environment = "dev";
  project_key = "WRD";
  task_id = "WRD-7";
  current_assignee_id = "ann";
  proposed_assignee_id = "bob";
  candidate_ids = "bob" ∷ [];
  confidence = ConfidenceLevel.high;
  evidence_fingerprint = "0123456789abcdef0123456789abcdef0123456789abcdef0123456789abcdef";
  scoring_model_versions = [];
  simulated_at = 5;
  safe_payload = [];
}

-- a JSON object of texts and numbers comes back as it is
abbrev kept : Payload → Payload
kept payload = payload

abbrev rows : List SimulationRow
rows = row_of_simulation kept "u1" (simulation "sim-1") ∷ []

abbrev both : List SimulationRow
both =
    row_of_simulation kept "u1" (simulation "sim-1")
    ∷ row_of_simulation kept "u2" (simulation "sim-2")
    ∷ []

is_valid : validate_candidate (simulation "sim-2") ≡ ok (simulation "sim-2")
unfolding validate_candidate contains
is_valid = refl

is_persisted : persist kept "u2" (simulation "sim-2") rows ≡ ok (simulation "sim-2", both)
unfolding persist get_simulation read_simulation find_first persisted row_of_simulation
is_persisted = refl

get_simulation-persist_example :
    (get_simulation "dev" "sim-2" both ≡ ok (some (simulation "sim-2")))
    × (persist kept "u3" (simulation "sim-2") both ≡ ok (simulation "sim-2", both))
get_simulation-persist_example =
    get_simulation-persist kept "u2" "u3" (simulation "sim-2") (simulation "sim-2") rows both refl
      is_valid is_persisted
