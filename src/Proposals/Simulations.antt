-- ===== src/Proposals/Simulations.antt =====
-- packages/persistence/src/workforce_persistence/simulation_repository.py: SimulationRepository.persist.
use native.Mathlib.Decide.{ℕ_discrete}
use tasks_management.Base.{
  ==_eq, ==_refl, Bool, Bool-cases, EqTest, List, Option, Option-cases, Payload, Result, String, [],
  ap, arith, err, false, find_first, find_first-append, if◌then◌else◌, inl, inr, list_eq, nat_eq,
  none, ok, ok-injective, on_success_inv, option_eq, refl, some, string_eq, subst, sym, true,
  value_error, ◌++◌, ◌==◌, ◌>>=◌, ◌↔◌, ◌∙◌, ◌∷◌, ◌≡◌,
}
use tasks_management.Risk.{
  ConfidenceLevel, confidence_eq, confidence_of_value, confidence_value, insufficient_data,
  level_eq,
}
use tasks_management.Proposals.Models.{
  SimulationRow, StoredSimulation, get_simulation, is_stored, read_row, read_simulation,
  validate_candidate,
}

confidence_of-confidence_value :
    (c : ConfidenceLevel) → confidence_of_value (confidence_value c) ≡ ok c
unfolding confidence_of_value confidence_value
confidence_of-confidence_value ConfidenceLevel.high = refl
confidence_of-confidence_value ConfidenceLevel.medium = refl
confidence_of-confidence_value ConfidenceLevel.low = refl
confidence_of-confidence_value insufficient_data = refl

get_simulation-missing :
    (env id : String) (rows : List SimulationRow)
    → get_simulation env id rows ≡ ok none
    → find_first (is_stored env id) rows ≡ none
unfolding get_simulation read_simulation
get_simulation-missing env id rows h = elim (Option-cases (find_first (is_stored env id) rows)) [
  | inl missing ↦ missing
  | inr (r, there) ↦
      let own : read_simulation (some r) ≡ ok none = ap read_simulation (sym there) ∙ h in
      let (a, read, wrong) =
        on_success_inv (λ (s : StoredSimulation). ok (some s)) (read_row r) none own in
      cc
]

-- the decidable equality of texts, from their Boolean test
String-discrete : Discrete String
String-discrete a b = decided (a == b) refl
  where
    decided : (t : Bool) → (a == b) ≡ t → Dec (a ≡ b)
    decided true h = yes (==_eq {a = a} h)
    decided false h = no (λ same. absurd (
        let own = (string_eq.same_iff a b).1 same in
        let clash : false ≡ true = sym h ∙ own in ground arith))

pub StoredSimulation-discrete : Discrete StoredSimulation
StoredSimulation-discrete = hlevel (ℕ_discrete, String-discrete)

abbrev is_yes : {P : Type 0} → Dec P → Bool
is_yes (yes p) = true
is_yes (no n) = false

pub is_yes_iff : {P : Type 0} (d : Dec P) → (is_yes d ≡ true) ↔ P
is_yes_iff (yes p) = (λ h. p, λ q. refl)
is_yes_iff (no n) = (λ h. cc, λ q. absurd (n q))

-- `existing != simulation` compares the fields of the models
instance abbrev pub simulation_eq : EqTest StoredSimulation
simulation_eq = record {
  same = λ a b. is_yes (StoredSimulation-discrete a b);
  same_iff = λ a b. is_yes_iff (StoredSimulation-discrete a b);
}

-- the row that is added, under a generated identifier; `stored_json` is what comes back of a JSON object that is stored
unfoldable pub row_of_simulation : (Payload → Payload) → String → StoredSimulation → SimulationRow
row_of_simulation stored_json id s = record {
  id = id;
  environment = s.environment;
  created_at = s.simulated_at;
  simulation_id = s.simulation_id;
  project_key = s.project_key;
  task_key = s.task_id;
  current_assignee = s.current_assignee_id;
  proposed_assignee = s.proposed_assignee_id;
  candidate_ids = s.candidate_ids;
  confidence = confidence_value s.confidence;
  evidence_fingerprint = s.evidence_fingerprint;
  scoring_versions = s.scoring_model_versions;
  safe_payload = stored_json s.safe_payload;
}

new_row-is_stored :
    (stored_json : Payload → Payload) (id : String) (s : StoredSimulation)
    → is_stored s.environment s.simulation_id (row_of_simulation stored_json id s) ≡ true
unfolding row_of_simulation
new_row-is_stored stored_json id s = rw (==_refl s.environment, ==_refl s.simulation_id) refl

module _ (stored_json : Payload → Payload) where
  unfoldable pub persisted :
      String
      → StoredSimulation
      → List SimulationRow
      → Option StoredSimulation
      → Result (StoredSimulation × List SimulationRow)
  persisted id s rows none = ok (s, rows ++ row_of_simulation stored_json id s ∷ [])
  persisted id s rows (some existing) =
      if existing == s
      then ok (existing, rows)
      else err (value_error "simulation ID already has different immutable data")

  unfoldable pub persist :
      String
      → StoredSimulation
      → List SimulationRow
      → Result (StoredSimulation × List SimulationRow)
  persist id s rows = get_simulation s.environment s.simulation_id rows >>= persisted id s rows

  read_row-row_of_simulation :
      (id : String) (s : StoredSimulation)
      → stored_json s.safe_payload ≡ s.safe_payload
      → validate_candidate s ≡ ok s
      → read_row (row_of_simulation stored_json id s) ≡ ok s
  unfolding read_row row_of_simulation
  read_row-row_of_simulation id s same valid =
      rw (confidence_of-confidence_value s.confidence, same) valid

  persist-found :
      (id : String) (s : StoredSimulation) (rows : List SimulationRow)
      → get_simulation s.environment s.simulation_id rows ≡ ok (some s)
      → persist id s rows ≡ ok (s, rows)
  unfolding persist persisted
  persist-found id s rows h = rw h (rw ((simulation_eq.same_iff s s).1 refl) refl)

  persisted-keeps :
      (id : String) (s stored : StoredSimulation) (rows rows' : List SimulationRow)
      (found : Option StoredSimulation)
      → stored_json s.safe_payload ≡ s.safe_payload
      → validate_candidate s ≡ ok s
      → get_simulation s.environment s.simulation_id rows ≡ ok found
      → persisted id s rows found ≡ ok (stored, rows')
      → get_simulation s.environment s.simulation_id rows' ≡ ok (some s)
  unfolding persisted find_first get_simulation read_simulation
  persisted-keeps id s stored rows rows' none same valid before after =
      let test = is_stored s.environment s.simulation_id in
      let row = row_of_simulation stored_json id s in
      let new : test row ≡ true = new_row-is_stored stored_json id s in
      let missing = get_simulation-missing s.environment s.simulation_id rows before in
      let there : find_first test (rows ++ row ∷ []) ≡ some row =
        find_first-append test rows (row ∷ []) ∙ rw (missing, new) refl in
      let grown : rows ++ row ∷ [] ≡ rows' = ap (λ p. p.1) (ok-injective after) in
      let found : find_first test rows' ≡ some row =
        subst (λ r. find_first test r ≡ some row) grown there in
      ap read_simulation found ∙ rw (read_row-row_of_simulation id s same valid) refl
  persisted-keeps id s stored rows rows' (some existing) same valid before after =
      elim (Bool-cases (simulation_eq.same existing s)) [
        | inl t ↦
            let alike : existing ≡ s = (simulation_eq.same_iff existing s).0 t in
            let kept : rows ≡ rows' = ap (λ p. p.1) (ok-injective (rw t at after)) in
            rw (← kept) (before ∙ ap (λ e. ok (some e)) alike)
        | inr f ↦ let own = rw f at after in cc
      ]

  -- A valid simulation whose payload comes back from the database as it was stored is found again as it is once it has been
  -- persisted, and persisting it once more changes nothing.
  pub get_simulation-persist :
      (id again : String) (s stored : StoredSimulation) (rows rows' : List SimulationRow)
      → stored_json s.safe_payload ≡ s.safe_payload
      → validate_candidate s ≡ ok s
      → persist id s rows ≡ ok (stored, rows')
      → (get_simulation s.environment s.simulation_id rows' ≡ ok (some s))
        × (persist again s rows' ≡ ok (s, rows'))
  unfolding persist
  get_simulation-persist id again s stored rows rows' same valid h =
      let (found, before, after) =
        on_success_inv (persisted id s rows) (get_simulation s.environment s.simulation_id rows)
          (stored, rows') h in
      let kept = persisted-keeps id s stored rows rows' found same valid before after in
      (kept, persist-found again s rows' kept)
