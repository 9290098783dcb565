-- ===== src/Agent/Planner/Attempts.antt =====
-- How the planner ends.
use tasks_management.Base.{
  Option, Result, String, ap, arith, err, inl, inr, max, refl, suc, transport_error, zero, ℕ, ◌+◌,
  ◌∙◌, ◌≡◌, ◌≤◌, ◌⊎◌,
}
use tasks_management.Agent.{EvidencePlan}
use tasks_management.Agent.Planner.{
  Reply, after_reply, failed, plan, plan_attempts, plan_of_reply, replied,
}

module _ (parse : String → Option EvidencePlan) (reply : ℕ → Reply) where
  -- the calls at `attempt` up to `attempt + k` are made: those before the last one failed, and the result is what came of
  -- the last one
  abbrev pub IsEnd : ℕ → ℕ → Result EvidencePlan × ℕ → Type 0
  IsEnd attempt left r =
      (k : ℕ) × (r.1 ≡ suc k)
      × (suc k ≤ left)
      × ((j : ℕ) → suc j ≤ k → (before : String) × (reply (attempt + j) ≡ failed before))
      × (((raw : String) × (reply (attempt + k) ≡ replied raw) × (r.0 ≡ plan_of_reply parse raw))
          ⊎ ((what : String) × (suc k ≡ left)
              × (reply (attempt + k) ≡ failed what)
              × (r.0 ≡ err (transport_error what))))

  at_start : {attempt : ℕ} {r : Reply} → reply attempt ≡ r → reply (attempt + 0) ≡ r
  at_start {attempt} h = ap reply (omega arith) ∙ h

  shifted : (attempt k : ℕ) {r : Reply} → reply (attempt + 1 + k) ≡ r → reply (attempt + suc k) ≡ r
  shifted attempt k h = ap reply (omega arith) ∙ h

  failed_before :
      (attempt k : ℕ) (what : String)
      → reply attempt ≡ failed what
      → ((j : ℕ) → suc j ≤ k → (before : String) × (reply (attempt + 1 + j) ≡ failed before))
      → (j : ℕ) → suc j ≤ suc k
      → (before : String) × (reply (attempt + j) ≡ failed before)
  failed_before attempt k what same earlier zero bound = (what, at_start same)
  failed_before attempt k what same earlier (suc j) bound =
      let (before, asked) = earlier j (omega (arith, bound)) in (before, shifted attempt j asked)

  after_reply-IsEnd :
      (r : Reply) (attempt left : ℕ) (rest : Result EvidencePlan × ℕ)
      → reply attempt ≡ r
      → (1 ≤ left → IsEnd (attempt + 1) left rest)
      → IsEnd attempt (suc left) (after_reply parse r left rest)
  unfolding after_reply
  after_reply-IsEnd (replied raw) attempt left rest same go = (
    0,
    refl,
    omega arith,
    λ j bound. absurd (omega (arith, bound)),
    inl (raw, at_start same, refl),
  )
  after_reply-IsEnd (failed what) attempt zero rest same go = (
    0,
    refl,
    omega arith,
    λ j bound. absurd (omega (arith, bound)),
    inr (what, refl, at_start same, refl),
  )
  after_reply-IsEnd (failed what) attempt (suc left) rest same go =
      let (k, calls, bound, earlier, end) = go (omega arith) in
      (
        suc k,
        ap suc calls,
        omega (arith, bound),
        failed_before attempt k what same earlier,
        elim end [
          | inl (raw, asked, result) ↦ inl (raw, shifted attempt k asked, result)
          | inr (what, last, asked, result) ↦
              inr (what, ap suc last, shifted attempt k asked, result)
        ],
      )

  plan_attempts-IsEnd :
      (attempt left : ℕ) → 1 ≤ left → IsEnd attempt left (plan_attempts parse reply attempt left)
  unfolding plan_attempts
  plan_attempts-IsEnd attempt zero h = absurd (omega (arith, h))
  plan_attempts-IsEnd attempt (suc left) h =
      after_reply-IsEnd (reply attempt) attempt left (plan_attempts parse reply (attempt + 1) left)
        refl (plan_attempts-IsEnd (attempt + 1) left)

  -- Planning always ends, after at least one and at most the configured number of calls. Every call before the last one
  -- failed; if the model replies to the last one, the result is what its reply comes to, and if not, all the configured
  -- calls are made and the result is the error of the last one.
  pub plan_ends : (max_attempts : ℕ) → IsEnd 0 (max 1 max_attempts) (plan parse reply max_attempts)
  unfolding plan
  plan_ends max_attempts = plan_attempts-IsEnd 0 (max 1 max_attempts) (omega arith)
