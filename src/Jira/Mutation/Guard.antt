-- ===== src/Jira/Mutation/Guard.antt =====
-- JiraAssigneeMutationClient.execute: how an issue key tells its project, and which mutations are refused.
use tasks_management.Base.{
  ==_eq, ==_refl, Bool, Bool-cases, Member, Member-contains, String, ap, arith, contains,
  contains-Member, eqb, false, has_char, inl, inr, list_eq, nat_eq, not, option_eq, partition_head,
  refl, string_eq, sym, true, ◌&&◌, ◌==◌, ◌||◌, ◌∙◌, ◌≡◌,
}
use Prim.Native.Char.{code}
use text.Mathlib.TextEquality.{Char-path}
use tasks_management.Jira.Mutation.{ClientConfig, ReassignmentMutation, mutation_refused}

-- the issue key is the project key, a dash and anything after it
unfoldable pub is_key_of : String → String → Bool
is_key_of String.[] String.[] = false
is_key_of String.[] (String.◌∷◌ x issue) = eqb (code x) b'-'
is_key_of (String.◌∷◌ c project) String.[] = false
is_key_of (String.◌∷◌ c project) (String.◌∷◌ x issue) =
    eqb (code c) (code x) && is_key_of project issue

partition_head-is_key_of :
    (s : String) → has_char b'-' s ≡ true → is_key_of (partition_head b'-' s) s ≡ true
unfolding partition_head has_char is_key_of
partition_head-is_key_of String.[] dash = cc
partition_head-is_key_of (String.◌∷◌ x s) dash = elim (Bool-cases (eqb (code x) b'-')) [
  | inl same ↦ rw same same
  | inr differs ↦
      let rest = partition_head-is_key_of s (rw differs at dash) in
      rw differs (ground (arith, rest))
]

is_key_of-partition_head :
    (p s : String)
    → has_char b'-' p ≡ false
    → is_key_of p s ≡ true
    → (has_char b'-' s ≡ true) × (partition_head b'-' s ≡ p)
unfolding partition_head has_char is_key_of
is_key_of-partition_head String.[] String.[] plain starts = absurd (ground (arith, starts))
is_key_of-partition_head String.[] (String.◌∷◌ x s) plain starts = (rw starts refl, rw starts refl)
is_key_of-partition_head (String.◌∷◌ c p) String.[] plain starts = absurd (ground (arith, starts))
is_key_of-partition_head (String.◌∷◌ c p) (String.◌∷◌ x s) plain starts =
    let same : c ≡ x = Char-path c x (ground (arith, starts)) in
    let differs : eqb (code c) b'-' ≡ false = ground (arith, plain) in
    let (dash, head) =
      is_key_of-partition_head p s (ground (arith, plain)) (ground (arith, starts)) in
    let other : eqb (code x) b'-' ≡ false = ap (λ y. eqb (code y) b'-') (sym same) ∙ differs in
    (rw (other, dash) refl, rw (other, head, same) refl)

has_char-partition_head : (s : String) → has_char b'-' (partition_head b'-' s) ≡ false
unfolding partition_head has_char
has_char-partition_head String.[] = refl
has_char-partition_head (String.◌∷◌ x s) = elim (Bool-cases (eqb (code x) b'-')) [
  | inl same ↦ rw same refl
  | inr differs ↦ rw (differs, has_char-partition_head s) (ground (arith, differs))
]

-- the client and the mutation are for the dev environment, the project is an allowed one, and the issue's key is that of
-- the project, a dash and more
abbrev pub IsPermitted : ClientConfig → ReassignmentMutation → Type 0
IsPermitted config command =
    (config.environment ≡ "dev")
    × (command.environment ≡ "dev")
    × Member command.project_key config.allowed_projects
    × (has_char b'-' command.project_key ≡ false)
    × (is_key_of command.project_key command.issue_key ≡ true)

-- what the five tests say if none of them refuses
none_refuses :
    (a b c d e : Bool)
    → (not a || not b || not c || not d || not e) ≡ false
    → (a ≡ true) × (b ≡ true) × (c ≡ true) × (d ≡ true) × (e ≡ true)
none_refuses a b c d e h = ground arith

pub mutation_refused-false :
    (config : ClientConfig) (command : ReassignmentMutation)
    → mutation_refused config command ≡ false
    → IsPermitted config command
unfolding mutation_refused
mutation_refused-false config command h =
    let (dev, env, dash, key, allowed) =
      none_refuses (config.environment == "dev") (command.environment == config.environment)
        (has_char b'-' command.issue_key)
        (command.project_key == partition_head b'-' command.issue_key)
        (contains command.project_key config.allowed_projects) h in
    let is_dev = ==_eq {a = config.environment} dev in
    let named : command.project_key ≡ partition_head b'-' command.issue_key =
      ==_eq {a = command.project_key} key in
    (
      is_dev,
      ==_eq {a = command.environment} env ∙ is_dev,
      Member-contains command.project_key config.allowed_projects allowed,
      rw named (has_char-partition_head command.issue_key),
      rw named (partition_head-is_key_of command.issue_key dash),
    )

pub mutation_refused-true :
    (config : ClientConfig) (command : ReassignmentMutation)
    → mutation_refused config command ≡ true
    → ¬ IsPermitted config command
unfolding mutation_refused
mutation_refused-true config command h (dev, env, allowed, plain, key) =
    let (dash, head) = is_key_of-partition_head command.project_key command.issue_key plain key in
    let listed = contains-Member command.project_key config.allowed_projects allowed in
    let is_dev : (config.environment == "dev") ≡ true = rw dev refl in
    let same_env : (command.environment == config.environment) ≡ true = rw env (rw dev refl) in
    let same_key : (command.project_key == partition_head b'-' command.issue_key) ≡ true =
      rw head (==_refl command.project_key) in
    let passes : mutation_refused config command ≡ false =
      rw (is_dev, same_env, dash, same_key, listed) refl in
    cc (h, passes)
