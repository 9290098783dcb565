-- ===== src/Agent/Patterns/Regex.antt =====
-- The regular expressions of services/agent-api/src/agent_api/llm/bedrock.py that a search uses: all ways in which one matches.
use Prim.Native.Char.{code}
use tasks_management.Base.{
  Bool, List, String, [], concat_map, false, if◌then◌else◌, leb, length, not, one_if, suc, true,
  zero, ℕ, ◌++◌, ◌+◌, ◌∷◌,
}
use tasks_management.Agent.{Unicode}
use tasks_management.Agent.Patterns.{ends_word}

-- `\b`, `$`, a text, one or more characters of a class, one of them, at most so many characters, a sequence, and `?`
pub data Regex : Type 0 where
  boundary text_end : Regex
  letters : String → Regex
  some_of : (ℕ → Bool) → Regex
  one_of : (ℕ → Bool) → Regex
  up_to : ℕ → Regex
  next : Regex → Regex → Regex
  maybe : Regex → Regex
  either : Regex → Regex → Regex

-- a place in a text: whether the character before it is one of a word, and the text behind it
pub record Place : Type 0 where
  pub in_word : Bool
  pub rest : String

abbrev pub place : Bool → String → Place
place in_word rest = record { in_word = in_word; rest = rest }

abbrev pub differ : Bool → Bool → Bool
differ true b = not b
differ false b = b

-- `same` compares characters, with or without their case
module _ (u : Unicode) (same : ℕ → ℕ → Bool) where
  unfoldable pub after_letters : String → Bool → String → List Place
  after_letters String.[] b s = place b s ∷ []
  after_letters (String.◌∷◌ c cs) b String.[] = []
  after_letters (String.◌∷◌ c cs) b (String.◌∷◌ x s) =
      let rest = after_letters cs (u.is_word (code x)) s in
      if same (code c) (code x) then rest else []

  unfoldable pub after_some : (ℕ → Bool) → String → List Place
  after_some p String.[] = []
  after_some p (String.◌∷◌ x s) =
      let rest = after_some p s in if p (code x) then place (u.is_word (code x)) s ∷ rest else []

  unfoldable pub after_one : (ℕ → Bool) → String → List Place
  after_one p String.[] = []
  after_one p (String.◌∷◌ x s) = one_if (p (code x)) (place (u.is_word (code x)) s)

  unfoldable pub after_up_to : ℕ → Bool → String → List Place
  after_up_to zero b s = place b s ∷ []
  after_up_to (suc n) b String.[] = place b String.[] ∷ []
  after_up_to (suc n) b (String.◌∷◌ x s) =
      place b (String.◌∷◌ x s) ∷ after_up_to n (u.is_word (code x)) s

  abbrev is_end : String → Bool
  is_end String.[] = true
  is_end (String.◌∷◌ x s) = false

  -- the places behind the matches that start at a place
  unfoldable pub matches : Regex → Bool → String → List Place
  matches boundary b s = one_if (differ b (not (ends_word u s))) (place b s)
  matches text_end b s = one_if (is_end s) (place b s)
  matches (letters t) b s = after_letters t b s
  matches (some_of p) b s = after_some p s
  matches (one_of p) b s = after_one p s
  matches (up_to n) b s = after_up_to n b s
  matches (next r q) b s = concat_map (λ p. matches q p.in_word p.rest) (matches r b s)
  matches (maybe r) b s = place b s ∷ matches r b s
  matches (either r q) b s = matches r b s ++ matches q b s

  abbrev pub starts_match : Regex → Bool → String → Bool
  starts_match r b s = leb 1 (length (matches r b s))

  -- the number of places where a match starts
  unfoldable pub starts_from : Regex → Bool → String → ℕ
  starts_from r b String.[] = if starts_match r b String.[] then 1 else 0
  starts_from r b (String.◌∷◌ x s) =
      (if starts_match r b (String.◌∷◌ x s) then 1 else 0) + starts_from r (u.is_word (code x)) s

  -- `re.search`
  unfoldable pub search_in : Regex → String → Bool
  search_in r s = leb 1 (starts_from r false s)
