-- ===== src/Agent/Patterns.antt =====
-- The regular expressions of services/agent-api/src/agent_api, as functions that read a text from left to right: issue keys
-- (`\b[A-Z][A-Z0-9]{1,19}-\d+\b`) and names between word boundaries (`(?<!\w)name(?!\w)`).
pub mod Regex
use Prim.Native.Char.{code}
use tasks_management.Base.{
  Bool, List, Option, String, [], any, concat, drop_chars, eqb, false, has_text, if◌then◌else◌, leb,
  none, not, some, starts_with, suc, to_list, true, zero, ℕ, ◌&&◌, ◌++◌, ◌+◌, ◌-◌, ◌||◌, ◌∷◌,
}
use tasks_management.Agent.{Unicode}

-- `any(part in text for part in parts)`
abbrev pub mentions_any : List String → String → Bool
mentions_any parts s = any (λ part. has_text part s) parts

-- the number of characters
unfoldable pub char_count : String → ℕ
char_count String.[] = 0
char_count (String.◌∷◌ x s) = suc (char_count s)

-- the longest start of a text whose characters pass, and the rest
unfoldable pub span_chars : (ℕ → Bool) → String → String × String
span_chars p String.[] = (String.[], String.[])
span_chars p (String.◌∷◌ x s) =
    let rest = span_chars p s in
    if p (code x) then (String.◌∷◌ x rest.0, rest.1) else (String.[], String.◌∷◌ x s)

abbrev pub is_capital : ℕ → Bool
is_capital c = leb 65 c && leb c 90

abbrev pub is_key_char : ℕ → Bool
is_key_char c = is_capital c || (leb 48 c && leb c 57)

module _ (u : Unicode) where
  -- no word goes on here
  abbrev pub ends_word : String → Bool
  ends_word String.[] = true
  ends_word (String.◌∷◌ x s) = not (u.is_word (code x))

  -- the number of an issue key, behind its "-"
  unfoldable pub key_number : String → Option String
  key_number String.[] = none
  key_number (String.◌∷◌ x s) =
      let digits = span_chars u.is_digit s in
      if eqb (code x) 45 && leb 1 (char_count digits.0) && ends_word digits.1
      then some (String.◌∷◌ x digits.0)
      else none

  abbrev prefixed : String → Option String → Option String
  prefixed start none = none
  prefixed start (some rest) = some (concat start rest)

  -- the issue key that a text starts with
  unfoldable pub key_at : String → Option String
  key_at String.[] = none
  key_at (String.◌∷◌ x s) =
      let run = span_chars is_key_char s in
      if is_capital (code x) && leb 1 (char_count run.0) && leb (char_count run.0) 19
      then prefixed (String.◌∷◌ x run.0) (key_number run.1)
      else none

  -- `re.findall` of the pattern of issue keys. A match starts where a word starts, so that none starts inside another.
  unfoldable pub keys_from : Bool → String → List String
  keys_from in_word String.[] = []
  keys_from in_word (String.◌∷◌ x s) =
      let rest = keys_from (u.is_word (code x)) s in
      if in_word then rest else to_list (key_at (String.◌∷◌ x s)) ++ rest

  unfoldable pub issue_keys : String → List String
  issue_keys s = keys_from false s

  -- a name between word boundaries at this place
  abbrev pub name_at : String → Bool → String → Bool
  name_at name in_word s =
      not in_word && starts_with name s && ends_word (drop_chars (char_count name) s)

  -- `re.finditer` of a name: the start and the end of each match; `skip` characters belong to the match before
  unfoldable pub name_spans : String → Bool → ℕ → ℕ → String → List (ℕ × ℕ)
  name_spans name in_word position skip String.[] =
      if eqb skip 0 && name_at name in_word String.[]
      then (position, position + char_count name) ∷ []
      else []
  name_spans name in_word position zero (String.◌∷◌ x s) =
      let found = name_at name in_word (String.◌∷◌ x s) in
      let rest =
        name_spans name (u.is_word (code x)) (position + 1)
          (if found then char_count name - 1 else 0) s in
      if found then (position, position + char_count name) ∷ rest else rest
  name_spans name in_word position (suc skip) (String.◌∷◌ x s) =
      name_spans name (u.is_word (code x)) (position + 1) skip s

  unfoldable pub spans_of : String → String → List (ℕ × ℕ)
  spans_of name s = name_spans name false 0 0 s
