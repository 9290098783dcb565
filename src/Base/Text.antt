-- ===== src/Base/Text.antt =====
-- The string methods that the program uses, on the native `String` (Python's `str`).
use Prim.Native.Nat.{ℕ, zero, suc}
use Prim.Native.Char.{code}
use Prim.Native.String.{String}
use Prim.Native.String.{◌++◌ as concat}
use mathlib.Core.Option.{Option, none, some}
use mathlib.Core.List.{List, [], ◌∷◌}
use mathlib.Core.Bool.{Bool, true, false, ◌||◌, ◌&&◌}
use tasks_management.Base.Tests.{eqb, leb, if◌then◌else◌}

-- `text.partition(c)[0]`, at the code point of the one-character separator
unfoldable pub partition_head : ℕ → String → String
partition_head c String.[] = String.[]
partition_head c (String.◌∷◌ x s) =
    let rest = partition_head c s in if eqb (code x) c then String.[] else String.◌∷◌ x rest

-- `text.partition(c)[1]` is not empty; `c in text`
unfoldable pub has_char : ℕ → String → Bool
has_char c String.[] = false
has_char c (String.◌∷◌ x s) = eqb (code x) c || has_char c s

-- `text[:n]`
unfoldable pub first_chars : ℕ → String → String
first_chars zero s = String.[]
first_chars (suc n) String.[] = String.[]
first_chars (suc n) (String.◌∷◌ x s) = String.◌∷◌ x (first_chars n s)

abbrev pub shortened : ℕ → Option String → Option String
shortened n none = none
shortened n (some s) = some (first_chars n s)

-- `text.startswith(prefix)`
unfoldable pub starts_with : String → String → Bool
starts_with String.[] s = true
starts_with (String.◌∷◌ c p) String.[] = false
starts_with (String.◌∷◌ c p) (String.◌∷◌ x s) = eqb (code c) (code x) && starts_with p s

-- `text[n:]`
unfoldable pub drop_chars : ℕ → String → String
drop_chars zero s = s
drop_chars (suc n) String.[] = String.[]
drop_chars (suc n) (String.◌∷◌ x s) = drop_chars n s

-- `character.isspace()`, by code point
unfoldable pub is_space : ℕ → Bool
is_space c =
    (leb 9 c && leb c 13)
    || (leb 28 c && leb c 32)
    || eqb c 133
    || eqb c 160
    || eqb c 5760
    || (leb 8192 c && leb c 8202)
    || eqb c 8232
    || eqb c 8233
    || eqb c 8239
    || eqb c 8287
    || eqb c 12288

-- `any(character.isspace() for character in text)`
unfoldable pub has_space : String → Bool
has_space String.[] = false
has_space (String.◌∷◌ x s) = is_space (code x) || has_space s

unfoldable pub strip_start : String → String
strip_start String.[] = String.[]
strip_start (String.◌∷◌ x s) =
    let rest = strip_start s in if is_space (code x) then rest else String.◌∷◌ x s

abbrev put_back : Bool → String → String → String
put_back true String.[] kept = String.[]
put_back true (String.◌∷◌ x s) kept = kept
put_back false rest kept = kept

unfoldable pub strip_end : String → String
strip_end String.[] = String.[]
strip_end (String.◌∷◌ x s) =
    let rest = strip_end s in put_back (is_space (code x)) rest (String.◌∷◌ x rest)

-- `text.strip()`
unfoldable pub strip : String → String
strip s = strip_end (strip_start s)

-- `part in text`
unfoldable pub has_text : String → String → Bool
has_text part String.[] = starts_with part String.[]
has_text part (String.◌∷◌ x s) = starts_with part (String.◌∷◌ x s) || has_text part s

abbrev word_before : String → List String → List String
word_before String.[] rest = rest
word_before (String.◌∷◌ x s) rest = String.◌∷◌ x s ∷ rest

-- the word that is being read, and the words after it
unfoldable pub scan_words : String → String × List String
scan_words String.[] = (String.[], [])
scan_words (String.◌∷◌ x s) =
    let rest = scan_words s in
    if is_space (code x)
    then (String.[], word_before rest.0 rest.1)
    else (String.◌∷◌ x rest.0, rest.1)

-- `text.split()`
unfoldable pub words : String → List String
words s = let found = scan_words s in word_before found.0 found.1

-- `separator.join(texts)`
unfoldable pub join : String → List String → String
join separator [] = String.[]
join separator (t ∷ []) = t
join separator (t ∷ u ∷ rest) = concat t (concat separator (join separator (u ∷ rest)))
