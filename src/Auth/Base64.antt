-- ===== src/Auth/Base64.antt =====
-- packages/contracts/src/workforce_contracts/auth.py, _encode and _decode, with the functions of Python's
-- base64 that they call: urlsafe_b64encode, and urlsafe_b64decode, which skips what is not of the alphabet.
-- Bytes are numbers below 256 and a text is the list of its code points.
pub mod RoundTrip
use tasks_management.Base.{
  Bool, List, Option, [], all, eqb, false, if◌then◌else◌, leb, length, ltb, none, some, suc, true,
  zero, ℕ, ◌%◌, ◌&&◌, ◌*◌, ◌++◌, ◌+◌, ◌-◌, ◌/◌, ◌∷◌,
}

-- "A" to "Z", "a" to "z", "0" to "9", "-" and "_"
unfoldable pub letter : ℕ → ℕ
letter v =
    if ltb v 26
    then v + 65
    else if ltb v 52
    then v + 71
    else if ltb v 62
    then v - 4
    else if ltb v 63
    then 45
    else 95

-- the value of a letter; "+" and "/" have theirs as well
unfoldable pub value_of : ℕ → Option ℕ
value_of c =
    if leb 65 c && leb c 90
    then some (c - 65)
    else if leb 97 c && leb c 122
    then some (c - 71)
    else if leb 48 c && leb c 57
    then some (c + 4)
    else if eqb c 45
    then some 62
    else if eqb c 43
    then some 62
    else if eqb c 95
    then some 63
    else if eqb c 47
    then some 63
    else none

-- `base64.urlsafe_b64encode`
unfoldable pub b64encode : List ℕ → List ℕ
b64encode [] = []
b64encode (a ∷ []) = letter (a / 4) ∷ letter (a % 4 * 16) ∷ 61 ∷ 61 ∷ []
b64encode (a ∷ b ∷ []) =
    letter (a / 4) ∷ letter (a % 4 * 16 + b / 16) ∷ letter (b % 16 * 4) ∷ 61 ∷ []
b64encode (a ∷ b ∷ c ∷ rest) =
    letter (a / 4)
    ∷ letter (a % 4 * 16 + b / 16)
    ∷ letter (b % 16 * 4 + c / 64)
    ∷ letter (c % 64)
    ∷ b64encode rest

-- the bits that the decoder holds between two bytes, and how many "=" it has counted
pub data Held : Type 0 where
  no_bits : Held
  six_bits four_bits two_bits : ℕ → Held

pub data Reader : Type 0 where
  reading : Held → ℕ → Reader
  finished : Reader

-- what a letter of value v adds: a byte, or none yet
unfoldable pub take_value : Held → ℕ → Option ℕ × Held
take_value no_bits v = (none, six_bits v)
take_value (six_bits h) v = (some (h * 4 + v / 16), four_bits (v % 16))
take_value (four_bits h) v = (some (h * 16 + v / 4), two_bits (v % 4))
take_value (two_bits h) v = (some (h * 64 + v), no_bits)

unfoldable pub take_pad : Held → ℕ → Reader
take_pad no_bits pads = reading no_bits pads
take_pad (six_bits h) pads = reading (six_bits h) pads
take_pad (four_bits h) pads = if leb 1 pads then finished else reading (four_bits h) (pads + 1)
take_pad (two_bits h) pads = finished

unfoldable pub take_letter : Option ℕ → Held → ℕ → Option ℕ × Reader
take_letter none h pads = (none, reading h pads)
take_letter (some v) h pads = let (byte, held) = take_value h v in (byte, reading held 0)

unfoldable pub read_one : Reader → ℕ → Option ℕ × Reader
read_one finished c = (none, finished)
read_one (reading h pads) c =
    if eqb c 61 then (none, take_pad h pads) else take_letter (value_of c) h pads

abbrev pub end_of_text : Reader → Option (List ℕ)
end_of_text (reading no_bits pads) = some []
end_of_text (reading (six_bits h) pads) = none
end_of_text (reading (four_bits h) pads) = none
end_of_text (reading (two_bits h) pads) = none
end_of_text finished = some []

abbrev pub emitted : Option ℕ → Option (List ℕ) → Option (List ℕ)
emitted none rest = rest
emitted (some byte) none = none
emitted (some byte) (some rest) = some (byte ∷ rest)

unfoldable pub read_all : Reader → List ℕ → Option (List ℕ)
read_all r [] = end_of_text r
read_all r (c ∷ cs) = let (byte, next) = read_one r c in emitted byte (read_all next cs)

abbrev pub is_ascii : ℕ → Bool
is_ascii c = ltb c 128

-- `base64.urlsafe_b64decode` of a str: it is ASCII or a ValueError
unfoldable pub b64decode : List ℕ → Option (List ℕ)
b64decode text = if all is_ascii text then read_all (reading no_bits 0) text else none

abbrev pub kept : Bool → List ℕ → ℕ → List ℕ
kept true [] x = []
kept true (y ∷ ys) x = x ∷ y ∷ ys
kept false rest x = x ∷ rest

-- `text.rstrip("=")`
unfoldable pub rstrip_pads : List ℕ → List ℕ
rstrip_pads [] = []
rstrip_pads (x ∷ xs) = let rest = rstrip_pads xs in kept (eqb x 61) rest x

-- `"=" * n`
unfoldable pub pads : ℕ → List ℕ
pads zero = []
pads (suc n) = 61 ∷ pads n

unfoldable pub encode : List ℕ → List ℕ
encode value = rstrip_pads (b64encode value)

-- `"=" * (-n % 4)`: `-n % 4` is the distance to the next multiple of four
unfoldable pub padding : ℕ → List ℕ
padding n = pads ((4 - n % 4) % 4)

unfoldable pub decode : List ℕ → Option (List ℕ)
decode value = b64decode (value ++ padding (length value))
