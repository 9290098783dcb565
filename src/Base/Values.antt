-- ===== src/Base/Values.antt =====
-- The JSON values that the program stores: flat objects, whose values may be flat objects again.
use Prim.Native.Nat.{ℕ}
use Prim.Native.String.{String}
use mathlib.Core.Bool.{Bool}
use mathlib.Core.Option.{Option, none, some}
use mathlib.Core.List.{List}

pub data Scalar : Type 0 where
  null : Scalar
  string : String → Scalar
  number : ℕ → Scalar
  flag : Bool → Scalar
  strings : List String → Scalar

pub data Json : Type 0 where
  scalar : Scalar → Json
  object : List (String × Scalar) → Json

-- `dict[str, Any]`
abbrev pub Payload : Type 0
Payload = List (String × Scalar)

abbrev pub string_or_null : Option String → Scalar
string_or_null none = null
string_or_null (some s) = string s

abbrev pub object_or_null : Option Payload → Json
object_or_null none = scalar null
object_or_null (some p) = object p

-- `hashlib.sha256(...).hexdigest()` and `json.dumps(..., sort_keys=True)`.
pub record Platform : Type 0 where
  pub sha256 : String → String
  pub dumps : List (String × Json) → String

-- What the runtime hands one call: the clock and the values of `uuid.uuid4()`, in order.
pub record Call : Type 0 where
  pub now : ℕ
  pub uuid : ℕ → String
