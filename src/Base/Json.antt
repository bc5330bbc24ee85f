-- ===== src/Base/Json.antt =====
-- serde_json's `Value`, as far as the program builds and reads it, with `v["key"]` and `as_str`,
-- `as_u64`, `as_bool`.
use Prim.Native.Nat.{ℕ, ◌^◌, ◌<◌}
use Prim.Native.String.{String}
use mathlib.Core.Logic.{ite}
use mathlib.Core.Bool.{Bool, true, false}
use mathlib.Core.Option.{Option, none, some}
use mathlib.Core.Path.{◌≡◌}
use tideline.Base.Texts.{dec_text}

mutual
  pub data Value : Type 0 where
    null : Value
    bool : Bool → Value
    number : ℕ → Value
    string : String → Value
    object : Fields → Value
    array : Items → Value

  pub data Fields : Type 0 where
    field : String → Value → Fields → Fields
    no_fields : Fields

  pub data Items : Type 0 where
    item : Value → Items → Items
    no_items : Items

unfoldable pub find_field : String → Fields → Value
find_field k no_fields = null
find_field k (field j v fs) = ite (dec_text j k) v (find_field k fs)

-- `v["key"]`: `Null` for a missing key, and for a value that is no object.
unfoldable pub index : Value → String → Value
unfolding find_field
index (object fs) k = find_field k fs
index _ k = null

abbrev pub as_str : Value → Option String
as_str (string s) = some s
as_str _ = none

abbrev pub as_u64 : Value → Option ℕ
as_u64 (number n) = some n
as_u64 _ = none

abbrev pub as_bool : Value → Option Bool
as_bool (bool b) = some b
as_bool _ = none

-- `json!` of an `Option<&str>`.
abbrev pub from_option : Option String → Value
from_option none = null
from_option (some s) = string s

-- A value that is neither an object nor an array, and a number of 64 bits if it is one.
abbrev pub IsScalar : Value → Type 0
IsScalar null = Unit
IsScalar (bool b) = Unit
IsScalar (number n) = n < 2 ^ 64
IsScalar (string s) = Unit
IsScalar (object fs) = ⊥
IsScalar (array vs) = ⊥

unfoldable pub has_field : String → Fields → Bool
has_field k no_fields = false
has_field k (field j v fs) = ite (dec_text j k) true (has_field k fs)

-- Fields with different names and values of one piece.
abbrev pub AreFlat : Fields → Type 0
AreFlat no_fields = Unit
AreFlat (field k v fs) = IsScalar v × (has_field k fs ≡ false) × AreFlat fs

pub from_option-IsScalar : (o : Option String) → IsScalar (from_option o)
from_option-IsScalar none = tt
from_option-IsScalar (some s) = tt
