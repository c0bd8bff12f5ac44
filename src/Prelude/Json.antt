-- ===== src/Prelude/Json.antt =====
-- What the program uses of Go's package `encoding/json`: values, and the type assertions on them. Of
-- a number that is no integer literal a value has the integer part.
use mathlib.Core.Bool.{Bool, false}
use mathlib.Core.Option.{Option, none, some}
use mathlib.Core.List.{List, [], ◌∷◌}
use nyyu_market.Prelude.Tests.{if◌then◌else◌}
use nyyu_market.Prelude.Strings.{Integer}
use nyyu_market.Prelude.Text.{Bytes, bytes_eq}

mutual
  pub data Json : Type 0 where
    null : Json
    bool : Bool → Json
    int : Integer → Json
    float : Integer → Json
    str : Bytes → Json
    arr : Items → Json
    obj : Fields → Json

  pub data Items : Type 0 where
    nil : Items
    cons : Json → Items → Items

  pub data Fields : Type 0 where
    end : Fields
    field : Bytes → Json → Fields → Fields

abbrev pub items : Items → List Json
items nil = []
items (cons v vs) = v ∷ items vs

abbrev pub last_of : Option Json → Option Json → Option Json
last_of (some w) o = some w
last_of none o = o

-- The value under a key of a map; the last one counts.
unfoldable pub get : Bytes → Fields → Option Json
get k end = none
get k (field j v fs) = last_of (get k fs) (if bytes_eq j k then some v else none)

-- `v, ok := x.(T)`; a missing key gives nil.
abbrev pub as_string : Option Json → Option Bytes
as_string (some (str s)) = some s
as_string _ = none

abbrev pub as_map : Option Json → Option Fields
as_map (some (obj fs)) = some fs
as_map _ = none

abbrev pub as_list : Option Json → Option (List Json)
as_list (some (arr vs)) = some (items vs)
as_list _ = none

-- `v, _ := x.(T)`; of a float64 its conversion to an integer.
abbrev pub string_or_empty : Option Json → Bytes
string_or_empty (some (str s)) = s
string_or_empty _ = []

abbrev pub number_or_zero : Option Json → Integer
number_or_zero (some (int n)) = n
number_or_zero (some (float n)) = n
number_or_zero _ = (false, 0)

abbrev pub bool_or_false : Option Json → Bool
bool_or_false (some (bool b)) = b
bool_or_false _ = false
