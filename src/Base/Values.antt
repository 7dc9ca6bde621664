-- ===== src/Base/Values.antt =====
-- JSON values, with a number kept as the text that `String(n)` gives.
use Prim.Native.String.{String}
use mathlib.Core.Bool.{Bool, true, false, not}
use mathlib.Core.Option.{Option, none, some}
use text.Mathlib.Text.{◌==◌ as str_eq}
use crmp_backend.Base.Lists.{lookup}
use mathlib.Core.List.{List, [], ◌∷◌}

mutual
  pub data Json : Type 0 where
    null : Json
    bool : Bool → Json
    number str : String → Json
    array : Items → Json
    object : Fields → Json

  pub data Items : Type 0 where
    nil : Items
    cons : Json → Items → Items

  pub data Fields : Type 0 where
    end : Fields
    field : String → Json → Fields → Fields

abbrev pub items : Items → List Json
items nil = []
items (cons v vs) = v ∷ items vs

abbrev pub fields : Fields → List (String × Json)
fields end = []
fields (field k v fs) = (k, v) ∷ fields fs

-- Whether a value, or a missing one, counts as true.
abbrev pub is_truthy : Option Json → Bool
is_truthy none = false
is_truthy (some null) = false
is_truthy (some (bool b)) = b
is_truthy (some (number s)) = not (str_eq s "0")
is_truthy (some (str s)) = not (str_eq s "")
is_truthy (some (array _)) = true
is_truthy (some (object _)) = true

-- `v?.[key]` on a value, where only an object has keys of its own.
unfoldable pub attr : String → Option Json → Option Json
unfolding lookup
attr key (some (object fs)) = lookup key (fields fs)
attr key _ = none

-- A property of a body: left out, or given, where `none` is null.
pub data Given (A : Type 0) : Type 0 where
  omitted : Given A
  given : Option A → Given A
