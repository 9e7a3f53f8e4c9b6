-- ===== src/Prelude/Json.antt =====
-- Values that reach the program from JSON or from an object literal; `null` stands for `undefined`
-- too. Numbers are the natural ones, which is what the program's identifiers and times are.
use Prim.Native.Nat.{ℕ, ◌+◌}
use Prim.Native.String.{String}
use mathlib.Core.Bool.{Bool}
use mathlib.Core.List.{List, [], ◌∷◌}
use mathlib.Core.Option.{Option, none, some}
use text.Mathlib.Text.{◌==◌}
use arma_partner_api_sandbox.Prelude.Tests.{ltb, if◌then◌else◌}
use arma_partner_api_sandbox.Prelude.Text.{codes}

mutual
  pub data Json : Type 0 where
    null : Json
    bool : Bool → Json
    num : ℕ → Json
    str : String → Json
    arr : Items → Json
    obj : Fields → Json

  pub data Items : Type 0 where
    nil : Items
    cons : Json → Items → Items

  pub data Fields : Type 0 where
    end : Fields
    field : String → Json → Fields → Fields

-- `o[name]`, where a missing field is `undefined`
unfoldable pub get_field : String → Fields → Json
get_field k end = null
get_field k (field j v fs) = if j == k then v else get_field k fs

-- `typeof v === 'string' ? v : undefined`
abbrev pub as_string : Json → Option String
as_string (str s) = some s
as_string _ = none

-- `s.length` counts UTF-16 units
sum_units : List ℕ → ℕ
sum_units [] = 0
sum_units (c ∷ cs) = (if ltb c 65536 then 1 else 2) + sum_units cs

unfoldable pub utf16_length : String → ℕ
unfolding sum_units
utf16_length s = sum_units (codes s)
