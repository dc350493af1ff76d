-- ===== src/Base/Json.antt =====
-- JSON values, as `dict[str, Any]` holds them. A number that is no integer is kept as its text.
use Prim.Native.String.{String}
use text.Mathlib.Text.{◌==◌}
use mathlib.Core.Bool.{Bool}
use mathlib.Core.Option.{Option, none, some}
use test_paper_backend.Base.Tests.{if◌then◌else◌}
use Prim.Native.Nat.{ℕ}

mutual
  pub data Json : Type 0 where
    null : Json
    bool : Bool → Json
    -- an integer that is zero or more, and one below zero: -(n + 1)
    int : ℕ → Json
    negint : ℕ → Json
    float : String → Json
    str : String → Json
    arr : Items → Json
    obj : Fields → Json

  pub data Items : Type 0 where
    nil : Items
    cons : Json → Items → Items

  pub data Fields : Type 0 where
    end : Fields
    field : String → Json → Fields → Fields

-- `d.get(key)`
unfoldable pub get_field : String → Fields → Option Json
get_field key end = none
get_field key (field k v rest) = if k == key then some v else get_field key rest
