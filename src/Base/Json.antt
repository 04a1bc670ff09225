-- ===== src/Base/Json.antt =====
-- JSON values, as Python decodes them: what `response.json()` returns, and the payload of an
-- envelope.
use Prim.Native.Nat.{ℕ, suc}
use Prim.Native.String.{String}
use mathlib.Core.Bool.{Bool}
use text.Mathlib.Text.{◌==◌ as str_eq}
use sentinel_chain.Base.Tests.{if◌then◌else◌}
use sentinel_chain.Base.Int.{ℤ}

-- An object is a dict from texts, its items in order.
mutual
  pub data Json (F : Type 0) : Type 0 where
    null : Json F
    bool : Bool → Json F
    int : ℤ → Json F
    float : F → Json F
    str : String → Json F
    arr : Items F → Json F
    obj : Fields F → Json F

  pub data Items (F : Type 0) : Type 0 where
    nil : Items F
    cons : Json F → Items F → Items F

  pub data Fields (F : Type 0) : Type 0 where
    end : Fields F
    field : String → Json F → Fields F → Fields F

-- `d.get(k)`: `None` where the key is missing, and where its value is `null`.
abbrev pub get : {F : Type 0} → String → Fields F → Json F
get k end = null
get k (field j v fs) = if str_eq j k then v else get k fs

-- `len(xs)`
abbrev pub count : {F : Type 0} → Items F → ℕ
count nil = 0
count (cons x xs) = suc (count xs)
