-- ===== src/Protocol/Json.antt =====
-- JSON values, as `JSON.parse` gives them: an object has no key twice. Of the numbers, those that
-- are natural are told from the others.
use telecode.Base.{ℕ, String, Bool, Option, none, some, if◌then◌else◌, ◌==◌, string_eq}

mutual
  pub data Json : Type 0 where
    null : Json
    boolean : Bool → Json
    natural : ℕ → Json
    other_number : (text : String) → Json
    json_text : String → Json
    array : Items → Json
    object : Fields → Json

  pub data Items : Type 0 where
    exhausted : Items
    item : Json → Items → Items

  pub data Fields : Type 0 where
    empty : Fields
    field : (key : String) → Json → Fields → Fields

unfoldable pub prop : String → Fields → Option Json
prop key empty = none
prop key (field k v rest) = if k == key then some v else prop key rest
