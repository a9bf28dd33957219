-- ===== src/Json.antt =====
-- The JSON values that the gateway writes into the metadata of its events (`serde_json::Value`).
use blink_lightning_gateway.Base.{ℕ, Bool, Option, none, some, List, [], ◌∷◌, String}

mutual
  pub data Json : Type 0 where
    null : Json
    bool : Bool → Json
    number : ℕ → Json
    string : String → Json
    array : Items → Json
    object : Fields → Json

  pub data Items : Type 0 where
    nil : Items
    cons : Json → Items → Items

  pub data Fields : Type 0 where
    end : Fields
    field : String → Json → Fields → Fields

-- `json!(option)`
abbrev pub optional : Option ℕ → Json
optional none = null
optional (some n) = number n

abbrev pub items : List Json → Items
items [] = nil
items (j ∷ js) = cons j (items js)
