-- ===== src/Base/Json.antt =====
-- JSON values as Python's `json` gives them, over any type of numbers. An object is its members in
-- order; a repeated key is not told apart, and the first counts.
use infra_lab.Base.{String, Bool, false, Option, none, some, str_eq, if◌then◌else◌}

mutual
  pub data Json (F : Type 0) : Type 0 where
    null : Json F
    bool : Bool → Json F
    num : F → Json F
    str : String → Json F
    arr : Items F → Json F
    obj : Fields F → Json F

  pub data Items (F : Type 0) : Type 0 where
    none_left : Items F
    item : Json F → Items F → Items F

  pub data Fields (F : Type 0) : Type 0 where
    end : Fields F
    field : String → Json F → Fields F → Fields F

module _ {F : Type 0} where
  -- `raw[key]`, with `none` for a missing key
  abbrev pub member : String → Fields F → Option (Json F)
  member k end = none
  member k (field j v rest) = if str_eq j k then some v else member k rest

  -- `value == "text"` for what `get` returned
  abbrev pub is_str : String → Option (Json F) → Bool
  is_str s (some (str t)) = str_eq t s
  is_str s v = false

  -- `get(key)` as a text, where it is one
  abbrev pub as_str : Option (Json F) → Option String
  as_str (some (str t)) = some t
  as_str v = none
