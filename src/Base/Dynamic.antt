-- ===== src/Base/Dynamic.antt =====
-- Python's operations on a JSON value of any type, with the errors that they raise.
use infra_lab.Base.{
  String, Option, none, some, List, [], ◌∷◌, Result, ok, err, type_error, attribute_error,
  key_error, or_raise,
}
use infra_lab.Base.Json.{
  Json, Items, Fields, none_left, item, end, field, null, str, arr, obj, member,
}

module _ {F : Type 0} where
  -- The value that a method `get` returns
  abbrev pub or_null : Option (Json F) → Json F
  or_null none = null
  or_null (some v) = v

  -- `d.get(key, default)`
  abbrev pub get_or : String → Json F → Fields F → Json F
  get_or key default d = elim (member key d) [ none ↦ default | some v ↦ v ]

  -- The value that `.get` is called on.
  abbrev pub dict_of : Json F → Result (Fields F)
  dict_of (obj d) = ok d
  dict_of v = err attribute_error

  abbrev pub list_items : Items F → List (Json F)
  list_items none_left = []
  list_items (item v vs) = v ∷ list_items vs

  abbrev keys_of : Fields F → List (Json F)
  keys_of end = []
  keys_of (field k v rest) = str k ∷ keys_of rest

  abbrev pub characters : String → List (Json F)
  characters String.[] = []
  characters (String.◌∷◌ c s) = str (String.◌∷◌ c String.[]) ∷ characters s

  -- `for x in value`
  unfoldable pub iterate : Json F → Result (List (Json F))
  iterate (arr vs) = ok (list_items vs)
  iterate (obj d) = ok (keys_of d)
  iterate (str s) = ok (characters s)
  iterate v = err type_error

  -- `[x.get(key, default) for x in values]`
  unfoldable pub get_each : String → Json F → List (Json F) → Result (List (Json F))
  get_each key default [] = ok []
  get_each key default (v ∷ vs) = elim (dict_of v) [
    | err e ↦ err e
    | ok d ↦ elim (get_each key default vs) [
      | err e ↦ err e
      | ok rest ↦ ok (get_or key default d ∷ rest)
    ]
  ]

  -- `", ".join(values)`, which raises for a value that is no text
  unfoldable pub texts_of : List (Json F) → Result (List String)
  texts_of [] = ok []
  texts_of (str s ∷ vs) = elim (texts_of vs) [ ok rest ↦ ok (s ∷ rest) | err e ↦ err e ]
  texts_of (v ∷ vs) = err type_error

  -- `value[key]`
  unfoldable pub item_of : String → Json F → Result (Json F)
  item_of key (obj d) = or_raise key_error (member key d)
  item_of key v = err type_error
