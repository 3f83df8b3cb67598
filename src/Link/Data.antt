-- ===== src/Link/Data.antt =====
-- data-link/src/lib.rs: `Link` and its `Properties`, and what serde derives for them.
use ark_rust.Base.{string_eq, String, Option, none, some}
use ark_rust.Map
use ark_rust.Map.{Map}
use ark_rust.Json.Value.{Value, Items, null, string, array, nil, cons, object, entries, field, end}

-- `Properties` of a link
pub record LinkProperties : Type 0 where
  pub title : String
  pub desc : Option String

pub record Link (Url : Type 0) : Type 0 where
  pub url : Url
  pub prop : LinkProperties

abbrev pub new_link : {Url : Type 0} → Url → String → Option String → Link Url
new_link url title desc = record { url = url; prop = record { title = title; desc = desc } }

abbrev pub both : Option String → Option (Option String) → Option LinkProperties
both (some title) (some desc) = some (record { title = title; desc = desc })
both _ _ = none

module _ {N : Type 0} where
  abbrev pub optional : Option String → Value N
  optional none = null
  optional (some s) = string s

  -- The derived `Serialize`.
  abbrev pub to_value : LinkProperties → Value N
  to_value prop = object (field "title" (string prop.title) (field "desc" (optional prop.desc) end))

  abbrev pub read_string : Option (Value N) → Option String
  read_string (some (string s)) = some s
  read_string _ = none

  -- An `Option<String>`: it may be missing or null.
  abbrev pub read_optional : Option (Value N) → Option (Option String)
  read_optional none = some none
  read_optional (some null) = some none
  read_optional (some (string s)) = some (some s)
  read_optional _ = none

  abbrev pub of_fields : Map String (Value N) → Option LinkProperties
  of_fields m = both (read_string (Map.get "title" m)) (read_optional (Map.get "desc" m))

  -- The two fields in an array.
  abbrev pub of_items : Items N → Option LinkProperties
  of_items (cons title (cons desc nil)) =
      both (read_string (some title)) (read_optional (some desc))
  of_items _ = none

  -- The derived `Deserialize`; other keys of an object are passed over.
  abbrev pub of_value : Value N → Option LinkProperties
  of_value (object m) = of_fields (entries m)
  of_value (array l) = of_items l
  of_value _ = none
