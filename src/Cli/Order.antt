-- ===== src/Cli/Order.antt =====
-- ark-cli/src/commands/list.rs: the order of the entries of the list command, and its filter.
use Prim.Native.Char.{code}
use ark_rust.Base.{
  string_eq, ℕ, String, Bool, true, false, Option, none, some, List, [], ◌∷◌, ltb, ◌==◌,
  if◌then◌else◌,
}
use ark_rust.Map.{contains}

-- ark-cli/src/models/mod.rs
pub data Sort : Type 0 where
  asc desc : Sort

pub record StorageEntry (ResourceId : Type 0) : Type 0 where
  pub path : Option String
  pub resource : Option ResourceId
  pub content : Option String
  pub tags : Option (List String)
  pub scores : Option ℕ
  pub datetime : Option String

-- The order of strings, by the codes of their characters.
unfoldable pub le_string : String → String → Bool
le_string String.[] t = true
le_string (String.◌∷◌ c s) String.[] = false
le_string (String.◌∷◌ c s) (String.◌∷◌ d t) =
    let rest = le_string s t in
    if ltb (code c) (code d) then true else if code c == code d then rest else false

-- The order of `Option<String>`: a missing one comes first.
unfoldable pub le_datetime : Option String → Option String → Bool
unfolding le_string
le_datetime none other = true
le_datetime (some s) none = false
le_datetime (some s) (some t) = le_string s t

module _ {ResourceId : Type 0} where
  -- `sort_by` keeps the order of equal entries.
  unfoldable pub place_entry :
      (StorageEntry ResourceId → StorageEntry ResourceId → Bool)
      → StorageEntry ResourceId
      → List (StorageEntry ResourceId)
      → List (StorageEntry ResourceId)
  place_entry le a [] = a ∷ []
  place_entry le a (b ∷ l) =
      let later = b ∷ place_entry le a l in if le a b then a ∷ b ∷ l else later

  unfoldable pub sort_by :
      (StorageEntry ResourceId → StorageEntry ResourceId → Bool)
      → List (StorageEntry ResourceId)
      → List (StorageEntry ResourceId)
  unfolding place_entry
  sort_by le [] = []
  sort_by le (a ∷ l) = place_entry le a (sort_by le l)

  abbrev pub in_order : Sort → StorageEntry ResourceId → StorageEntry ResourceId → Bool
  in_order asc a b = le_datetime a.datetime b.datetime
  in_order desc a b = le_datetime b.datetime a.datetime

  unfoldable pub sorted :
      Option Sort → List (StorageEntry ResourceId) → List (StorageEntry ResourceId)
  unfolding sort_by
  sorted none entries = entries
  sorted (some sort) entries = sort_by (in_order sort) entries

  -- Whether an entry was given a tag; one without tags was not.
  abbrev pub has_tag : String → StorageEntry ResourceId → Bool
  has_tag tag a = elim a.tags [ none ↦ false | some tags ↦ contains tag tags ]

  unfoldable pub retain : String → List (StorageEntry ResourceId) → List (StorageEntry ResourceId)
  retain tag [] = []
  retain tag (a ∷ l) = let rest = retain tag l in if has_tag tag a then a ∷ rest else rest

  unfoldable pub filtered :
      Option String → List (StorageEntry ResourceId) → List (StorageEntry ResourceId)
  unfolding retain
  filtered none entries = entries
  filtered (some tag) entries = retain tag entries
