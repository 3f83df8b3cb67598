-- ===== src/Json/Value.antt =====
-- The values of `serde_json`, over the type of its numbers, and the lists in them.
use ark_rust.Base.{Eq, string_eq, String, ite, Bool, true, false, List, [], ◌∷◌, ◌≡◌, refl, ap}
use ark_rust.Map.{Map}

module _ (N : Type 0) where
  mutual
    pub data Value : Type 0 where
      null : Value
      boolean : Bool → Value
      number : N → Value
      string : String → Value
      array : Items → Value
      object : Fields → Value

    pub data Items : Type 0 where
      nil : Items
      cons : Value → Items → Items

    pub data Fields : Type 0 where
      end : Fields
      field : String → Value → Fields → Fields

module _ {N : Type 0} where
  unfoldable pub elements : Items N → List (Value N)
  elements nil = []
  elements (cons v l) = v ∷ elements l

  unfoldable pub items : List (Value N) → Items N
  items [] = nil
  items (v ∷ l) = cons v (items l)

  unfoldable pub entries : Fields N → Map String (Value N)
  entries end = []
  entries (field k v l) = (k, v) ∷ entries l

  unfoldable pub fields : Map String (Value N) → Fields N
  fields [] = end
  fields ((k, v) ∷ m) = field k v (fields m)

  pub elements-items : (l : List (Value N)) → elements (items l) ≡ l
  unfolding elements items
  elements-items [] = refl
  elements-items (v ∷ l) = ap (λ x. v ∷ x) (elements-items l)

  pub items-elements : (l : Items N) → items (elements l) ≡ l
  unfolding elements items
  items-elements nil = refl
  items-elements (cons v l) = ap (cons v) (items-elements l)

  pub entries-fields : (m : Map String (Value N)) → entries (fields m) ≡ m
  unfolding entries fields
  entries-fields [] = refl
  entries-fields ((k, v) ∷ m) = ap (λ x. (k, v) ∷ x) (entries-fields m)

module _ {N : Type 0} ⦃e : Eq N⦄ where
  unfoldable pub Value-discrete : Discrete (Value N)
  Value-discrete = hlevel (e.dec, string_eq.dec)

  instance abbrev pub value_eq : Eq (Value N)
  value_eq = record { dec = Value-discrete }

-- `std::mem::Discriminant<Value>`
pub data Discriminant : Type 0 where
  of_null of_boolean of_number of_string of_array of_object : Discriminant

unfoldable pub Discriminant-discrete : Discrete Discriminant
Discriminant-discrete = hlevel

module _ {N : Type 0} where
  abbrev pub discriminant : Value N → Discriminant
  discriminant null = of_null
  discriminant (boolean b) = of_boolean
  discriminant (number n) = of_number
  discriminant (string s) = of_string
  discriminant (array l) = of_array
  discriminant (object m) = of_object

  -- Whether two values have the same discriminant.
  unfoldable pub alike : Value N → Value N → Bool
  alike v w = ite (Discriminant-discrete (discriminant v) (discriminant w)) true false

  -- `json!([..])` of a list of values
  abbrev pub vector : List (Value N) → Value N
  vector l = array (items l)
