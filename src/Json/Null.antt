-- ===== src/Json/Null.antt =====
-- `merge` of data-json/src/lib.rs with `null`.
use ark_rust.Base.{
  Eq, ◌≡◌, ◌↔◌, refl, ap, Bool, true, false, length, length-append, ℕ, [], ◌∷◌, ◌++◌, arith, ◌≢◌,
}
use ark_rust.Json.Value.{
  Value, null, boolean, number, string, array, object, elements, items, Items,
  Discriminant-discrete, nil, cons, value_eq, alike, vector, elements-items, items-elements,
}
use ark_rust.Json.Uniform.{values}
use ark_rust.Json.Merge.{merge, merge_push, merge_front}

module _ {N : Type 0} ⦃e : Eq N⦄ where
  -- An array that is not empty and does not start with `null`, or no array.
  abbrev pub is_settled : Value N → Bool
  is_settled (array nil) = false
  is_settled (array (cons null l)) = false
  is_settled _ = true

  abbrev pub is_array : Value N → Bool
  is_array (array l) = true
  is_array _ = false

  abbrev width : Value N → ℕ
  width v = length (values v)

  kept : (v : Value N) (l : Items N) → vector (v ∷ elements l) ≡ array (cons v l)
  unfolding items
  kept v l = ap (λ x. array (cons v x)) (items-elements l)

  longer : (v : Value N) (l : Items N) → vector (v ∷ elements l ++ null ∷ []) ≢ array (cons v l)
  unfolding items elements
  longer v l h = absurd (
      omega (
        arith,
        ap width h,
        ap length (elements-items (elements l ++ null ∷ [])),
        length-append (elements l) (null ∷ []),
      ))

  doubled : (v : Value N) (l : Items N) → vector (null ∷ v ∷ elements l) ≢ array (cons v l)
  unfolding items elements
  doubled v l h = absurd (omega (arith, ap width h, ap length (elements-items (elements l))))

  -- Merging null into a value keeps the value exactly if it is no array, or an array that is not
  -- empty and does not start with null.
  pub merge_null_iff : (v : Value N) → (merge v null ≡ v) ↔ (is_settled v ≡ true)
  unfolding merge merge_push alike elements items Discriminant-discrete
  merge_null_iff null = (λ h. refl, λ h. refl)
  merge_null_iff (boolean b) = (λ h. refl, λ h. refl)
  merge_null_iff (number n) = (λ h. refl, λ h. refl)
  merge_null_iff (string s) = (λ h. refl, λ h. refl)
  merge_null_iff (object m) = (λ h. refl, λ h. refl)
  merge_null_iff (array nil) = (λ h. absurd (omega (arith, ap width h)), λ h. absurd (ground arith))
  merge_null_iff (array (cons null l)) = (λ h. absurd (longer null l h), λ h. absurd (ground arith))
  merge_null_iff (array (cons (boolean b) l)) = (λ h. refl, λ h. kept (boolean b) l)
  merge_null_iff (array (cons (number n) l)) = (λ h. refl, λ h. kept (number n) l)
  merge_null_iff (array (cons (string s) l)) = (λ h. refl, λ h. kept (string s) l)
  merge_null_iff (array (cons (array m) l)) = (λ h. refl, λ h. kept (array m) l)
  merge_null_iff (array (cons (object m) l)) = (λ h. refl, λ h. kept (object m) l)

  -- Merging a value into null gives the value exactly if it is no array.
  pub null_merge_iff : (v : Value N) → (merge null v ≡ v) ↔ (is_array v ≡ false)
  unfolding merge merge_front alike elements items Discriminant-discrete
  null_merge_iff null = (λ h. refl, λ h. refl)
  null_merge_iff (boolean b) = (λ h. refl, λ h. refl)
  null_merge_iff (number n) = (λ h. refl, λ h. refl)
  null_merge_iff (string s) = (λ h. refl, λ h. refl)
  null_merge_iff (object m) = (λ h. refl, λ h. refl)
  null_merge_iff (array nil) = (λ h. ground arith, λ h. ground arith)
  null_merge_iff (array (cons null l)) =
      (λ h. absurd (doubled null l h), λ h. absurd (ground arith))
  null_merge_iff (array (cons (boolean b) l)) = (λ h. ground arith, λ h. ground arith)
  null_merge_iff (array (cons (number n) l)) = (λ h. ground arith, λ h. ground arith)
  null_merge_iff (array (cons (string s) l)) = (λ h. ground arith, λ h. ground arith)
  null_merge_iff (array (cons (array m) l)) = (λ h. ground arith, λ h. ground arith)
  null_merge_iff (array (cons (object m) l)) = (λ h. ground arith, λ h. ground arith)
