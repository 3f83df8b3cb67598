-- ===== src/Json/Uniform.antt =====
-- `merge_vec` of data-json/src/lib.rs: which values the merged array has.
use ark_rust.Base.{
  Eq, ◌≟◌, ◌≡◌, refl, ap, ◌∙◌, Bool, true, false, not, ◌&&◌, ◌||◌, List, [], ◌∷◌, ◌++◌, All, arith,
}
use ark_rust.Map.{contains}
use ark_rust.Json.Value.{Value, array, elements, value_eq, alike, elements-items}
use ark_rust.Json.Merge.{filter, every, differ, merge_vec}

module _ {ℓ} {A : Type ℓ} where
  pub filter-All : (keep : A → Bool) (l : List A) → All (λ x. keep x ≡ true) l → filter keep l ≡ l
  unfolding filter
  filter-All keep [] h = refl
  filter-All keep (v ∷ l) h = ground (arith, filter-All keep l h.1)

module _ {A : Type 0} ⦃e : Eq A⦄ where
  pub contains-filter :
      (keep : A → Bool) (x : A) (l : List A) → contains x (filter keep l) ≡ keep x && contains x l
  unfolding filter contains
  contains-filter keep x [] = ground arith
  contains-filter keep x (v ∷ l) = elim (v ≟ x) [
    | yes p ↦ ground (arith, ap keep p, contains-filter keep x l)
    | no n ↦ ground (arith, contains-filter keep x l)
  ]

  contains-append : (x : A) (l m : List A) → contains x (l ++ m) ≡ contains x l || contains x m
  unfolding contains
  contains-append x [] m = refl
  contains-append x (v ∷ l) m = ground (arith, contains-append x l m)

  pub empty_of : (l : List A) → ((x : A) → contains x l ≡ false) → l ≡ []
  unfolding contains
  empty_of [] h = refl
  empty_of (v ∷ l) h = absurd (ground (arith, h v))

module _ {N : Type 0} ⦃e : Eq N⦄ where
  pub every-differ :
      (x : Value N) (l : List (Value N)) → every (λ y. differ y x) l ≡ not (contains x l)
  unfolding every contains
  every-differ x [] = refl
  every-differ x (v ∷ l) = ground (arith, every-differ x l)

  -- The values of an array.
  abbrev pub values : Value N → List (Value N)
  values (array l) = elements l
  values _ = []

  -- Two arrays that are not empty merge into an array of exactly the values of either that have
  -- the type of the first value.
  pub contains-merge_vec :
      (x v w : Value N) (old new : List (Value N))
      → contains x (values (merge_vec (v ∷ old) (w ∷ new)))
        ≡ alike x v && (contains x (v ∷ old) || contains x (w ∷ new))
  unfolding merge_vec
  contains-merge_vec x v w old new =
      let filtered : List (Value N) = filter (λ y. alike y v) (v ∷ old) in
      let fresh = λ (y : Value N). alike y v && every (λ z. differ z y) filtered in
      ap (contains x) (elements-items (filtered ++ filter fresh (w ∷ new)))
      ∙ contains-append x filtered (filter fresh (w ∷ new))
      ∙ ground (
        arith,
        contains-filter (λ y. alike y v) x (v ∷ old),
        contains-filter fresh x (w ∷ new),
        every-differ x filtered,
      )
