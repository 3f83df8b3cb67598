-- ===== src/Index/Select.antt =====
-- How `update_all` of fs-index/src/index.rs sorts the paths: which entries the filters select.
use ark_rust.Base.{
  Eq, ◌≟◌, string_eq, Bool, true, false, ◌≡◌, ◌≢◌, refl, ap, ite, Option, none, some, List, [], ◌∷◌,
  ◌++◌, arith, if◌then◌else◌, ◌∙◌, inl, inr, Option-cases,
}
use mathlib.Core.Option.{some-injective}
use mathlib.Core.Path.{subst}
use ark_rust.Map.{Map, get, contains, over, get-remove}
use ark_rust.Map.Keys.{AreApart, keys, IsUnique}
use ark_rust.Index.State.{FilePath, IndexEntry, ResourceIndex}
use ark_rust.Index.Scan.{DirEntry}
use ark_rust.Index.Update.{filter_paths, select, filter_entries, unknown_ids, drop_path, drop_paths}

abbrev pub is_some {ℓ} : {A : Type ℓ} → Option A → Bool
is_some none = false
is_some (some a) = true

is_some-ite {ℓ κ} :
    {P : Type κ} {A : Type ℓ} (d : Dec P) (a : A) (o : Option A)
    → ite d true (is_some o) ≡ is_some (ite d (some a) o)
is_some-ite (yes p) a o = refl
is_some-ite (no n) a o = refl

module _ {ℓ} {K V : Type ℓ} ⦃e : Eq K⦄ where
  pub contains-keys : (k : K) (m : Map K V) → contains k (keys m) ≡ is_some (get k m)
  unfolding contains keys get
  contains-keys k [] = refl
  contains-keys k ((j, v) ∷ m) =
      ap (ite (j ≟ k) true) (contains-keys k m) ∙ is_some-ite (j ≟ k) v (get k m)

  pub get-append : (k : K) (l m : Map K V) → get k (l ++ m) ≡ over (get k l) (get k m)
  unfolding get
  get-append k [] m = refl
  get-append k ((j, v) ∷ l) m = ground (arith, get-append k l m)

  pub append-IsUnique : (l m : Map K V) → IsUnique l → IsUnique m → AreApart l m → IsUnique (l ++ m)
  append-IsUnique [] m u v a = v
  append-IsUnique ((j, w) ∷ l) m u v a =
      (ground (arith, get-append j l m), append-IsUnique l m u.1 v a.1)

module _ {ℓ} {K : Type ℓ} ⦃e : Eq K⦄ where
  pub contains-append :
      (k : K) (s t : List K) → contains k (s ++ t) ≡ (if contains k s then true else contains k t)
  unfolding contains
  contains-append k [] t = refl
  contains-append k (j ∷ s) t = ground (arith, contains-append k s t)

pub contains-filter_paths :
    (p : FilePath) (keep : FilePath → Bool) (ps : List FilePath)
    → contains p (filter_paths keep ps) ≡ (if keep p then contains p ps else false)
unfolding contains filter_paths
contains-filter_paths p keep [] = ground arith
contains-filter_paths p keep (q ∷ ps) = ground (arith, contains-filter_paths p keep ps)

pub get-select :
    (p : FilePath) (keep : FilePath → Bool) (m : Map FilePath DirEntry)
    → get p (select keep m) ≡ (if keep p then get p m else none)
unfolding get select
get-select p keep [] = ground arith
get-select p keep ((q, entry) ∷ m) = ground (arith, get-select p keep m)

-- The entry, if the test answers `true` for it.
abbrev pub passed : Option Bool → DirEntry → Option DirEntry
passed (some true) entry = some entry
passed (some false) entry = none
passed none entry = none

abbrev pub pass : (FilePath → DirEntry → Option Bool) → FilePath → Option DirEntry → Option DirEntry
pass keep p none = none
pass keep p (some entry) = passed (keep p entry) entry

pub get-filter_entries :
    (p : FilePath) (keep : FilePath → DirEntry → Option Bool) (m u : Map FilePath DirEntry)
    → IsUnique m
    → filter_entries keep m ≡ some u
    → get p u ≡ pass keep p (get p m)
unfolding get filter_entries
get-filter_entries p keep [] u h f = ground arith
get-filter_entries p keep ((q, entry) ∷ m) u h f = elim (Option-cases (filter_entries keep m)) [
  | inl stops ↦ ground arith
  | inr (v, goes) ↦ elim (q ≟ p) [
    | yes same ↦ ground (arith, get-filter_entries p keep m v h.1 goes)
    | no apart ↦ ground (arith, get-filter_entries p keep m v h.1 goes)
  ]
]

filter_entries-head_none :
    (p : FilePath) (keep : FilePath → DirEntry → Option Bool) (m u : Map FilePath DirEntry)
    → IsUnique m
    → filter_entries keep m ≡ some u
    → get p m ≡ none
    → get p u ≡ none
filter_entries-head_none p keep m u h f absent = ground (arith, get-filter_entries p keep m u h f)

pub filter_entries-IsUnique :
    (keep : FilePath → DirEntry → Option Bool) (m u : Map FilePath DirEntry)
    → IsUnique m
    → filter_entries keep m ≡ some u
    → IsUnique u
unfolding filter_entries
filter_entries-IsUnique keep [] u h f = subst IsUnique (some-injective [] u f) tt
filter_entries-IsUnique keep ((q, entry) ∷ m) u h f = elim (Option-cases (filter_entries keep m)) [
  | inl stops ↦ ground arith
  | inr (v, goes) ↦
      let rest = filter_entries-IsUnique keep m v h.1 goes in
      let apart = filter_entries-head_none q keep m v h.1 goes h.0 in
      elim (Option-cases (keep q entry)) [
        | inl stops ↦ ground arith
        | inr (true, takes) ↦
            subst IsUnique (some-injective ((q, entry) ∷ v) u (ground arith)) (apart, rest)
        | inr (false, leaves) ↦ subst IsUnique (some-injective v u (ground arith)) rest
      ]
]

-- A run that does not stop has an answer for each entry.
pub filter_entries-tested :
    (p : FilePath) (keep : FilePath → DirEntry → Option Bool) (m u : Map FilePath DirEntry)
    (entry : DirEntry)
    → filter_entries keep m ≡ some u
    → get p m ≡ some entry
    → keep p entry ≢ none
unfolding get filter_entries
filter_entries-tested p keep [] u entry f g = ground arith
filter_entries-tested p keep ((q, w) ∷ m) u entry f g =
    elim (Option-cases (filter_entries keep m)) [
      | inl stops ↦ ground arith
      | inr (v, goes) ↦ elim (q ≟ p) [
        | yes same ↦ ground arith
        | no apart ↦ ground (arith, filter_entries-tested p keep m v entry goes)
      ]
    ]

-- A run with an answer for each entry does not stop.
pub filter_entries-total :
    (keep : FilePath → DirEntry → Option Bool) (m : Map FilePath DirEntry)
    → IsUnique m
    → ((p : FilePath) (entry : DirEntry) → get p m ≡ some entry → keep p entry ≢ none)
    → filter_entries keep m ≢ none
unfolding get filter_entries
filter_entries-total keep [] u h f = ground arith
filter_entries-total keep ((q, w) ∷ m) u h f = ground (
  arith,
  h q w (ground arith),
  filter_entries-total keep m u.1 (λ p entry g. h p entry (ground (arith))),
)

pub select-IsUnique :
    (keep : FilePath → Bool) (m : Map FilePath DirEntry) → IsUnique m → IsUnique (select keep m)
unfolding select
select-IsUnique keep [] u = tt
select-IsUnique keep ((q, entry) ∷ m) u =
    ground (arith, select-IsUnique keep m u.1, get-select q keep m)

module _ {ResourceId : Type 0} ⦃e : Eq ResourceId⦄ where
  -- The entry, if its id is not known.
  abbrev pub unknown :
      Map ResourceId FilePath → Option (IndexEntry ResourceId) → Option (IndexEntry ResourceId)
  unknown known none = none
  unknown known (some entry) = elim (get entry.id known) [ none ↦ some entry | some _ ↦ none ]

  pub get-unknown_ids :
      (p : FilePath) (known : Map ResourceId FilePath) (l : Map FilePath (IndexEntry ResourceId))
      → IsUnique l
      → get p (unknown_ids known l) ≡ unknown known (get p l)
  unfolding get unknown_ids
  get-unknown_ids p known [] u = refl
  get-unknown_ids p known ((q, entry) ∷ l) u = elim (q ≟ p) [
    | yes same ↦ ground (arith, get-unknown_ids p known l u.1)
    | no apart ↦ ground (arith, get-unknown_ids p known l u.1)
  ]

  pub unknown_ids-IsUnique :
      (known : Map ResourceId FilePath) (l : Map FilePath (IndexEntry ResourceId))
      → IsUnique l
      → IsUnique (unknown_ids known l)
  unfolding unknown_ids
  unknown_ids-IsUnique known [] u = tt
  unknown_ids-IsUnique known ((q, entry) ∷ l) u =
      ground (arith, unknown_ids-IsUnique known l u.1, get-unknown_ids q known l u.1)

  pub path2id-drop_path :
      (p q : FilePath) (deleted : List ResourceId) (x : ResourceIndex ResourceId)
      → get p (drop_path q (deleted, x)).1.path2id ≡ ite (q ≟ p) none (get p x.path2id)
  unfolding drop_path
  path2id-drop_path p q deleted x = ground (arith, get-remove q p x.path2id)

  pub path2id-drop_paths :
      (p : FilePath) (ps : List FilePath) (s : List ResourceId × ResourceIndex ResourceId)
      → get p (drop_paths ps s).1.path2id ≡ (if contains p ps then none else get p s.1.path2id)
  unfolding drop_paths contains
  path2id-drop_paths p [] s = refl
  path2id-drop_paths p (q ∷ ps) s =
      path2id-drop_paths p ps (drop_path q s) ∙ ground (arith, path2id-drop_path p q s.0 s.1)
