-- ===== src/Storage/Merge.antt =====
-- `merge_from` of fs-storage/src/file_storage.rs as a union of maps.
use ark_rust.Base.{Eq, ◌≟◌, ◌≡◌, refl, sym, ap, ◌∙◌, ite, Option, none, some, [], ◌∷◌, arith}
use ark_rust.Map.{Map, get, get-insert}
use ark_rust.Map.Keys.{IsUnique}
use ark_rust.Storage.State.{Session, Host}
use ark_rust.Storage.Memory.{set, resolved, merge_each, merge_from}

module _ {K V : Type 0} ⦃e : Eq K⦄ (host : Host K V) where
  -- What a key maps into after a merge: both values combined, or the one that is there.
  abbrev pub union : Option V → Option V → Option V
  union ours none = ours
  union ours (some theirs) = some (resolved host ours theirs)

  get-set :
      (key k : K) (value : V) (s : Session K V)
      → get k (set host key value s).storage.contents.entries
        ≡ ite (key ≟ k) (some value) (get k s.storage.contents.entries)
  unfolding set
  get-set key k value s = get-insert key k value s.storage.contents.entries

  get-merge_each :
      (k : K) (other : Map K V) (s : Session K V)
      → IsUnique other
      → get k (merge_each host other s).storage.contents.entries
        ≡ union (get k s.storage.contents.entries) (get k other)
  unfolding merge_each get
  get-merge_each k [] s u = refl
  get-merge_each k ((key, value) ∷ rest) s u =
      get-merge_each k rest
        (set host key (resolved host (get key s.storage.contents.entries) value) s) u.1
      ∙ ground (arith, get-set key k (resolved host (get key s.storage.contents.entries) value) s)

  -- After merge_from with a mapping of unique keys each key has the combination of the two
  -- values, or the only one there is.
  pub get-merge_from :
      (k : K) (other : Map K V) (s : Session K V)
      → IsUnique other
      → get k (merge_from host other s).storage.contents.entries
        ≡ union (get k s.storage.contents.entries) (get k other)
  unfolding merge_from
  get-merge_from k other s u = get-merge_each k other s u

  -- Where combining is idempotent and absorbs a value it has been given, a second merge_from of
  -- the same mapping, whose keys are unique, changes no entry.
  pub merge_from_twice :
      (k : K) (other : Map K V) (s : Session K V)
      → IsUnique other
      → ((a b : V) → host.monoid.combine (host.monoid.combine a b) b ≡ host.monoid.combine a b)
      → ((a : V) → host.monoid.combine a a ≡ a)
      → get k (merge_from host other (merge_from host other s)).storage.contents.entries
        ≡ get k (merge_from host other s).storage.contents.entries
  merge_from_twice k other s u absorbs repeats =
      get-merge_from k other (merge_from host other s) u
      ∙ ap (λ o. union o (get k other)) (get-merge_from k other s u)
      ∙ again (get k s.storage.contents.entries) (get k other)
      ∙ sym (get-merge_from k other s u)
    where
      again : (ours theirs : Option V) → union (union ours theirs) theirs ≡ union ours theirs
      again ours none = refl
      again none (some b) = ap some (repeats b)
      again (some a) (some b) = ap some (absorbs a b)
