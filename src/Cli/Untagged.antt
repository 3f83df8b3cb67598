-- ===== src/Cli/Untagged.antt =====
-- ark-cli/src/commands/list.rs: a filter by tag, where the tags are not asked for.
use ark_rust.Base.{
  Eq, ℕ, String, Bool, true, false, Option, none, some, List, [], ◌∷◌, ◌≡◌, refl, ap, ◌∙◌, sym, All,
  arith, inl, inr, Bool-cases,
}
use ark_rust.Error.{ok, returned}
use ark_rust.Exec.{continue-eq-ok, ◌>>=◌, pure, lift}
use ark_rust.Map.{Map}
use ark_rust.Index.State.{FilePath, IndexEntry}
use ark_rust.Atomic.World.{World, Host}
use ark_rust.Cli.Storage.{Terminal, Step}
use ark_rust.Cli.Roots.{Shell, provide_root}
use ark_rust.Cli.Order.{
  StorageEntry, Sort, sorted, filtered, retain, sort_by, place_entry, in_order,
}
use ark_rust.Cli.Entries.{
  Options, EntryOutput, of_both, of_path, of_id, of_link, Printing, entry, collect, and_entry,
  entry_of, link_entry, datetime_of, scores_of, tags_of,
}
use ark_rust.Cli.Columns.{printed, run, output_lines, index_read}

module _ {ResourceId : Type 0} where
  abbrev pub IsUntagged : StorageEntry ResourceId → Type 0
  IsUntagged a = a.tags ≡ none

  retain-IsUntagged :
      (tag : String) (l : List (StorageEntry ResourceId)) → All IsUntagged l → retain tag l ≡ []
  unfolding retain
  retain-IsUntagged tag [] h = refl
  retain-IsUntagged tag (a ∷ l) h = rw (h.0, retain) (retain-IsUntagged tag l h.1)

  only_tagged :
      (tag : String) (l : List (StorageEntry ResourceId))
      → All IsUntagged l
      → filtered (some tag) l ≡ []
  unfolding filtered
  only_tagged tag l h = retain-IsUntagged tag l h

  place_entry-All :
      (P : StorageEntry ResourceId → Type 0)
      (le : StorageEntry ResourceId → StorageEntry ResourceId → Bool) (a : StorageEntry ResourceId)
      (l : List (StorageEntry ResourceId))
      → P a
      → All P l
      → All P (place_entry le a l)
  unfolding place_entry
  place_entry-All P le a [] p h = (p, tt)
  place_entry-All P le a (b ∷ l) p h = elim (Bool-cases (le a b)) [
    | inl first ↦ rw (first, place_entry) (p, h)
    | inr later ↦ rw (later, place_entry) (h.0, place_entry-All P le a l p h.1)
  ]

  sort_by-All :
      (P : StorageEntry ResourceId → Type 0)
      (le : StorageEntry ResourceId → StorageEntry ResourceId → Bool)
      (l : List (StorageEntry ResourceId))
      → All P l
      → All P (sort_by le l)
  unfolding sort_by
  sort_by-All P le [] h = tt
  sort_by-All P le (a ∷ l) h = place_entry-All P le a (sort_by le l) h.0 (sort_by-All P le l h.1)

  sorted-All :
      (P : StorageEntry ResourceId → Type 0) (sort : Option Sort)
      (l : List (StorageEntry ResourceId))
      → All P l
      → All P (sorted sort l)
  unfolding sorted
  sorted-All P none l h = h
  sorted-All P (some sort) l h = sort_by-All P (in_order sort) l h

module _ {ResourceId : Type 0} ⦃e : Eq ResourceId⦄ (shell : Shell) (host : Host)
    (terminal : Terminal ResourceId) (printing : Printing) where
  link_entry-IsUntagged :
      (url : Option String) (scores : Option ℕ) (datetime : Option String)
      (l : List (StorageEntry ResourceId))
      → All IsUntagged l
      → All IsUntagged (
          and_entry shell host terminal printing
            (link_entry shell host terminal printing url none scores datetime)
            l)
  link_entry-IsUntagged none scores datetime l h = h
  link_entry-IsUntagged (some url) scores datetime l h = (refl, h)

  and_entry-IsUntagged :
      (output : EntryOutput) (path : FilePath) (id : ResourceId) (scores : Option ℕ)
      (datetime : Option String) (l : List (StorageEntry ResourceId))
      → All IsUntagged l
      → All IsUntagged (
          and_entry shell host terminal printing
            (entry_of shell host terminal printing output path id none scores datetime)
            l)
  and_entry-IsUntagged of_both path id scores datetime l h = (refl, h)
  and_entry-IsUntagged of_path path id scores datetime l h = (refl, h)
  and_entry-IsUntagged of_id path id scores datetime l h = (refl, h)
  and_entry-IsUntagged of_link path id scores datetime l h =
      link_entry-IsUntagged (printing.url_in path) scores datetime l h

  -- The rest of a round of `collect`.
  abbrev after_scores :
      Options
      → EntryOutput
      → String
      → FilePath
      → IndexEntry ResourceId
      → Map FilePath (IndexEntry ResourceId)
      → Option (List String)
      → Option ℕ
      → Step (List (StorageEntry ResourceId))
  after_scores o output root path resource m tags scores = do
    rest ← collect shell host terminal printing o output root m
    pure (
        and_entry shell host terminal printing
          (entry_of shell host terminal printing output path resource.id tags scores
            (datetime_of shell host terminal printing o.modified resource.modified))
          rest)

  no_tags :
      (b : Bool) (root : String) (id : ResourceId) (tags : Option (List String)) (w w' : World)
      → b ≡ false
      → tags_of shell host terminal printing b root id w ≡ (returned (ok tags), w')
      → none ≡ tags
  no_tags true root id tags w w' off h = absurd (ground arith)
  no_tags false root id tags w w' off h = ground arith

  collect-IsUntagged :
      (o : Options) (output : EntryOutput) (root : String)
      (m : Map FilePath (IndexEntry ResourceId)) (l : List (StorageEntry ResourceId)) (w w' : World)
      → o.tags ≡ false
      → collect shell host terminal printing o output root m w ≡ (returned (ok l), w')
      → All IsUntagged l
  unfolding collect
  collect-IsUntagged o output root [] l w w' off h =
      let none_there : [] ≡ l = ground arith in rw (← none_there) tt
  collect-IsUntagged o output root ((path, resource) ∷ m) l w w' off h =
      let (tags, w₁, tagged, h₁) =
        continue-eq-ok (tags_of shell host terminal printing o.tags root resource.id w)
          (λ tags.
            scores_of shell host terminal printing o.scores root resource.id
            >>= after_scores o output root path resource m tags)
          h in
      let (scores, w₂, scored, h₂) =
        continue-eq-ok (scores_of shell host terminal printing o.scores root resource.id w₁)
          (after_scores o output root path resource m tags) h₁ in
      let (rest, w₃, rests, h₃) =
        continue-eq-ok (collect shell host terminal printing o output root m w₂)
          (λ rest. pure (
            and_entry shell host terminal printing
              (entry_of shell host terminal printing output path resource.id tags scores
                (datetime_of shell host terminal printing o.modified resource.modified))
              rest))
          h₂ in
      let untagged : none ≡ tags = no_tags o.tags root resource.id tags w w₁ off tagged in
      let same : and_entry shell host terminal printing
            (entry_of shell host terminal printing output path resource.id tags scores
              (datetime_of shell host terminal printing o.modified resource.modified))
            rest
          ≡ l =
        ground arith in
      let kept : All IsUntagged (
          and_entry shell host terminal printing
            (entry_of shell host terminal printing output path resource.id none scores
              (datetime_of shell host terminal printing o.modified resource.modified))
            rest) =
        and_entry-IsUntagged output path resource.id scores _ rest
          (collect-IsUntagged o output root m rest w₂ w₃ off rests) in
      rw (← same, ← untagged) kept

  -- A list command with a filter by tag that does not ask for the tags prints no entry, where it
  -- succeeds.
  pub run_untagged :
      (provide_index : String → Option (Map FilePath (IndexEntry ResourceId))) (o : Options)
      (tag : String) (lines : List String) (w w' : World)
      → o.tags ≡ false
      → o.filter ≡ some tag
      → run shell host terminal printing provide_index o w ≡ (returned (ok lines), w')
      → lines ≡ []
  unfolding run
  run_untagged provide_index o tag lines w w' off asked h =
      let (root, w₁, rooted, h₁) =
        continue-eq-ok (lift (returned (provide_root shell o.root_dir)) w)
          (λ root. lift (returned (entry o)) >>= λ output.
            index_read shell host terminal printing (provide_index root) >>= λ path2id.
            printed shell host terminal printing o root output path2id)
          h in
      let (output, w₂, put, h₂) =
        continue-eq-ok (lift (returned (entry o)) w₁)
          (λ output. index_read shell host terminal printing (provide_index root) >>= λ path2id.
            printed shell host terminal printing o root output path2id)
          h₁ in
      let (path2id, w₃, indexed, h₃) =
        continue-eq-ok (index_read shell host terminal printing (provide_index root) w₂)
          (λ path2id. printed shell host terminal printing o root output path2id) h₂ in
      let (l, w₄, collected, h₄) =
        continue-eq-ok (collect shell host terminal printing o output root path2id w₃)
          (λ l.
            pure (output_lines shell host terminal printing (filtered o.filter (sorted o.sort l))))
          h₃ in
      let made : output_lines shell host terminal printing (filtered o.filter (sorted o.sort l))
          ≡ lines =
        ground arith in
      sym made
      ∙ ap (λ f. output_lines shell host terminal printing (filtered f (sorted o.sort l))) asked
      ∙ ap (output_lines shell host terminal printing) (
          only_tagged tag (sorted o.sort l) (
            sorted-All IsUntagged o.sort l
              (collect-IsUntagged o output root path2id l w₃ w₄ off collected)))
