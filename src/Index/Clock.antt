-- ===== src/Index/Clock.antt =====
-- When `update_all` of fs-index/src/index.rs panics.
use ark_rust.Base.{
  Eq, string_eq, ◌≤◌, ◌≡◌, ◌≢◌, ◌↔◌, refl, none, some, arith, inl, inr, Option-cases,
}
use ark_rust.Error.{panic}
use ark_rust.Map.{get}
use ark_rust.Index.State.{FilePath, SystemTime, IndexEntry, ResourceIndex}
use ark_rust.Index.Scan.{Disk, DirEntry, discover_paths}
use ark_rust.Index.Build.{discover_paths-IsUnique}
use ark_rust.Index.Update.{
  update_all, is_updated, was_updated, curr_modified, duration_since, preserved_paths,
}
use ark_rust.Index.Select.{filter_entries-tested, filter_entries-total}
use ark_rust.Index.Refresh.{updated_paths, contains-preserved}

module _ {ResourceId : Type 0} ⦃e : Eq ResourceId⦄ (disk : Disk ResourceId)
    (x : ResourceIndex ResourceId) where
  -- No file that the index knows has a modification time before the recorded one.
  abbrev pub GoesForward : Type 0
  GoesForward =
      (p : FilePath) (found : DirEntry) (ours : IndexEntry ResourceId) (now : SystemTime)
      → get p (discover_paths disk x.root) ≡ some found
      → get p x.path2id ≡ some ours
      → curr_modified found ≡ some now
      → ours.modified ≤ now

  tested :
      (p : FilePath) (found : DirEntry)
      → GoesForward
      → get p (discover_paths disk x.root) ≡ some found
      → is_updated x (preserved_paths disk x) p found ≢ none
  unfolding is_updated was_updated duration_since
  tested p found h there = elim (Option-cases (get p x.path2id)) [
    | inl new ↦ ground (arith, contains-preserved disk x p)
    | inr (ours, known) ↦ elim (Option-cases (curr_modified found)) [
      | inl untimed ↦ ground (arith, contains-preserved disk x p)
      | inr (now, timed) ↦
          ground (arith, contains-preserved disk x p, h p found ours now there known timed)
    ]
  ]

  late :
      (p : FilePath) (found : DirEntry) (ours : IndexEntry ResourceId) (now : SystemTime)
      → get p (discover_paths disk x.root) ≡ some found
      → get p x.path2id ≡ some ours
      → curr_modified found ≡ some now
      → is_updated x (preserved_paths disk x) p found ≢ none
      → ours.modified ≤ now
  unfolding is_updated was_updated duration_since
  late p found ours now there known timed h = ground (arith, contains-preserved disk x p)

  pub stops_iff : (updated_paths disk x ≢ none) ↔ GoesForward
  stops_iff = (
    λ h p found ours now there known timed. elim (Option-cases (updated_paths disk x)) [
      | inl stops ↦ absurd (h stops)
      | inr (u, goes) ↦
          late p found ours now there known timed
            (filter_entries-tested p _ (discover_paths disk x.root) u found goes there)
    ],
    λ h.
        filter_entries-total _ (discover_paths disk x.root) (discover_paths-IsUnique disk x.root)
          (λ p found there. tested p found h there),
  )

  panics : ((update_all disk x).0 ≢ panic) ↔ (updated_paths disk x ≢ none)
  unfolding update_all
  panics = elim (Option-cases (updated_paths disk x)) [
    | inl stops ↦ rw (stops, update_all) (λ h. absurd (h refl), λ h. absurd (h refl))
    | inr (u, goes) ↦ rw (goes, update_all) (λ h p. cc, λ h p. cc)
  ]

  -- update_all does not panic exactly if no known file has a modification time before the
  -- recorded one.
  pub update_all-panic_iff : ((update_all disk x).0 ≢ panic) ↔ GoesForward
  update_all-panic_iff = (λ h. stops_iff.0 (panics.0 h), λ h. panics.1 (stops_iff.1 h))
