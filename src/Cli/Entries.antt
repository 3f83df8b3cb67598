-- ===== src/Cli/Entries.antt =====
-- ark-cli/src/commands/list.rs: the entries that the list command collects.
use ark_rust.Base.{
  Eq, string_eq, ℕ, ◌^◌, String, Bool, true, false, ◌&&◌, ◌||◌, Option, none, some, List, [], ◌∷◌,
  ltb, if◌then◌else◌,
}
use ark_rust.Base.Text.{split, parse_u64}
use ark_rust.Error.{Outcome, ok, err, returned, panic, Result}
use ark_rust.Exec.{◌>>=◌, pure}
use ark_rust.Map.{Map}
use ark_rust.Index.State.{FilePath, SystemTime, IndexEntry}
use ark_rust.Atomic.World.{World, Host}
use ark_rust.Cli.Fault.{AppError}
use ark_rust.Cli.Pairs.{trim}
use ark_rust.Cli.Storage.{Terminal, Step}
use ark_rust.Cli.Order.{StorageEntry, Sort}
use ark_rust.Cli.Roots.{Shell, read_storage_value}

-- ark-cli/src/models/mod.rs
pub data EntryOutput : Type 0 where
  of_link of_id of_path of_both : EntryOutput

-- The arguments of the command.
pub record Options : Type 0 where
  pub root_dir : Option String
  pub entry_id : Bool
  pub entry_path : Bool
  pub entry_link : Bool
  pub modified : Bool
  pub tags : Bool
  pub scores : Bool
  pub sort : Option Sort
  pub filter : Option String

unfoldable pub entry : Options → Result AppError EntryOutput
entry o =
    if o.entry_link
    then (if o.entry_id || o.entry_path then err AppError.invalid_entry_option else ok of_link)
    else if o.entry_id && o.entry_path
    then ok of_both
    else if o.entry_path
    then ok of_path
    else ok of_id

unfoldable pub trimmed_each : List String → List String
trimmed_each [] = []
trimmed_each (s ∷ l) = trim s ∷ trimmed_each l

-- `parse::<u32>().unwrap_or(0)`
unfoldable pub parse_score : String → ℕ
parse_score s = elim (parse_u64 s) [ none ↦ 0 | some n ↦ if ltb n (2 ^ 32) then n else 0 ]

-- What lies outside: the print of a time, and the url in a file, if the file has one.
pub record Printing : Type 0 where
  pub format : SystemTime → String
  pub url_in : FilePath → Option String

module _ {ResourceId : Type 0} ⦃e : Eq ResourceId⦄ (shell : Shell) (host : Host)
    (terminal : Terminal ResourceId) (printing : Printing) where
  -- The result of `read_storage_value`, where an error is replaced.
  abbrev pub or_default :
      {A : Type 0}
      → A
      → (String → A)
      → Outcome AppError String × World
      → Outcome AppError (Option A) × World
  or_default other f (returned (ok s), w) = (returned (ok (some (f s))), w)
  or_default other f (returned (err _), w) = (returned (ok (some other)), w)
  or_default other f (panic, w) = (panic, w)

  abbrev pub tags_of : Bool → String → ResourceId → Step (Option (List String))
  tags_of false root id = pure none
  tags_of true root id = λ w.
      or_default [] (λ s. trimmed_each (split 44 s))
        (read_storage_value shell host terminal root "tags" (terminal.to_string id) none w)

  abbrev pub scores_of : Bool → String → ResourceId → Step (Option ℕ)
  scores_of false root id = pure none
  scores_of true root id = λ w.
      or_default 0 parse_score
        (read_storage_value shell host terminal root "scores" (terminal.to_string id) none w)

  abbrev pub datetime_of : Bool → SystemTime → Option String
  datetime_of false modified = none
  datetime_of true modified = some (printing.format modified)

  abbrev pub link_entry :
      Option String
      → Option (List String)
      → Option ℕ
      → Option String
      → Option (StorageEntry ResourceId)
  link_entry none tags scores datetime = none
  link_entry (some url) tags scores datetime = some (record {
    path = none;
    resource = none;
    content = some url;
    tags = tags;
    scores = scores;
    datetime = datetime;
  })

  -- The entry of a path; a path without a url has none where links are listed.
  abbrev pub entry_of :
      EntryOutput
      → FilePath
      → ResourceId
      → Option (List String)
      → Option ℕ
      → Option String
      → Option (StorageEntry ResourceId)
  entry_of of_both path id tags scores datetime = some (record {
    path = some path;
    resource = some id;
    content = none;
    tags = tags;
    scores = scores;
    datetime = datetime;
  })
  entry_of of_path path id tags scores datetime = some (record {
    path = some path;
    resource = none;
    content = none;
    tags = tags;
    scores = scores;
    datetime = datetime;
  })
  entry_of of_id path id tags scores datetime = some (record {
    path = none;
    resource = some id;
    content = none;
    tags = tags;
    scores = scores;
    datetime = datetime;
  })
  entry_of of_link path id tags scores datetime =
      link_entry (printing.url_in path) tags scores datetime

  abbrev pub and_entry :
      Option (StorageEntry ResourceId)
      → List (StorageEntry ResourceId)
      → List (StorageEntry ResourceId)
  and_entry none l = l
  and_entry (some a) l = a ∷ l

  -- The `filter_map` over the entries of the index.
  unfoldable pub collect :
      Options
      → EntryOutput
      → String
      → Map FilePath (IndexEntry ResourceId)
      → Step (List (StorageEntry ResourceId))
  collect o output root [] = pure []
  collect o output root ((path, resource) ∷ m) = do
    tags ← tags_of o.tags root resource.id
    scores ← scores_of o.scores root resource.id
    rest ← collect o output root m
    pure (
        and_entry
          (entry_of output path resource.id tags scores (datetime_of o.modified resource.modified))
          rest)
