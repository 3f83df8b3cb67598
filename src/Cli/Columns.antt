-- ===== src/Cli/Columns.antt =====
-- ark-cli/src/commands/list.rs: the lines of the list command.
use Prim.Native.String.{◌++◌ as push_str}
use ark_rust.Base.{
  Eq, string_eq, ℕ, String, Option, none, some, List, [], ◌∷◌, map, ltb, ◌==◌, if◌then◌else◌,
}
use ark_rust.Base.Decimal.{display}
use ark_rust.Error.{returned}
use ark_rust.Exec.{◌>>=◌, pure, fail, lift}
use ark_rust.Map.{Map}
use ark_rust.Index.State.{FilePath, IndexEntry}
use ark_rust.Atomic.World.{Host}
use ark_rust.Cli.Fault.{AppError}
use ark_rust.Cli.Utils.{pad, len}
use ark_rust.Cli.Storage.{Terminal, Step}
use ark_rust.Cli.Roots.{Shell, provide_root}
use ark_rust.Cli.Order.{StorageEntry, sorted, filtered}
use ark_rust.Cli.Entries.{Options, EntryOutput, Printing, entry, collect}

-- `tags.join(", ")`
unfoldable pub joined : List String → String
joined [] = ""
joined (s ∷ []) = s
joined (s ∷ t ∷ l) = push_str s (push_str ", " (joined (t ∷ l)))

abbrev pub tags_out : List String → String
tags_out [] = "NO_TAGS"
tags_out (s ∷ l) = joined (s ∷ l)

abbrev pub scores_out : ℕ → String
scores_out n = if n == 0 then "NO_SCORE" else display n

-- The greatest length in bytes, from one on; a missing column has length 0.
abbrev pub len_of : Option String → ℕ
len_of none = 0
len_of (some s) = len s

-- A column: the text, up to the width in characters, and a space.
abbrev pub cell : ℕ → Option String → String
cell width none = ""
cell width (some s) = push_str (pad width s) " "

abbrev pub map_text : {A : Type 0} → (A → String) → Option A → Option String
map_text f none = none
map_text f (some a) = some (f a)

module _ {ResourceId : Type 0} ⦃e : Eq ResourceId⦄ (shell : Shell) (host : Host)
    (terminal : Terminal ResourceId) (printing : Printing) where
  unfoldable pub longest :
      (StorageEntry ResourceId → Option String) → ℕ → List (StorageEntry ResourceId) → ℕ
  longest column acc [] = acc
  longest column acc (a ∷ l) =
      longest column (if ltb acc (len_of (column a)) then len_of (column a) else acc) l

  abbrev pub resource_of : StorageEntry ResourceId → Option String
  resource_of a = map_text terminal.to_string a.resource

  abbrev pub tags_text : StorageEntry ResourceId → Option String
  tags_text a = map_text tags_out a.tags

  abbrev pub scores_text : StorageEntry ResourceId → Option String
  scores_text a = map_text scores_out a.scores

  -- The line of an entry among these entries.
  unfoldable pub output_of : List (StorageEntry ResourceId) → StorageEntry ResourceId → String
  unfolding longest joined
  output_of entries a = push_str (cell (longest (λ x. x.content) 0 entries) a.content) (
      push_str (cell (longest (λ x. x.path) 0 entries) a.path) (
        push_str (cell (longest resource_of 0 entries) (resource_of a)) (
          push_str (cell (longest tags_text 0 entries) (tags_text a)) (
            push_str (cell (longest scores_text 0 entries) (scores_text a))
              (cell (longest (λ x. x.datetime) 0 entries) a.datetime)))))

  abbrev pub output_lines : List (StorageEntry ResourceId) → List String
  output_lines entries = map (output_of entries) entries

  abbrev pub index_read :
      Option (Map FilePath (IndexEntry ResourceId)) → Step (Map FilePath (IndexEntry ResourceId))
  index_read none = fail (AppError.index_error "Could not provide index")
  index_read (some path2id) = pure path2id

  abbrev pub printed :
      Options → String → EntryOutput → Map FilePath (IndexEntry ResourceId) → Step (List String)
  printed o root entry_output path2id = do
    storage_entries ← collect shell host terminal printing o entry_output root path2id
    pure (output_lines (filtered o.filter (sorted o.sort storage_entries)))

  -- The lines that `run` prints; the paths of the index, where it could be provided, are a parameter.
  unfoldable pub run :
      (String → Option (Map FilePath (IndexEntry ResourceId))) → Options → Step (List String)
  unfolding provide_root entry collect sorted filtered output_of
  run provide_index o = do
    root ← lift (returned (provide_root shell o.root_dir))
    entry_output ← lift (returned (entry o))
    path2id ← index_read (provide_index root)
    printed o root entry_output path2id
