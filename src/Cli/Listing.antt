-- ===== src/Cli/Listing.antt =====
-- ark-cli/src/models/storage.rs: `list` of `Storage`.
use Prim.Native.String.{◌++◌ as push_str}
use ark_rust.Base.{Eq, String, Bool, Option, none, some, List, [], ◌∷◌, if◌then◌else◌}
use ark_rust.Base.Text.{split, lines}
use ark_rust.Error.{IoError, ok, err, returned, panic, Result, to_option}
use ark_rust.Exec.{◌>>=◌, pure, continue}
use ark_rust.Atomic.File.{AtomicFile}
use ark_rust.Atomic.World.{Host}
use ark_rust.Atomic.Create.{new}
use ark_rust.Cli.Fault.{AppError}
use ark_rust.Cli.Utils.{pad, format_line, format_file}
use ark_rust.Cli.Storage.{StorageType, file, folder, Storage, DirItem, Terminal, Step, with_error}
use ark_rust.Cli.Values.{atomic_at, loaded_at, text_at}

module _ {ResourceId : Type 0} ⦃e : Eq ResourceId⦄ (host : Host)
    (terminal : Terminal ResourceId) where
  unfoldable pub list_ids : List ResourceId → String
  list_ids [] = ""
  list_ids (id ∷ files) = push_str (terminal.to_string id) (push_str "\n" (list_ids files))

  abbrev pub list_pieces : List String → String → String
  list_pieces (id ∷ text ∷ _) output =
      push_str (pad 16 id) (push_str " " (push_str text (push_str "\n" output)))
  list_pieces _ output = output

  -- A line for each line with two pieces or more.
  unfoldable pub list_lines : List String → String
  unfolding split
  list_lines [] = ""
  list_lines (line ∷ rest) = list_pieces (split 58 line) (list_lines rest)

  -- The folders of a listing; what cannot be read is left out.
  unfoldable pub folder_paths : List (Result IoError DirItem) → List String
  folder_paths [] = []
  folder_paths (err _ ∷ rest) = folder_paths rest
  folder_paths (ok item ∷ rest) =
      let paths = folder_paths rest in
      elim (to_option item.is_dir) [
        | none ↦ paths
        | some is_dir ↦ if is_dir then item.path ∷ paths else paths
      ]

  abbrev pub list_file : Option String → String → String
  list_file none output = output
  list_file (some line) output = push_str line (push_str "\n" output)

  abbrev pub formatted : AtomicFile → Step (Option String)
  formatted entry w = (format_file host entry w, w)

  -- The files of the folders, one after the other; a folder whose file cannot be made is left out.
  unfoldable pub list_files : List String → Step String
  unfolding format_file
  list_files [] w = (returned (ok ""), w)
  list_files (path ∷ rest) w =
      let (made, w') = new host path w in
      elim made [
        | panic ↦ (panic, w')
        | returned (err _) ↦ list_files rest w'
        | returned (ok entry) ↦
            continue (formatted entry w')
              (λ line. list_files rest >>= λ output. pure (list_file line output))
      ]

  abbrev pub list_folders : Storage ResourceId → Step String
  list_folders s w = elim (terminal.read_dir w s.path) [
    | err cause ↦ (
      returned (
          err (
            AppError.file_operation_error (
              with_error "Failed to read folder at " (terminal.debug_path s.path)
                (terminal.debug_io cause)))),
      w,
    )
    | ok folder_entries ↦ continue (list_files (folder_paths folder_entries) w) (λ output.
        pure (push_str (format_line "version" "name" "machine" "path") (push_str "\n" output)))
  ]

  abbrev pub list_versions : StorageType → Storage ResourceId → Step String
  list_versions file s = do
    atomic_file ← atomic_at host terminal s s.path
    atomic_file_data ← loaded_at host terminal s atomic_file
    text ← text_at host terminal atomic_file atomic_file_data
    pure (push_str (pad 16 "id") (push_str " value\n" (list_lines (lines text))))
  list_versions folder s = list_folders s

  unfoldable pub list : Storage ResourceId → Bool → Step String
  unfolding list_ids list_lines list_files folder_paths
  list s versions w =
      if versions then list_versions s.storage_type s w else (returned (ok (list_ids s.files)), w)
