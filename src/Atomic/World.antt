-- ===== src/Atomic/World.antt =====
-- fs-atomic-versions/src: what the application id and the versioned files keep, in memory and on the
-- disk, and the calls of the operating system that they make.
use ark_rust.Base.{string_eq, String, Bool, Option, none, some, []}
use ark_rust.Error.{IoError, Outcome, ok, err, returned}
use ark_rust.Exec.{Exec}
use ark_rust.Map
use ark_rust.Map.{Map}
use ark_rust.Atomic.File.{Folder, Os}

-- The static APP_ID_PATH, the plain files by their paths, and the folders of versioned files.
pub record World : Type 0 where
  pub app_id_path : Option String
  pub files : Map String String
  pub folders : Map String Folder

-- What lies outside: the disk of each folder, which calls fail, the lock of APP_ID_PATH, the joining
-- and cutting of paths, and the `uuid` crate.
pub record Host : Type 0 where
  pub os : String → Os
  pub poisoned : Bool
  pub join : String → String → String
  -- `path.file_name()`, and its `to_str()`
  pub file_name : String → Option (Option String)
  pub new_v4 : String
  pub read_to_string : String → Option IoError
  pub write : String → Option IoError
  -- the plain files after a write that has failed
  pub left : String → Map String String → Map String String
  pub remove_file : String → Option IoError
  pub create_dir_all : String → Option IoError
  pub enoent : IoError

module _ (host : Host) where
  abbrev pub Run : Type 0 → Type 0
  Run = Exec World IoError

  -- `fs::read_to_string` of a plain file.
  abbrev pub read_file : String → Run String
  read_file path w = elim (host.read_to_string path) [
    | some cause ↦ (returned (err cause), w)
    | none ↦ elim (Map.get path w.files) [
      | none ↦ (returned (err host.enoent), w)
      | some content ↦ (returned (ok content), w)
    ]
  ]

  -- `fs::write`
  abbrev pub write_file : String → String → Run Unit
  write_file path content w = elim (host.write path) [
    | some cause ↦ (returned (err cause), record w { files = host.left path w.files })
    | none ↦ (returned (ok tt), record w { files = Map.insert path content w.files })
  ]

  -- `fs::remove_file`
  abbrev pub remove_plain : String → Run Unit
  remove_plain path w = elim (host.remove_file path) [
    | some cause ↦ (returned (err cause), w)
    | none ↦ elim (Map.get path w.files) [
      | none ↦ (returned (err host.enoent), w)
      | some _ ↦ (returned (ok tt), record w { files = Map.remove path w.files })
    ]
  ]

  abbrev pub made : String → Map String Folder → Map String Folder
  made path folders = elim (Map.get path folders) [
    | none ↦ Map.insert path [] folders
    | some _ ↦ folders
  ]

  -- `fs::create_dir_all`; the folders above hold no versions and are left out.
  abbrev pub create_dir_all : String → Run Unit
  create_dir_all path w = elim (host.create_dir_all path) [
    | some cause ↦ (returned (err cause), w)
    | none ↦ (returned (ok tt), record w { folders = made path w.folders })
  ]

module _ {E A : Type 0} where
  abbrev pub put_folder : String → World → Outcome E A × Folder → Outcome E A × World
  put_folder path w (result, folder) =
      (result, record w { folders = Map.insert path folder w.folders })

  -- Code that works on one folder; the error where the folder is not there.
  abbrev pub in_folder : E → String → (Folder → Outcome E A × Folder) → Exec World E A
  in_folder missing path f w = elim (Map.get path w.folders) [
    | none ↦ (returned (err missing), w)
    | some folder ↦ put_folder path w (f folder)
  ]
