-- ===== src/Cli/Render.antt =====
-- ark-cli/src/commands/render.rs: the command `render`.
use Prim.Native.String.{◌++◌ as push_str}
use ark_rust.Base.{string_eq, ◌≟◌, String, Option, none, some, ite}
use ark_rust.Error.{IoError, Result, Outcome, ok, err, returned, panic}
use ark_rust.Exec.{Exec, ◌>>=◌, lift}
use ark_rust.Cli.Fault.{AppError}
use ark_rust.Pdf.{PdfQuality, high, medium, low, Pdfium, render_preview_page}

pub record Render : Type 0 where
  pub path : String
  pub quality : Option String

-- What lies outside: the files and their names, the saving of a picture and the texts of errors.
pub record Viewer (Data Image : Type 0) : Type 0 where
  pub open_file : String → Result IoError Data
  pub file_stem : String → Option (Option String)
  pub with_file_name : String → String → String
  pub save : Image → String → Result String Unit
  pub error_text : IoError → String

module _ {Library Config Data Document Page Image : Type 0}
    (pdfium : Pdfium Library Config Data Document Page Image) (viewer : Viewer Data Image) where
  abbrev Step : Type 0 → Type 0
  Step = Exec (Option Library) AppError

  -- The quality is unwrapped, also where none is given.
  unfoldable pub quality_of : Option String → Outcome AppError PdfQuality
  quality_of none = panic
  quality_of (some name) = ite (name ≟ "high") (returned (ok high)) (
      ite (name ≟ "medium") (returned (ok medium))
        (ite (name ≟ "low") (returned (ok low)) (returned (err AppError.invalid_render_option))))

  abbrev pub opened : Result IoError Data → Outcome AppError Data
  opened (ok buf) = returned (ok buf)
  opened (err cause) = returned (
      err (
        AppError.file_operation_error (push_str "Failed to open file: " (viewer.error_text cause))))

  abbrev pub png_of : String → Option (Option String) → Outcome AppError String
  png_of path none = panic
  png_of path (some none) = panic
  png_of path (some (some stem)) = returned (ok (viewer.with_file_name path (push_str stem ".png")))

  abbrev pub saved : Result String Unit → Outcome AppError Unit
  saved (ok _) = returned (ok tt)
  saved (err cause) =
      returned (err (AppError.file_operation_error (push_str "Failed to save image: " cause)))

  unfoldable pub render_run : Render → Step Unit
  unfolding quality_of render_preview_page
  render_run self = do
    quality ← lift (quality_of self.quality)
    buf ← lift (opened (viewer.open_file self.path))
    dest_path ← lift (png_of self.path (viewer.file_stem self.path))
    img ← render_preview_page pdfium buf quality
    lift (saved (viewer.save img dest_path))
