-- ===== src/Pdf.antt =====
-- data-pdf/src/lib.rs: the preview of the first page of a document.
use ark_rust.Base.{ℕ, Option, none, some}
use ark_rust.Error.{Outcome, ok, returned, panic}
use ark_rust.Exec.{Exec}

pub data PdfQuality : Type 0 where
  high medium low : PdfQuality

-- What lies outside, the crate `pdfium_render`: its libraries, its settings, and a document with its
-- pages and their pictures.
pub record Pdfium (Library Config Data Document Page Image : Type 0) : Type 0 where
  pub bind_to_library : Option Library
  pub bind_to_system_library : Option Library
  pub new_config : Config
  pub set_target_width : Config → ℕ → Config
  pub thumbnail : Config → ℕ → Config
  pub rotate_if_landscape : Config → Config
  pub load_pdf_from_reader : Library → Data → Option Document
  pub first_page : Document → Option Page
  pub render_with_config : Page → Config → Option Image

module _ {Library Config Data Document Page Image : Type 0}
    (pdfium : Pdfium Library Config Data Document Page Image) where
  abbrev pub with_quality : PdfQuality → Config → Config
  with_quality high config = pdfium.set_target_width config 2000
  with_quality medium config = config
  with_quality low config = pdfium.thumbnail config 50

  -- The library beside the program, or that of the system; it panics where there is none.
  unfoldable pub initialize_pdfium : Option Library
  initialize_pdfium = elim pdfium.bind_to_library [
    | some bindings ↦ some bindings
    | none ↦ pdfium.bind_to_system_library
  ]

  -- Each step is unwrapped.
  abbrev pub preview : {E : Type 0} → Library → Data → Config → Outcome E Image
  preview library data_ config = elim (pdfium.load_pdf_from_reader library data_) [
    | none ↦ panic
    | some document ↦ elim (pdfium.first_page document) [
      | none ↦ panic
      | some page ↦ elim (pdfium.render_with_config page config) [
        | none ↦ panic
        | some image ↦ returned (ok image)
      ]
    ]
  ]

  -- The state is PDFIUM, which is set once.
  unfoldable pub render_preview_page :
      {E : Type 0} → Data → PdfQuality → Exec (Option Library) E Image
  unfolding initialize_pdfium
  render_preview_page data_ quality (some library) = (
    preview library data_ (pdfium.rotate_if_landscape (with_quality quality pdfium.new_config)),
    some library,
  )
  render_preview_page data_ quality none = elim initialize_pdfium [
    | none ↦ (panic, none)
    | some library ↦ (
      preview library data_ (pdfium.rotate_if_landscape (with_quality quality pdfium.new_config)),
      some library,
    )
  ]
