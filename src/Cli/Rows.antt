-- ===== src/Cli/Rows.antt =====
-- ark-cli/src/models/storage.rs: a file of lines as an association list, which `read` looks up.
use Prim.Native.String.{◌++◌ as push_str}
use text.Mathlib.TextLemmas.{cons-append, nil-append, append-nil, append_assoc}
use ark_rust.Base.{
  Eq, ◌≟◌, ℕ, String, Option, none, some, List, [], ◌∷◌, ◌++◌, ◌≡◌, refl, sym, ap, ◌∙◌, All, arith,
  ite,
}
use ark_rust.Base.Text.{split, lines}
use ark_rust.Base.Pieces.{Lacks, split-append, split-Lacks, Lacks-append, lines-append}
use ark_rust.Error.{Outcome, ok, err, returned}
use ark_rust.Map.{Map, get}
use ark_rust.Atomic.World.{Host}
use ark_rust.Cli.Fault.{AppError}
use ark_rust.Cli.Storage.{Terminal}
use ark_rust.Cli.Values.{id_line, not_there, read_lines}

module _ {ResourceId : Type 0} ⦃e : Eq ResourceId⦄ (host : Host)
    (terminal : Terminal ResourceId) where
  -- An id that is read back from its print and a value; neither has a colon or an end of a line.
  pub record IsRow (id : ResourceId) (value : String) : Type 0 where
    pub reads : terminal.parse (terminal.to_string id) ≡ some id
    pub id_word : Lacks 58 (terminal.to_string id)
    pub id_line_10 : Lacks 10 (terminal.to_string id)
    pub id_line_13 : Lacks 13 (terminal.to_string id)
    pub value_word : Lacks 58 value
    pub value_line_10 : Lacks 10 value
    pub value_line_13 : Lacks 13 value

  abbrev pub AreRows : Map ResourceId String → Type 0
  AreRows rows = All (λ r. IsRow r.0 r.1) rows

  -- The text of a file with these rows.
  abbrev pub text_of : Map ResourceId String → String
  text_of [] = ""
  text_of ((id, value) ∷ rows) = push_str (id_line host terminal id value) (text_of rows)

  text_of-append :
      (rows more : Map ResourceId String)
      → text_of (rows ++ more) ≡ push_str (text_of rows) (text_of more)
  text_of-append [] more = sym (nil-append (text_of more))
  text_of-append ((id, value) ∷ rows) more =
      ap (push_str (id_line host terminal id value)) (text_of-append rows more)
      ∙ sym (append_assoc (id_line host terminal id value) (text_of rows) (text_of more))

  pub text_of_last :
      (rows : Map ResourceId String) (id : ResourceId) (value : String)
      → text_of (rows ++ (id, value) ∷ [])
        ≡ push_str (text_of rows) (id_line host terminal id value)
  text_of_last rows id value =
      text_of-append rows ((id, value) ∷ [])
      ∙ ap (push_str (text_of rows)) (append-nil (id_line host terminal id value))

  abbrev row : ResourceId → String → String
  row id value = push_str (terminal.to_string id) (push_str ":" value)

  colon_append : (s : String) → push_str ":" s ≡ String.◌∷◌ ":" s
  colon_append s = cons-append ":" "" s ∙ ap (λ t. String.◌∷◌ ":" t) (nil-append s)

  newline_append : (s : String) → push_str "\n" s ≡ String.◌∷◌ "\n" s
  newline_append s = cons-append "\n" "" s ∙ ap (λ t. String.◌∷◌ "\n" t) (nil-append s)

  id_line-append :
      (id : ResourceId) (value t : String)
      → push_str (id_line host terminal id value) t ≡ push_str (row id value) (String.◌∷◌ "\n" t)
  id_line-append id value t =
      append_assoc (terminal.to_string id) (push_str ":" (push_str value "\n")) t
      ∙ ap (push_str (terminal.to_string id)) (
          append_assoc ":" (push_str value "\n") t
          ∙ ap (push_str ":") (append_assoc value "\n" t ∙ ap (push_str value) (newline_append t))
          ∙ sym (append_assoc ":" value (String.◌∷◌ "\n" t)))
      ∙ sym (append_assoc (terminal.to_string id) (push_str ":" value) (String.◌∷◌ "\n" t))

  row-Lacks :
      (c : ℕ) (id : ResourceId) (value : String)
      → Lacks c ":"
      → Lacks c (terminal.to_string id)
      → Lacks c value
      → Lacks c (row id value)
  row-Lacks c id value h k l =
      Lacks-append c (terminal.to_string id) _ k (Lacks-append c ":" value h l)

  split-row :
      (id : ResourceId) (value : String)
      → IsRow id value
      → split 58 (row id value) ≡ terminal.to_string id ∷ value ∷ []
  split-row id value r =
      ap (λ s. split 58 (push_str (terminal.to_string id) s)) (colon_append value)
      ∙ split-append 58 ":" (terminal.to_string id) value refl r.id_word
      ∙ ap (λ l. terminal.to_string id ∷ l) (split-Lacks 58 value r.value_word)

  lines-text_of :
      (id : ResourceId) (value : String) (rows : Map ResourceId String)
      → IsRow id value
      → lines (text_of ((id, value) ∷ rows)) ≡ row id value ∷ lines (text_of rows)
  lines-text_of id value rows r =
      ap lines (id_line-append id value (text_of rows))
      ∙ lines-append (row id value) (text_of rows)
          (row-Lacks 10 id value (refl, tt) r.id_line_10 r.value_line_10)
          (row-Lacks 13 id value (refl, tt) r.id_line_13 r.value_line_13)

  -- What a lookup of the id is to the command.
  abbrev pub answer : ResourceId → Option String → Outcome AppError String
  answer id none = returned (err (not_there host terminal id))
  answer id (some value) = returned (ok value)

  read_row :
      (id i : ResourceId) (value : String) (rest : List String)
      → IsRow i value
      → read_lines host terminal id (row i value ∷ rest)
        ≡ ite (id ≟ i) (returned (ok value)) (read_lines host terminal id rest)
  unfolding read_lines
  read_row id i value rest r = rw (split-row i value r, read_lines) (rw r.reads refl)

  -- On a text of lines made of ids, colons and values, reading an id gives the value that a
  -- lookup of the id in the list of these pairs gives, or the error that there is none, where
  -- each id is read back from its print and ids and values have no colon and no end of a line.
  pub read_lines-text_of :
      (id : ResourceId) (rows : Map ResourceId String)
      → AreRows rows
      → read_lines host terminal id (lines (text_of rows)) ≡ answer id (get id rows)
  unfolding get read_lines lines split
  read_lines-text_of id [] h = refl
  read_lines-text_of id ((i, value) ∷ rows) h =
      ap (read_lines host terminal id) (lines-text_of i value rows h.0)
      ∙ read_row id i value (lines (text_of rows)) h.0
      ∙ ground (arith, read_lines-text_of id rows h.1)
