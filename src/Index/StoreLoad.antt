-- ===== src/Index/StoreLoad.antt =====
-- `load` of fs-index/src/index.rs after `store`: the lines of the file, one by one.
use Prim.Native.Char.{Char, code}
use Prim.Native.String.{◌++◌ as push_str}
use text.Mathlib.TextLemmas.{cons-append, nil-append}
use text.Mathlib.TextEquality.{Char-path}
use ark_rust.Base.{
  Eq, string_eq, ℕ, ◌+◌, ◌-◌, ◌*◌, ◌/◌, ◌^◌, ◌≤◌, ◌<◌, ◌==◌, String, none, some, List, [], ◌∷◌, ◌≡◌,
  refl, sym, ap, ◌∙◌, arith, inl, inr, Bool-cases,
}
use ark_rust.Base.Text.{split}
use ark_rust.Base.Pieces.{Lacks, split-append, split_some, Lacks-append}
use ark_rust.Base.Decimal.{display, display-Lacks, parse_u64-display}
use ark_rust.Error.{ok, returned}
use ark_rust.Index.State.{FilePath, SystemTime, IndexEntry}
use ark_rust.Index.Scan.{Disk}
use ark_rust.Index.Load.{IndexFile, load_parts, spaced}
use ark_rust.Index.Store.{Printer, store_line}

pub space_append : (s : String) → push_str " " s ≡ String.◌∷◌ " " s
space_append s = cons-append " " "" s ∙ ap (λ t. String.◌∷◌ " " t) (nil-append s)

module _ {ResourceId : Type 0} ⦃e : Eq ResourceId⦄ (disk : Disk ResourceId)
    (file : IndexFile ResourceId) where
  spaced-cons :
      (d : Char) (v : String) (ws : List String)
      → spaced disk file (String.◌∷◌ d v ∷ ws) ≡ String.◌∷◌ d (spaced disk file (v ∷ ws))
  unfolding spaced
  spaced-cons d v [] = refl
  spaced-cons d v (w ∷ ws) = cons-append d v _

  spaced-split : (s : String) → spaced disk file (split 32 s) ≡ s
  unfolding split spaced
  spaced-split String.[] = refl
  spaced-split (String.◌∷◌ d s) =
      let (v, ws, pieces) = split_some 32 s in
      let again : spaced disk file (v ∷ ws) ≡ s =
        ap (spaced disk file) (sym pieces) ∙ spaced-split s in
      elim (Bool-cases (code d == 32)) [
        | inl is ↦
            rw (is, split)
              (rw pieces (
                nil-append _
                ∙ space_append _
                ∙ ap (λ t. String.◌∷◌ " " t) again
                ∙ ap (λ c. String.◌∷◌ c s) (Char-path " " d (ground arith))))
        | inr other ↦
            rw (other, split) (rw pieces (spaced-cons d v ws ∙ ap (λ t. String.◌∷◌ d t) again))
      ]

  module _ (printer : Printer ResourceId) (root : FilePath) where
    -- An entry that `store` can print and `load` can read: the relative path and the id have no end of
    -- a line, the id has no space and is read back from its print, the path is there, and the time
    -- lies between `UNIX_EPOCH` and the last time.
    pub record IsReadable (path : FilePath) (entry : IndexEntry ResourceId) : Type 0 where
      pub relative : String
      pub is_below : printer.diff_paths path root ≡ some relative
      pub found : disk.canonicalize (file.join root relative) ≡ ok path
      pub one_line : Lacks 10 relative × Lacks 13 relative
      pub id_line : Lacks 10 (printer.to_string entry.id) × Lacks 13 (printer.to_string entry.id)
      pub id_word : Lacks 32 (printer.to_string entry.id)
      pub id_read : file.from_str (printer.to_string entry.id) ≡ some entry.id
      pub after_epoch : file.unix_epoch ≤ entry.modified
      pub before_last : entry.modified ≤ file.last_time
      pub small : (entry.modified - file.unix_epoch) / 1_000_000 < 2 ^ 64
      pub written : (line : String) → printer.writeln line ≡ none

    -- The time in whole milliseconds, as the file keeps it.
    abbrev pub whole_millis : SystemTime → SystemTime
    whole_millis t = file.unix_epoch + (t - file.unix_epoch) / 1_000_000 * 1_000_000

    abbrev pub rounded : IndexEntry ResourceId → IndexEntry ResourceId
    rounded entry = record { modified = whole_millis entry.modified; id = entry.id }

    split-line :
        (t : ℕ) (entry : IndexEntry ResourceId) (text : String)
        → Lacks 32 (printer.to_string entry.id)
        → split 32 (store_line printer t entry text)
          ≡ display t ∷ printer.to_string entry.id ∷ split 32 text
    split-line t entry text h =
        ap (λ s. split 32 (push_str (display t) s)) (space_append _)
        ∙ split-append 32 " " (display t) _ refl (display-Lacks 32 t (inl (omega arith)))
        ∙ ap (λ s. display t ∷ split 32 (push_str (printer.to_string entry.id) s))
            (space_append text)
        ∙ ap (λ s. display t ∷ s) (split-append 32 " " (printer.to_string entry.id) text refl h)

    pub load_parts-line :
        (path : FilePath) (entry : IndexEntry ResourceId) (r : IsReadable path entry)
        → load_parts disk file (
            split 32 (
              store_line printer ((entry.modified - file.unix_epoch) / 1_000_000) entry r.relative))
          ≡ returned (ok (rounded entry, r.relative))
    unfolding load_parts
    load_parts-line path entry r =
        ap (load_parts disk file) (split-line _ entry r.relative r.id_word)
        ∙ ground (
          arith,
          parse_u64-display ((entry.modified - file.unix_epoch) / 1_000_000) r.small,
          r.id_read,
          r.before_last,
          r.after_epoch,
          spaced-split r.relative,
        )

    pub line-Lacks :
        (c : ℕ) (t : ℕ) (entry : IndexEntry ResourceId) (text : String)
        → c < 32
        → Lacks c (printer.to_string entry.id)
        → Lacks c text
        → Lacks c (store_line printer t entry text)
    line-Lacks c t entry text small h k =
        Lacks-append c (display t) _ (display-Lacks c t (inl (omega arith))) (
          Lacks-append c " " _ (ground arith, tt)
            (Lacks-append c (printer.to_string entry.id) _ h
              (Lacks-append c " " _ (ground arith, tt) k)))
