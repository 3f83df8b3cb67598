-- ===== src/Atomic/Texts.antt =====
-- `modify_json` of fs-atomic-versions/src/atomic/mod.rs is `modify` on the texts.
use ark_rust.Base.{
  ℕ, zero, suc, String, Option, none, some, [], ◌∷◌, ◌≡◌, refl, ap, sym, ◌∙◌, All, arith, inl, inr,
  Option-cases, Bool-cases, ltb, ◌+◌, ◌≟◌, string_eq,
}
use ark_rust.Error.{IoError, Result-cases, ok, err, returned, to_option}
use ark_rust.Atomic.File.{
  Entry, Folder, ReadOnlyFile, AtomicFile, Os, load, compare_and_swap, latest_version, link, name,
  path,
}
use ark_rust.Atomic.Swap.{prune-All, linked}
use ark_rust.Atomic.Modify.{open_version, content_at, buffer, modify}
use ark_rust.Atomic.ModifyJson.{shaped, Serde, new_text, modify_json}

linked_only :
    (os : Os) (file : AtomicFile) (version : ℕ) (content : String) (folder l : Folder)
    → link os file version content folder ≡ ok l
    → l
      ≡ (record {
        file_name = some (name file version);
        path = path file version;
        content = content;
      })
        ∷ folder
linked_only os file version content folder l h = ground arith

-- What a swap puts into the folder and what it leaves there.
pub compare_and_swap-All :
    (P : Entry → Type 0) (os : Os) (file : AtomicFile) (current : ReadOnlyFile) (content : String)
    (folder : Folder)
    → P (linked os file current content)
    → All P folder
    → All P (compare_and_swap os file current content folder).1
unfolding compare_and_swap
compare_and_swap-All P os file current content folder new h = elim (Option-cases os.sync_data) [
  | inr (cause, fails) ↦ rw (fails, compare_and_swap) h
  | inl syncs ↦ elim (Result-cases (latest_version os folder)) [
    | inl (cause, fails) ↦ rw (syncs, compare_and_swap) (rw fails h)
    | inr ((version, files), found) ↦
        rw (syncs, compare_and_swap)
          (rw found (elim (Bool-cases (ltb current.version version)) [
            | inl late ↦ rw late h
            | inr free ↦
                rw free (elim (Result-cases (link os file (current.version + 1) content folder)) [
                  | inl (cause, fails) ↦ rw fails h
                  | inr (l, links) ↦ rw links (
                      prune-All P os version l (
                        rw (linked_only os file (current.version + 1) content folder l links)
                          (new, h)))
                ])
          ]))
  ]
]

module _ {T : Type 0} (serde : Serde T) where
  abbrev pub IsJson : Entry → Type 0
  IsJson entry = (val : T) × (serde.from_reader entry.content ≡ ok val)

  content_at-IsJson :
      (os : Os) (p content : String) (folder : Folder)
      → All IsJson folder
      → content_at os p folder ≡ ok content
      → (val : T) × (serde.from_reader content ≡ ok val)
  unfolding content_at
  content_at-IsJson os p content [] all h = absurd (ground arith)
  content_at-IsJson os p content (entry ∷ rest) all h = elim (entry.path ≟ p) [
    | yes there ↦ (all.0.0, ground (arith, all.0.1))
    | no other ↦ content_at-IsJson os p content rest all.1 (ground arith)
  ]

  open_version-IsJson :
      (os : Os) (file : ReadOnlyFile) (content : String) (folder : Folder)
      → All IsJson folder
      → open_version os file folder ≡ ok (some content)
      → (val : T) × (serde.from_reader content ≡ ok val)
  unfolding open_version
  open_version-IsJson os file content folder all h =
      content_at-IsJson os file.path content folder all (ground arith)

  -- The operator on the texts.
  abbrev pub as_text : (Option T → Option T) → (Option T → String) → String → String
  as_text f text content = text (f (to_option (serde.from_reader content)))

  new_text-ok :
      (os : Os) (file : ReadOnlyFile) (folder : Folder) (content : Option String)
      (f : Option T → Option T) (text : Option T → String) (cause : IoError)
      → ((val : Option T) → serde.to_writer (f val) ≡ ok (text (f val)))
      → serde.from_reader "" ≡ err cause
      → All IsJson folder
      → open_version os file folder ≡ ok content
      → new_text serde (λ val. some (f val)) content
        ≡ returned (ok (as_text f text (buffer content)))
  new_text-ok os file folder none f text cause writes empty all h =
      ap returned (writes none) ∙ ap (λ r. returned (ok (text (f (to_option r))))) (sym empty)
  new_text-ok os file folder (some content) f text cause writes empty all h =
      let (val, parses) = open_version-IsJson os file content folder all h in
      ground (arith, parses, writes (some val))

  -- modify_json is modify with the operator on the texts, for every interference of other
  -- processes, where the operator does not panic, its values can be written and the texts read
  -- again, the contents of the folder are and stay readable, and an empty text is not.
  pub modify_json-modify :
      (os : Os) (file : AtomicFile) (f : Option T → Option T) (text : Option T → String)
      (others : ℕ → Folder → Folder) (n : ℕ) (folder : Folder) (cause : IoError)
      → ((val : Option T) → serde.to_writer (f val) ≡ ok (text (f val)))
      → ((val : Option T) → (v : T) × (serde.from_reader (text (f val)) ≡ ok v))
      → serde.from_reader "" ≡ err cause
      → ((round : ℕ) (g : Folder) → All IsJson g → All IsJson (others round g))
      → All IsJson folder
      → modify_json serde os file (λ val. some (f val)) others n folder
        ≡ shaped (modify os file (as_text f text) others n folder)
  unfolding modify_json modify
  modify_json-modify os file f text others zero folder cause writes reads empty keeps all = refl
  modify_json-modify os file f text others (suc n) folder cause writes reads empty keeps all =
      elim (Result-cases (load os file folder)) [
        | inl (fault, fails) ↦ rw (fails, modify_json, modify) refl
        | inr (latest, loads) ↦ elim (Result-cases (open_version os latest folder)) [
          | inl (fault, fails) ↦ rw (loads, modify_json, modify) (rw fails refl)
          | inr (content, opens) ↦
              let new : String = as_text f text (buffer content) in
              let made = new_text-ok os latest folder content f text cause writes empty all opens in
              let after : Folder = (compare_and_swap os file latest new (others n folder)).1 in
              let again =
                modify_json-modify os file f text others n after cause writes reads empty keeps (
                  compare_and_swap-All IsJson os file latest new (others n folder) (reads _)
                    (keeps n folder all)) in
              rw (loads, modify_json, modify) (rw opens (rw made (ground (arith, again))))
        ]
      ]
