-- ===== src/Cli/BackupTrip.antt =====
-- ark-cli/src/commands/backup.rs: what a backup leaves.
use Prim.Native.String.{◌++◌ as push_str}
use mathlib.Core.Option.{some-injective}
use ark_rust.Base.{
  string_eq, ℕ, zero, suc, ◌+◌, ◌^◌, ◌<◌, ◌≤◌, String, Option, none, some, List, [], ◌∷◌, ◌≟◌, ◌≡◌,
  ◌≢◌, refl, sym, ap, ◌∙◌, All, arith, length, get_elem?, if_neg, map,
}
use ark_rust.Base.Text.{split, ended, lines, parse_u64}
use ark_rust.Base.Pieces.{Lacks, lines-append, newline_append}
use ark_rust.Base.Decimal.{display, parse_u64-display}
use ark_rust.Error.{IoError, Result, ok, returned}
use ark_rust.Map.{Map, get, insert, get_new, get-insert}
use ark_rust.Cli.Roots.{Shell, parse_roots, discover_roots}
use ark_rust.Cli.Backup.{
  Saved, Keeper, finished, timestamp, valid_roots, roots_text, copy_each, backup_run,
}

abbrev pub read_lines : List String → List (Result IoError String)
read_lines = map (λ line. ok line)

abbrev pub IsLine : String → Type 0
IsLine s = Lacks 10 s × Lacks 13 s

display-injective : (a b : ℕ) → a < 2 ^ 64 → b < 2 ^ 64 → display a ≡ display b → a ≡ b
display-injective a b small_a small_b same =
    let e : some a ≡ some b =
      sym (parse_u64-display a small_a) ∙ ap parse_u64 same ∙ parse_u64-display b small_b in
    ground arith

module _ (shell : Shell) (keeper : Keeper) where
  -- The file of the roots is read as these roots.
  parse_roots-roots_text :
      (roots : List String)
      → ((root : String) → keeper.writeln root ≡ none)
      → All IsLine roots
      → parse_roots (read_lines (lines (roots_text shell keeper roots))) ≡ roots
  unfolding parse_roots roots_text lines split ended
  parse_roots-roots_text [] writes h = refl
  parse_roots-roots_text (root ∷ roots) writes h =
      rw (writes root, roots_text)
        (ap (λ t. parse_roots (read_lines (lines (push_str root t))))
            (newline_append (roots_text shell keeper roots))
          ∙ ap (λ l. parse_roots (read_lines l))
              (lines-append root (roots_text shell keeper roots) h.0.0 h.0.1)
          ∙ ap (λ l. root ∷ l) (parse_roots-roots_text roots writes h.1))

  module _ (dir : String)
      (joined : (i k : ℕ)
        → shell.join dir (display i) ≡ shell.join dir (display k)
        → display i ≡ display k)
      (copies_all : (a b : String) (m : Map String String)
        → keeper.copy a b m ≡ some (insert b a m)) where
    copy_each-step :
        (k : ℕ) (root : String) (roots : List String) (m : Map String String)
        → copy_each shell keeper dir k (root ∷ roots) m
          ≡ copy_each shell keeper dir
              (suc k)
              roots
              (insert (shell.join dir (display k)) (shell.join root ".ark") m)
    unfolding copy_each
    copy_each-step k root roots m =
        rw (copies_all (shell.join root ".ark") (shell.join dir (display k)) m, copy_each) refl

    other_copy :
        (i k : ℕ) (from : String) (m : Map String String)
        → i < k
        → k < 2 ^ 64
        → get (shell.join dir (display i)) (insert (shell.join dir (display k)) from m)
          ≡ get (shell.join dir (display i)) m
    other_copy i k from m before small =
        let apart : shell.join dir (display i) ≢ shell.join dir (display k) = λ h.
          absurd
            (omega (arith, before, display-injective i k (omega arith) small (joined i k h))) in
        get-insert (shell.join dir (display k)) (shell.join dir (display i)) from m
        ∙ if_neg (shell.join dir (display k) ≟ shell.join dir (display i)) (λ h. apart (sym h))
            (some from) (get (shell.join dir (display i)) m)

    copy_each-before :
        (i k : ℕ) (roots : List String) (m : Map String String)
        → i < k
        → k + length roots ≤ 2 ^ 64
        → get (shell.join dir (display i)) (copy_each shell keeper dir k roots m)
          ≡ get (shell.join dir (display i)) m
    unfolding copy_each
    copy_each-before i k [] m before small = refl
    copy_each-before i k (root ∷ roots) m before small =
        ap (get (shell.join dir (display i))) (copy_each-step k root roots m)
        ∙ copy_each-before i (suc k) roots
            (insert (shell.join dir (display k)) (shell.join root ".ark") m) (omega arith)
            (omega arith)
        ∙ other_copy i k (shell.join root ".ark") m before (omega arith)

    -- The root with a number.
    copy_each-at :
        (j k : ℕ) (root : String) (roots : List String) (m : Map String String)
        → get_elem? roots j ≡ some root
        → k + length roots ≤ 2 ^ 64
        → get (shell.join dir (display (k + j))) (copy_each shell keeper dir k roots m)
          ≡ some (shell.join root ".ark")
    copy_each-at j k root [] m there small = absurd (ground arith)
    copy_each-at zero k root (first ∷ roots) m there small =
        ap (λ n. get (shell.join dir (display n)) (copy_each shell keeper dir k (first ∷ roots) m))
          (omega arith)
        ∙ ap (get (shell.join dir (display k))) (copy_each-step k first roots m)
        ∙ copy_each-before k (suc k) roots
            (insert (shell.join dir (display k)) (shell.join first ".ark") m) (omega arith)
            (omega arith)
        ∙ get_new (shell.join dir (display k)) (shell.join first ".ark") m
        ∙ ap (λ r. some (shell.join r ".ark")) (some-injective first root there)
    copy_each-at (suc j) k root (first ∷ roots) m there small =
        ap (λ n. get (shell.join dir (display n)) (copy_each shell keeper dir k (first ∷ roots) m))
          (omega arith)
        ∙ ap (get (shell.join dir (display (suc k + j)))) (copy_each-step k first roots m)
        ∙ copy_each-at j (suc k) root roots
            (insert (shell.join dir (display k)) (shell.join first ".ark") m) there (omega arith)

-- The folder of a backup.
abbrev pub backup_dir : Shell → String → ℕ → String
backup_dir shell home seconds = shell.join (shell.join home ".ark-backups") (display seconds)

discover_roots_is :
    (shell : Shell) (path : String) (rows : List (Result IoError String))
    → shell.open_lines path ≡ ok rows
    → discover_roots shell (some path) ≡ returned (ok (parse_roots rows))
unfolding discover_roots
discover_roots_is shell path rows opens = rw (opens, discover_roots) refl

backup_run_is :
    (shell : Shell) (keeper : Keeper) (roots_cfg : Option String) (s : Saved) (seconds : ℕ)
    (home first : String) (roots others : List String)
    → timestamp shell keeper ≡ returned (ok seconds)
    → keeper.home_dir ≡ some home
    → get (backup_dir shell home seconds) s.dirs ≡ none
    → discover_roots shell roots_cfg ≡ returned (ok roots)
    → valid_roots shell keeper roots ≡ first ∷ others
    → keeper.create_dir_all (backup_dir shell home seconds) ≡ none
    → keeper.create (shell.join (backup_dir shell home seconds) "roots") ≡ none
    → backup_run shell keeper roots_cfg s ≡ (
      returned (ok finished),
      record {
        dirs = insert (backup_dir shell home seconds) tt s.dirs;
        files =
            insert
              (shell.join (backup_dir shell home seconds) "roots")
              (roots_text shell keeper (first ∷ others))
              s.files;
        copies = copy_each shell keeper (backup_dir shell home seconds) 0 (first ∷ others) s.copies;
      },
    )
unfolding backup_run
backup_run_is shell keeper roots_cfg s seconds home first roots others now at_home new finds valid
      dirs creates =
    ground arith

-- Where the clock, the home directory, the reading of the given roots, the folders and the files
-- have no fault, each copy puts its source at its target, the folder of the backup is new and
-- joining different numbers to it gives different paths, and of the roots at least one and at
-- most 2^64 have storages and these are single lines, backup ends well: the file that it leaves
-- is read by discover_roots as exactly these roots, and the storages of the i-th of them are
-- copied to the folder with the name i.
pub discover_roots-backup_run :
    (shell : Shell) (keeper : Keeper) (roots_cfg : Option String) (s : Saved) (seconds : ℕ)
    (home first : String) (roots others : List String)
    → timestamp shell keeper ≡ returned (ok seconds)
    → keeper.home_dir ≡ some home
    → get (backup_dir shell home seconds) s.dirs ≡ none
    → discover_roots shell roots_cfg ≡ returned (ok roots)
    → valid_roots shell keeper roots ≡ first ∷ others
    → All IsLine (first ∷ others)
    → length (first ∷ others) ≤ 2 ^ 64
    → ((dir : String) → keeper.create_dir_all dir ≡ none)
    → ((path : String) → keeper.create path ≡ none)
    → ((root : String) → keeper.writeln root ≡ none)
    → ((a b : String) (m : Map String String) → keeper.copy a b m ≡ some (insert b a m))
    → ((i k : ℕ)
        → shell.join (backup_dir shell home seconds) (display i)
          ≡ shell.join (backup_dir shell home seconds) (display k)
        → display i ≡ display k)
    → (s' : Saved) × (text : String) × (backup_run shell keeper roots_cfg s
        ≡ (returned (ok finished), s'))
      × (get (shell.join (backup_dir shell home seconds) "roots") s'.files ≡ some text)
      × ((later : Shell) (path : String)
          → later.open_lines path ≡ ok (read_lines (lines text))
          → discover_roots later (some path) ≡ returned (ok (first ∷ others)))
      × ((i : ℕ) (root : String)
          → get_elem? (first ∷ others) i ≡ some root
          → get (shell.join (backup_dir shell home seconds) (display i)) s'.copies
            ≡ some (shell.join root ".ark"))
discover_roots-backup_run shell keeper roots_cfg s seconds home first roots others now at_home new
      finds valid one_line few dirs creates writes copies joined =
    let dir = backup_dir shell home seconds in
    let path = shell.join dir "roots" in
    let text = roots_text shell keeper (first ∷ others) in
    (
      record {
        dirs = insert dir tt s.dirs;
        files = insert path text s.files;
        copies = copy_each shell keeper dir 0 (first ∷ others) s.copies;
      },
      text,
      backup_run_is shell keeper roots_cfg s seconds home first roots others now at_home new finds
          valid (dirs dir) (creates path),
      get_new path text s.files,
      λ later p opens.
          discover_roots_is later p _ opens
          ∙ ap (λ l. returned (ok l))
              (parse_roots-roots_text shell keeper (first ∷ others) writes one_line),
      λ i root there.
          let same : 0 + i ≡ i = omega arith in
          rw⁻¹ same (
            copy_each-at shell keeper dir joined copies i 0 root (first ∷ others) s.copies there
              (omega (arith, few))),
    )
