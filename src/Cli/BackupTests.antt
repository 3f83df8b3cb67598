-- ===== src/Cli/BackupTests.antt =====
-- A backup of two roots, one of them without storages.
use Prim.Native.Char.{code}
use Prim.Native.String.{String, ◌++◌ as push_str}
use text.Mathlib.TextLemmas.{append_cancel_left}
use ark_rust.Base.{
  string_eq, String-discrete, ℕ_discrete, ◌≟◌, ℕ, Bool, none, some, [], ◌∷◌, ◌≡◌, refl, sym, ◌∙◌,
  inl, ◌==◌, if◌then◌else◌, arith, ite, get_elem?, true, false,
}
use ark_rust.Base.Decimal.{display, display-Lacks, digits, digit}
use ark_rust.Base.Pieces.{Lacks}
use ark_rust.Base.Text.{lines}
use ark_rust.Error.{ok, returned}
use ark_rust.Map.{get, insert}
use ark_rust.Cli.Roots.{Shell, discover_roots, find_root, parse_roots, storages_exists}
use ark_rust.Cli.Backup.{Saved, Keeper, finished, timestamp, valid_roots, backup_run}
use ark_rust.Cli.BackupTrip.{read_lines, backup_dir, discover_roots-backup_run}

abbrev is_absolute : String → Bool
is_absolute String.[] = false
is_absolute (String.◌∷◌ c s) = code c == 47

-- Joining an absolute path replaces the folder.
abbrev shell : Shell
shell = record {
  ark_config = "c";
  current_dir = ok "w";
  open_lines = λ p. ok (ok "a" ∷ ok "b" ∷ []);
  canonicalize = λ p. ok p;
  ancestors = λ p. p ∷ [];
  metadata_is_dir = λ p. ok (ite (p ≟ "b/.ark") true false);
  is_folder = λ p. false;
  to_lowercase = λ p. p;
  join = λ a b. if is_absolute b then b else push_str a (push_str "/" b);
}

abbrev keeper : Keeper
keeper = record {
  now = 5_000_000_000;
  unix_epoch = 0;
  home_dir = some "/h";
  create_dir_all = λ dir. none;
  create = λ path. none;
  writeln = λ root. none;
  copy = λ a b m. some (insert b a m);
}

abbrev nothing : Saved
nothing = record { dirs = []; files = []; copies = [] }

running : Unit {0}
unfolding String-discrete ℕ_discrete discover_roots find_root parse_roots storages_exists timestamp
    valid_roots get insert display digits digit
running = tt

-- A number is no absolute path.
is_absolute-Lacks : (s : String) → Lacks 47 s → is_absolute s ≡ false
is_absolute-Lacks String.[] h = refl
is_absolute-Lacks (String.◌∷◌ c s) h = h.0

join-display :
    (dir : String) (i : ℕ) → shell.join dir (display i) ≡ push_str dir (push_str "/" (display i))
join-display dir i =
    rw (is_absolute-Lacks (display i) (display-Lacks 47 i (inl (omega arith)))) refl

joined :
    (i k : ℕ)
    → shell.join (backup_dir shell "/h" 5) (display i)
      ≡ shell.join (backup_dir shell "/h" 5) (display k)
    → display i ≡ display k
joined i k same = append_cancel_left "/" (display i) (display k) (
    append_cancel_left (backup_dir shell "/h" 5) (push_str "/" (display i))
      (push_str "/" (display k))
      (sym (join-display (backup_dir shell "/h" 5) i)
        ∙ same
        ∙ join-display (backup_dir shell "/h" 5) k))

discover_roots-backup_run_example :
    (s' : Saved) × (text : String) × (backup_run shell keeper none nothing
      ≡ (returned (ok finished), s'))
    × (get (shell.join (backup_dir shell "/h" 5) "roots") s'.files ≡ some text)
    × ((later : Shell) (path : String)
        → later.open_lines path ≡ ok (read_lines (lines text))
        → discover_roots later (some path) ≡ returned (ok ("b" ∷ [])))
    × ((i : ℕ) (root : String)
        → get_elem? ("b" ∷ []) i ≡ some root
        → get (shell.join (backup_dir shell "/h" 5) (display i)) s'.copies
          ≡ some (shell.join root ".ark"))
unfolding running
discover_roots-backup_run_example =
    discover_roots-backup_run shell keeper none nothing 5 "/h" "b" ("a" ∷ "b" ∷ []) [] refl refl
      refl refl refl (((refl, tt), (refl, tt)), tt) (omega arith) (λ dir. refl) (λ path. refl)
      (λ root. refl) (λ a b m. refl) joined
