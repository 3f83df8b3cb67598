-- ===== src/Storage/Sample.antt =====
-- A small disk, for the tests: what its host renders and parses, three mappings and their texts.
use ark_rust.Base.{
  suc, nat_eq, string_eq, String-discrete, ◌≟◌, String, ◌≡◌, refl, true, Option, none, some, [],
  ◌∷◌, arith, inl, inr, ◌⊎◌, ite,
}
use ark_rust.Base.Int.{ℤ, pos, ℤ-discrete}
use ark_rust.Error.{Result, ok, err, IoError, other_kind}
use ark_rust.Map.{Map}
use ark_rust.Storage.State.{storage_version, FileStorageData, Host, Call}
use ark_rust.Storage.Monoid.{i32_monoid}
use ark_rust.Storage.RoundTrip.{IsFaithful}

abbrev pub text_of : Map String ℤ → Option String
text_of [] = some "{}"
text_of ((key, value) ∷ []) =
    ite (key ≟ "a")
      (ite (ℤ-discrete value (pos 1)) (some "{a:1}")
        (ite (ℤ-discrete value (pos 2)) (some "{a:2}") none))
      none
text_of (_ ∷ _ ∷ _) = none

-- What is written after a file of version 2 was read and `a` set.
abbrev pub text_of_old : Map String ℤ → Option String
text_of_old [] = none
text_of_old ((key, value) ∷ []) =
    ite (key ≟ "a") (ite (ℤ-discrete value (pos 2)) (some "{old a:2}") none) none
text_of_old (_ ∷ _ ∷ _) = none

abbrev pub mapping : Map String ℤ → FileStorageData String ℤ
mapping entries = record { version = storage_version; entries = entries }

abbrev pub one : Map String ℤ
one = ("a", pos 1) ∷ []

abbrev pub two : Map String ℤ
two = ("a", pos 2) ∷ []

abbrev pub read_text : String → Result String (FileStorageData String ℤ)
read_text t = ite (t ≟ "{}") (ok (mapping [])) (
    ite (t ≟ "{a:1}") (ok (mapping one)) (
      ite (t ≟ "{a:2}") (ok (mapping two))
        (ite (t ≟ "{old a:2}") (ok (record { version = pos 2; entries = two })) (err "syntax"))))

-- A disk on which `fault` says what fails, with a clock that starts at 10.
abbrev pub host_with : (Call → Option IoError) → Host String ℤ
host_with fault = record {
  clock = λ n. suc (suc (suc (suc (suc (suc (suc (suc (suc (suc n)))))))));
  os_time = 9;
  fault = fault;
  torn = "{";
  missing = record { kind = other_kind; message = "No such file" };
  has_parent = true;
  to_json = λ c.
      ite (ℤ-discrete c.version storage_version) (text_of c.entries)
        (ite (ℤ-discrete c.version (pos 2)) (text_of_old c.entries) none);
  from_json = read_text;
  display_i32 = λ n. "?";
  parsers = record {
    parse_key = λ t. some t;
    parse_value = λ t. ite (t ≟ "1") (some (pos 1)) none;
  };
  monoid = i32_monoid;
}

abbrev pub host : Host String ℤ
host = host_with (λ c. none)

-- Only these mappings have a text.
rendered :
    (v : ℤ) (m : Map String ℤ) (text : String)
    → host.to_json (record { version = v; entries = m }) ≡ some text
    → ((v ≡ storage_version) × (m ≡ []) × (text ≡ "{}"))
      ⊎ ((v ≡ storage_version) × (m ≡ one) × (text ≡ "{a:1}"))
      ⊎ ((v ≡ storage_version) × (m ≡ two) × (text ≡ "{a:2}"))
      ⊎ ((v ≡ pos 2) × (m ≡ two) × (text ≡ "{old a:2}"))
rendered v [] text h = ground arith
rendered v ((key, value) ∷ []) text h = ground arith
rendered v (_ ∷ _ ∷ _) text h = absurd (ground arith)

reads_back :
    (c : FileStorageData String ℤ) (text : String)
    → host.to_json c ≡ some text
    → host.from_json text ≡ ok c
unfolding String-discrete
reads_back c text h = elim (rendered c.version c.entries text h) [
  | inl (v, l, r) ↦ rw (v, l, r) refl
  | inr (inl (v, l, r)) ↦ rw (v, l, r) refl
  | inr (inr (inl (v, l, r))) ↦ rw (v, l, r) refl
  | inr (inr (inr (v, l, r))) ↦ rw (v, l, r) refl
]

pub faithful : IsFaithful host
faithful = record {
  reads_back = reads_back;
  not_legacy = λ c text h. elim (rendered c.version c.entries text h) [
    | inl (v, l, r) ↦ rw r refl
    | inr (inl (v, l, r)) ↦ rw r refl
    | inr (inr (inl (v, l, r))) ↦ rw r refl
    | inr (inr (inr (v, l, r))) ↦ rw r refl
  ];
}
