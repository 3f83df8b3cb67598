-- ===== src/Error.antt =====
-- data-error/src/lib.rs: `ArklibError` and the conversions into it.
use ark_rust.Base.{String, Option, none, some, ◌≡◌, ◌⊎◌, inl, inr, refl}

-- The kinds of `std::io::ErrorKind` that the code tells apart.
pub data ErrorKind : Type 0 where
  not_found already_exists invalid_input invalid_data other_kind : ErrorKind

pub record IoError : Type 0 where
  pub kind : ErrorKind
  pub message : String

pub data ArklibError : Type 0 where
  io : IoError → ArklibError
  path : String → ArklibError
  collision : String → ArklibError
  parse : ArklibError
  network : ArklibError
  storage : String → String → ArklibError
  other : String → ArklibError

-- The errors of other code that become an `ArklibError`, the last two with their text. (That of
-- `Infallible` has no value.)
pub data Cause : Type 0 where
  reqwest_error utf8_error serde_json_error url_parse_error : Cause
  dyn_error : String → Cause
  str_error : String → Cause

-- `From` of these errors, which `?` applies.
abbrev pub from : Cause → ArklibError
from reqwest_error = ArklibError.network
from utf8_error = ArklibError.parse
from serde_json_error = ArklibError.parse
from url_parse_error = ArklibError.parse
from (dyn_error text) = ArklibError.other text
from (str_error text) = ArklibError.other text

pub data Result {ℓ} (E A : Type ℓ) : Type ℓ where
  ok : A → Result E A
  err : E → Result E A

-- What a call of code that may panic gives.
pub data Outcome {ℓ} (E A : Type ℓ) : Type ℓ where
  returned : Result E A → Outcome E A
  panic : Outcome E A

infixl 5 ◌>>=◌ ◌>>◌
abbrev pub ◌>>=◌ {ℓ} : {E A B : Type ℓ} → Result E A → (A → Result E B) → Result E B
ok a >>= f = f a
err x >>= f = err x

abbrev pub ◌>>◌ {ℓ} : {E A B : Type ℓ} → Result E A → Result E B → Result E B
m >> k = m >>= λ _. k

abbrev pub map_err {ℓ} : {E F A : Type ℓ} → (E → F) → Result E A → Result F A
map_err f (ok a) = ok a
map_err f (err x) = err (f x)

-- `?` on an `io::Result` in a function that returns `data_error::Result`.
abbrev pub from_io : {A : Type 0} → Result IoError A → Result ArklibError A
from_io = map_err ArklibError.io

-- The value, if there is one: `.ok()`, or an `Err` branch that only logs.
abbrev pub to_option {ℓ} : {E A : Type ℓ} → Result E A → Option A
to_option (ok a) = some a
to_option (err x) = none

pub Outcome-cases {ℓ} :
    {E A : Type ℓ} (r : Outcome E A)
    → (r ≡ panic) ⊎ ((x : E) × (r ≡ returned (err x))) ⊎ ((a : A) × (r ≡ returned (ok a)))
Outcome-cases panic = inl refl
Outcome-cases (returned (err x)) = inr (inl (x, refl))
Outcome-cases (returned (ok a)) = inr (inr (a, refl))

pub Result-cases {ℓ} :
    {E A : Type ℓ} (r : Result E A) → ((x : E) × (r ≡ err x)) ⊎ ((a : A) × (r ≡ ok a))
Result-cases (err x) = inl (x, refl)
Result-cases (ok a) = inr (a, refl)
