-- ===== src/Exec.antt =====
-- Code that changes a state, and may return an error or panic: what was changed before stays.
use ark_rust.Base.{◌≡◌, refl, arith}
use ark_rust.Error.{Outcome, ok, err, returned, panic}

abbrev pub Exec {ℓ} : Type ℓ → Type ℓ → Type ℓ → Type ℓ
Exec S E A = S → Outcome E A × S

module _ {ℓ} {S E A B : Type ℓ} where
  -- The rest of a block, after its first part.
  abbrev pub continue : Outcome E A × S → (A → Exec S E B) → Outcome E B × S
  continue (returned (ok a), s) f = f a s
  continue (returned (err x), s) f = (returned (err x), s)
  continue (panic, s) f = (panic, s)

  infixl 5 ◌>>=◌ ◌>>◌
  abbrev pub ◌>>=◌ : Exec S E A → (A → Exec S E B) → Exec S E B
  ◌>>=◌ m f s = continue (m s) f

  abbrev pub ◌>>◌ : Exec S E A → Exec S E B → Exec S E B
  m >> k = m >>= λ _. k

  -- A block that succeeds has a first part that succeeds.
  pub continue-eq-ok :
      (r : Outcome E A × S) (f : A → Exec S E B) {b : B} {t : S}
      → continue r f ≡ (returned (ok b), t)
      → (a : A) × (s : S) × (r ≡ (returned (ok a), s)) × (f a s ≡ (returned (ok b), t))
  continue-eq-ok (returned (ok a), s) f h = (a, s, refl, h)
  continue-eq-ok (returned (err x), s) f h = absurd (ground arith)
  continue-eq-ok (panic, s) f h = absurd (ground arith)

module _ {ℓ} {S E A : Type ℓ} where
  abbrev pub pure : A → Exec S E A
  pure a s = (returned (ok a), s)

  abbrev pub fail : E → Exec S E A
  fail x s = (returned (err x), s)

  abbrev pub lift : Outcome E A → Exec S E A
  lift r s = (r, s)

module _ {ℓ} {S E F A : Type ℓ} where
  abbrev pub raised : (E → F) → Outcome E A × S → Outcome F A × S
  raised f (returned (ok a), s) = (returned (ok a), s)
  raised f (returned (err x), s) = (returned (err (f x)), s)
  raised f (panic, s) = (panic, s)

  -- `?` or `map_err`: the same code with its error converted.
  abbrev pub raise : (E → F) → Exec S E A → Exec S F A
  raise f m s = raised f (m s)

-- What ends code with a loop early: its error, or that the rounds given to it are used up.
pub data Stop {ℓ} (E : Type ℓ) : Type ℓ where
  failed : E → Stop E
  unfinished : Stop E

abbrev pub map_stop {ℓ} : {E F : Type ℓ} → (E → F) → Stop E → Stop F
map_stop f (failed x) = failed (f x)
map_stop f unfinished = unfinished
