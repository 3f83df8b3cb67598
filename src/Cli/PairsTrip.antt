-- ===== src/Cli/PairsTrip.antt =====
-- `key_value_to_str` of ark-cli/src/models/mod.rs on a text that is made of pairs.
use Prim.Native.String.{◌++◌ as push_str}
use text.Mathlib.TextLemmas.{cons-append, nil-append}
use ark_rust.Base.{String, List, [], ◌∷◌, ◌≡◌, refl, ap, ◌∙◌, All, arith}
use ark_rust.Base.Text.{split}
use ark_rust.Base.Pieces.{Lacks, split-append, split-Lacks, Lacks-append}
use ark_rust.Error.{ok}
use ark_rust.Cli.Pairs.{trim, key_value_to_str, parse_pairs, with_pair}

-- A key or a value without a colon, a comma, or a space at one of its ends.
pub record IsWord (s : String) : Type 0 where
  pub no_colon : Lacks 58 s
  pub no_comma : Lacks 44 s
  pub trimmed : trim s ≡ s

abbrev pub AreWords : List (String × String) → Type 0
AreWords values = All (λ p. IsWord p.0 × IsWord p.1) values

abbrev pub text_of_pair : String → String → String
text_of_pair key value = push_str key (push_str ":" value)

-- The pairs, with colons inside and commas between them.
abbrev pub text_of_pairs : String → String → List (String × String) → String
text_of_pairs key value [] = text_of_pair key value
text_of_pairs key value ((k, v) ∷ rest) =
    push_str (text_of_pair key value) (push_str "," (text_of_pairs k v rest))

comma_append : (s : String) → push_str "," s ≡ String.◌∷◌ "," s
comma_append s = cons-append "," "" s ∙ ap (λ t. String.◌∷◌ "," t) (nil-append s)

colon_append : (s : String) → push_str ":" s ≡ String.◌∷◌ ":" s
colon_append s = cons-append ":" "" s ∙ ap (λ t. String.◌∷◌ ":" t) (nil-append s)

split-text_of_pair :
    (key value : String)
    → IsWord key
    → IsWord value
    → split 58 (text_of_pair key value) ≡ key ∷ value ∷ []
split-text_of_pair key value k v =
    ap (λ s. split 58 (push_str key s)) (colon_append value)
    ∙ split-append 58 ":" key value refl k.no_colon
    ∙ ap (λ l. key ∷ l) (split-Lacks 58 value v.no_colon)

pair-Lacks : (key value : String) → IsWord key → IsWord value → Lacks 44 (text_of_pair key value)
pair-Lacks key value k v =
    Lacks-append 44 key _ k.no_comma (Lacks-append 44 ":" value (refl, tt) v.no_comma)

with_words :
    (key value : String) (values : List (String × String))
    → IsWord key
    → IsWord value
    → with_pair (key ∷ value ∷ []) (ok values) ≡ ok ((key, value) ∷ values)
with_words key value values k v = ground (arith, k.trimmed, v.trimmed)

parse_words :
    (key value : String) (pieces : List String) (values : List (String × String))
    → IsWord key
    → IsWord value
    → parse_pairs pieces ≡ ok values
    → parse_pairs (text_of_pair key value ∷ pieces) ≡ ok ((key, value) ∷ values)
unfolding parse_pairs
parse_words key value pieces values k v h =
    ap (λ l. with_pair l (parse_pairs pieces)) (split-text_of_pair key value k v)
    ∙ ap (with_pair (key ∷ value ∷ [])) h
    ∙ with_words key value values k v

no_pairs : parse_pairs [] ≡ ok []
unfolding parse_pairs
no_pairs = refl

split-text_of_pairs :
    (key value : String) (rest : List (String × String))
    → AreWords ((key, value) ∷ rest)
    → parse_pairs (split 44 (text_of_pairs key value rest)) ≡ ok ((key, value) ∷ rest)
split-text_of_pairs key value [] h =
    ap parse_pairs (split-Lacks 44 (text_of_pair key value) (pair-Lacks key value h.0.0 h.0.1))
    ∙ parse_words key value [] [] h.0.0 h.0.1 no_pairs
split-text_of_pairs key value ((k, v) ∷ rest) h =
    ap (λ s. parse_pairs (split 44 (push_str (text_of_pair key value) s)))
      (comma_append (text_of_pairs k v rest))
    ∙ ap parse_pairs (
        split-append 44 "," (text_of_pair key value) (text_of_pairs k v rest) refl
          (pair-Lacks key value h.0.0 h.0.1))
    ∙ parse_words key value (split 44 (text_of_pairs k v rest)) ((k, v) ∷ rest) h.0.0 h.0.1
        (split-text_of_pairs k v rest h.1)

-- A text of one pair or more, with colons in them and commas between them, is read as these
-- pairs, where no key or value has a colon, a comma or white space at its ends.
pub key_value_to_str-text_of_pairs :
    (key value : String) (rest : List (String × String))
    → AreWords ((key, value) ∷ rest)
    → key_value_to_str (text_of_pairs key value rest) ≡ ok ((key, value) ∷ rest)
unfolding key_value_to_str
key_value_to_str-text_of_pairs key value rest h = split-text_of_pairs key value rest h
