-- ===== src/Link/Tests.antt =====
-- Properties of a link that are saved twice, and the theorem on them.
use ark_rust.Base.{nat_eq, string_eq, String-discrete, ℕ, ◌≡◌, none, some}
use ark_rust.Json.Merge.{merge}
use ark_rust.Link.Data.{LinkProperties, to_value, of_value}
use ark_rust.Link.Again.{of_value-merge}

abbrev prop_old : LinkProperties
prop_old = record { title = "a"; desc = none }

abbrev prop_new : LinkProperties
prop_new = record { title = "a"; desc = some "later" }

of_value-merge_example :
    of_value (merge {N = ℕ} (to_value prop_old) (to_value prop_new)) ≡ some prop_old
unfolding String-discrete
of_value-merge_example = of_value-merge ℕ prop_old prop_new
