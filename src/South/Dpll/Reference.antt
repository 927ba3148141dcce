-- ===== src/South/Dpll/Reference.antt =====
-- Item assignment on a list, as PriorityChangeHandler of src/south/dpll/goldstone/south/dpll/dpll.py
-- uses it.
use goldstone_mgmt.Base.{ℕ, zero, suc, List, [], ◌∷◌, Result, ok, err, index_error}
use goldstone_mgmt.Base.Text.{Text}

-- l[i] = v for an index that is not negative
unfoldable pub replace_at : List Text → ℕ → Text → Result (List Text)
replace_at [] i v = err index_error
replace_at (x ∷ xs) zero v = ok (v ∷ xs)
replace_at (x ∷ xs) (suc i) v = elim (replace_at xs i v) [ err e ↦ err e | ok ys ↦ ok (x ∷ ys) ]
