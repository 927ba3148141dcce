-- ===== src/Telemetry/Store/Tests.antt =====
-- The theorems about src/system/telemetry/goldstone/system/telemetry/store.py at a store with one
-- entry.
use goldstone_mgmt.Base.{ℕ, ◌≡◌, none, some, [], ◌∷◌, nat_eq, text_eq}
use goldstone_mgmt.Base.Text.{codes}
use goldstone_mgmt.Telemetry.Store
use goldstone_mgmt.Telemetry.Store.{Ids, Entry, find, same_key}
use goldstone_mgmt.Telemetry.Store.Laws.{find-set, find-delete}

abbrev held : Store.Store ℕ
held = (7, (1, (codes "/a", record { value = 3; update_time = 0 }) ∷ []) ∷ []) ∷ []

find-set_example :
    find (Store.set held (7, 1) (codes "/b") 4 9) (7, 1) (codes "/b")
    ≡ some (record { value = 4; update_time = 9 })
find-set_example = find-set held (7, 1) (7, 1) (codes "/b") (codes "/b") 4 9

find-delete_example : find (Store.delete (7, 1) (codes "/a") held).1 (7, 1) (codes "/a") ≡ none
find-delete_example = find-delete held (7, 1) (7, 1) (codes "/a") (codes "/a")
