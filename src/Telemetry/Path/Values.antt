-- ===== src/Telemetry/Path/Values.antt =====
-- The data that the central datastore returns, as Python objects: dicts, lists, and scalars of some
-- type `S`. Used by src/system/telemetry/goldstone/system/telemetry/path.py.
use goldstone_mgmt.Base.{
  Bool, true, false, ◌||◌, Result, ok, err, key_error, type_error, if◌then◌else◌, ◌==◌, text_eq,
}
use goldstone_mgmt.Base.Text.{Text}

mutual
  pub data Value (S : Type 0) : Type 0 where
    scalar : S → Value S
    arr : Items S → Value S
    obj : Fields S → Value S

  pub data Items (S : Type 0) : Type 0 where
    nil : Items S
    cons : Value S → Items S → Items S

  pub data Fields (S : Type 0) : Type 0 where
    end : Fields S
    field : Text → Value S → Fields S → Fields S

module _ {S : Type 0} where
  abbrev pub is_dict : Value S → Bool
  is_dict (obj fs) = true
  is_dict _ = false

  -- `_is_container_list`
  abbrev pub has_dict : Items S → Bool
  has_dict nil = false
  has_dict (cons x xs) = is_dict x || has_dict xs

  unfoldable pub field_of : Fields S → Text → Result (Value S)
  field_of end k = err key_error
  field_of (field j v fs) k = if j == k then ok v else field_of fs k

  -- container[key]
  unfoldable pub item : Value S → Text → Result (Value S)
  unfolding field_of
  item (obj fs) k = field_of fs k
  item _ k = err type_error
