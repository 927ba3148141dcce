-- ===== src/Connector/Session/Example.antt =====
-- A small sysrepo with one leaf-list and one session, for the tests of the connector and of the
-- servers on it.
use goldstone_mgmt.Base.{
  ℕ, ◌≡◌, refl, ap, Bool, true, false, not, Option, none, some, List, [], ◌∷◌, ◌++◌, Result, ok,
  err, type_error, length, length-append, ◌==◌, ==_iff, text_eq, if◌then◌else◌, arith,
}
use goldstone_mgmt.Base.Dict.{member}
use goldstone_mgmt.Base.Text.{Text, codes}
use goldstone_mgmt.Connector.Session.{Sysrepo, Session, Value, text, list_value, single, entry_path}
use goldstone_mgmt.Connector.Session.LeafList.{Entries}
use goldstone_mgmt.Connector.Session.Discard.{HoldsChanges}
use goldstone_mgmt.Connector.Session.Store.{OnlyApplies}

abbrev pub xpath : Text
xpath = codes "/l"

-- the entries as the session sees them, whether it holds changes back, and the datastore
pub record Device : Type 0 where
  pub entries : List Text
  pub pending : Bool
  pub stored : List Text

abbrev pub remove_path : Text → List Text → List Text
remove_path p [] = []
remove_path p (v ∷ vs) =
    let rest = remove_path p vs in if entry_path xpath v == p then rest else v ∷ rest

abbrev pub add_value : Value (Option (List Text)) → Device → Device
add_value (text v) s = record s { entries = v ∷ s.entries; pending = true }
add_value v s = record s { pending = true }

abbrev pub is_empty : Option (List Text) → Bool
is_empty none = true
is_empty (some []) = true
is_empty (some (v ∷ vs)) = false

abbrev pub is_missing : Option (List Text) → Bool
is_missing none = true
is_missing (some l) = false

abbrev pub values : Option (List Text) → Result (List Text)
values none = err type_error
values (some l) = ok l

abbrev pub count : Option (List Text) → Result ℕ
count none = err type_error
count (some l) = ok (length l)

abbrev pub sysrepo : Sysrepo
sysrepo = record {
  State = Device;
  Handle = Unit {0};
  Data = Option (List Text);
  Node = Text;
  none_data = none;
  is_none = is_missing;
  empty_list = some [];
  truthy = λ d. not (is_empty d);
  len = count;
  first = λ d. d;
  texts = values;
  iterate = λ l. l;
  keyword = λ n. n;
  find_path = λ p. ok (codes "leaf-list" ∷ []);
  xpath_get = λ d p n b. ok d;
  start_session = λ ds s. (ok tt, s);
  get_data = λ h p b s. (ok (some s.entries), s);
  set_item = λ h p v s. (ok tt, add_value v s);
  delete_item = λ h p s. (ok tt, record s { entries = remove_path p s.entries; pending = true });
  apply_changes = λ h s. (ok tt, record s { stored = s.entries; pending = false });
  discard_changes = λ h s. (ok tt, record s { entries = s.stored; pending = false });
  stop = λ h s. (ok tt, s);
  copy_config = λ h ds m s. (ok tt, s);
  clear_config = λ h m s. (ok tt, record s { stored = [] });
  notification_send = λ h n d s. (ok tt, s);
  subscribe_notification = λ h m p s. (ok tt, s);
  rpc_send = λ h p d s. (ok d, s);
  modules = λ s. (ok (codes "m" ∷ []), s);
  has_notifications = λ m s. (ok true, s);
}

append-cancel : (xs ys s : Text) → xs ++ s ≡ ys ++ s → xs ≡ ys
append-cancel [] [] s e = refl
append-cancel [] (y ∷ ys) s e = absurd (omega (arith, ap length e, length-append ys s))
append-cancel (x ∷ xs) [] s e = absurd (omega (arith, ap length e, length-append xs s))
append-cancel (x ∷ xs) (y ∷ ys) s e = ground (arith, e, append-cancel xs ys s)

entry_path-eq : (v w : Text) → (entry_path xpath v == entry_path xpath w) ≡ (v == w)
unfolding entry_path
entry_path-eq v w =
    let cancel = append-cancel v w (codes "']") in
    ground (
      arith,
      ==_iff v w,
      ==_iff (v ++ codes "']") (w ++ codes "']"),
      cancel,
      ap (λ u. u ++ codes "']"),
    )

remove_path-member :
    (w v : Text) (l : List Text)
    → member (remove_path (entry_path xpath w) l) v ≡ (if w == v then false else member l v)
unfolding member
remove_path-member w v [] = ground arith
remove_path-member w v (u ∷ l) =
    ground (arith, entry_path-eq u w, remove_path-member w v l, ==_iff u w, ==_iff w v, ==_iff u v)

abbrev pub session : Session sysrepo
session = record { session = tt; ds = codes "running" }

pub entries_laws : Entries sysrepo session xpath
unfolding member
entries_laws = record {
  has = λ s v. member s.entries v;
  read_members = λ s d r ts v e f g. ground (arith, e, f, g);
  absent_members = λ s c v k e. absurd (ground (arith, e));
  texts_empty = refl;
  read_keeps = λ s v. refl;
  set_adds = λ s w v e. ground arith;
  delete_removes = λ s w v e. remove_path-member w v s.entries;
  iterate_members = λ ws v. refl;
}

pub changes_laws : HoldsChanges sysrepo
changes_laws = record {
  Changes = Bool;
  nothing = false;
  pending = λ s h. s.pending;
  discard_returns = λ h s. refl;
  discard_empties = λ h s. refl;
  apply_empties = λ h s e. refl;
  apply_raises = λ h s c e. absurd (ground (arith, e));
}

pub add_value-stored :
    (v : Value (Option (List Text))) (s : Device) → (add_value v s).stored ≡ s.stored
add_value-stored (text v) s = refl
add_value-stored (list_value v) s = refl
add_value-stored (single v) s = refl

abbrev pub store_laws : OnlyApplies sysrepo
store_laws = record {
  Store = List Text;
  running = λ s. s.stored;
  get_keeps = λ h p b s. refl;
  set_keeps = λ h p v s. add_value-stored v s;
  delete_keeps = λ h p s. refl;
  discard_keeps = λ h s. refl;
  start_keeps = λ ds s. refl;
}
