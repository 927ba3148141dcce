-- ===== src/Gnmi/Paths.antt =====
-- The paths of src/north/gnmi/goldstone/north/gnmi/server.py: gNMI paths and XPaths.
use goldstone_mgmt.Base.{Bool, true, false, List, [], ◌∷◌, ◌++◌, ltb, if◌then◌else◌}
use goldstone_mgmt.Base.Dict.{Dict}
use goldstone_mgmt.Base.Text.{Text, codes}

-- gnmi_pb2.PathElem; `key` is a map.
pub record PathElem : Type 0 where
  pub name : Text
  pub key : Dict Text Text

-- Python's order on strings
pub precedes : Text → Text → Bool
precedes [] [] = false
precedes [] (d ∷ t) = true
precedes (c ∷ s) [] = false
precedes (c ∷ s) (d ∷ t) =
    let rest = precedes s t in if ltb c d then true else if ltb d c then false else rest

pub insert_sorted : Text × Text → Dict Text Text → Dict Text Text
unfolding precedes
insert_sorted e [] = e ∷ []
insert_sorted e (f ∷ fs) =
    let rest = insert_sorted e fs in if precedes f.0 e.0 then f ∷ rest else e ∷ f ∷ fs

-- sorted(elem.key), with the values
pub sorted : Dict Text Text → Dict Text Text
unfolding insert_sorted
sorted [] = []
sorted (e ∷ es) = insert_sorted e (sorted es)

-- [key='value']
abbrev pub key_text : Text → Text → Text
key_text key value = b'[' ∷ (key ++ codes "='" ++ value ++ codes "']")

pub keys_text : Dict Text Text → Text
keys_text [] = []
keys_text ((k, v) ∷ ks) = key_text k v ++ keys_text ks

-- `_parse_gnmi_path`
pub parse_gnmi_path : List PathElem → Text
unfolding sorted keys_text
parse_gnmi_path [] = []
parse_gnmi_path (e ∷ es) = b'/' ∷ (e.name ++ keys_text (sorted e.key) ++ parse_gnmi_path es)
