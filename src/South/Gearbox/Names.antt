-- ===== src/South/Gearbox/Names.antt =====
-- The names of interfaces in src/south/gearbox/goldstone/south/gearbox/interfaces.py.
pub mod Parse
use goldstone_mgmt.Base.{
  ℕ, ◌+◌, Option, none, some, List, [], ◌∷◌, ◌++◌, Result, ok, err, index_error, if◌then◌else◌,
  ◌==◌, nat_eq,
}
use goldstone_mgmt.Base.Text.{Text, codes, split, int, show}
use goldstone_mgmt.Openconfig.Handler.{without}

-- f"Interface{loc}/{type_}/{index+1}", as `get_ifname_list` and `taiobj2ifname` write it
unfoldable pub ifname_of : Text → ℕ → ℕ → Text
ifname_of loc type_ index =
    codes "Interface" ++ (loc ++ (b'/' ∷ (show type_ ++ b'/' ∷ show (index + 1))))

-- [int(v) for v in l]
unfoldable pub ints : List Text → Result (List ℕ)
ints [] = ok []
ints (t ∷ ts) = elim (int t) [
  | err e ↦ err e
  | ok n ↦ elim (ints ts) [ err e ↦ err e | ok ns ↦ ok (n ∷ ns) ]
]

-- v[0], v[1] and v[2]
unfoldable pub first_three : List ℕ → Result (ℕ × ℕ × ℕ)
first_three (a ∷ b ∷ c ∷ v) = ok (a, b, c)
first_three _ = err index_error

-- the numbers of an interface's name
unfoldable pub numbers_of : Text → Result (List ℕ)
unfolding without ints
numbers_of ifname = ints (split b'/' (without (codes "Interface") ifname))
