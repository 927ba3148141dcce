-- ===== src/South/Gearbox/Devices/Found.antt =====
-- The names of the interfaces of src/south/gearbox/goldstone/south/gearbox/interfaces.py and their
-- objects.
use goldstone_mgmt.Base.{
  ℕ, suc, ◌+◌, ◌≡◌, refl, none, some, List, [], ◌∷◌, ok, All, All-append, arith,
}
use goldstone_mgmt.Base.Dict.{Dict}
use goldstone_mgmt.Base.Text.{Text, show}
use goldstone_mgmt.South.Gearbox.{Platform, Object, netif, hostif, at, before, item}
use goldstone_mgmt.South.Gearbox.Names.{ifname_of}
use goldstone_mgmt.South.Gearbox.Names.Parse.{numbers_of-ifname_of}
use goldstone_mgmt.South.Gearbox.Devices.{
  Devices, Named, on_platform, named, names_of, object_at, ifname2taiobj,
}

-- The modules by their locations, which are numbers, as taish lists them.
pub located : List (ℕ × ℕ) → Dict Text ℕ
located [] = []
located ((loc, m) ∷ l) = (show loc, m) ∷ located l

module _ (P : Platform) (s : P.State) where
  -- taish finds an interface of a module by its index, and searching changes nothing.
  abbrev pub HasHostif : ℕ → ℕ × ℕ → Type 0
  HasHostif m p = P.get_hostif m (at p.0) s ≡ (ok p.1, s)

  abbrev pub HasNetif : ℕ → ℕ × ℕ → Type 0
  HasNetif m p = P.get_netif m (at p.0) s ≡ (ok p.1, s)

  -- taish finds a module by its location, and both sides' interfaces of it.
  abbrev pub IsFound : ℕ × ℕ → Type 0
  IsFound p =
      (P.get_module (show p.0) s ≡ (ok p.1, s))
      × All (HasHostif p.1) (P.hostifs p.1 s)
      × All (HasNetif p.1) (P.netifs p.1 s)

  module _ (d : Devices P) (here : d.platform ≡ s) where
    -- The interface with a name is the object, in the module.
    abbrev pub Finds : Named P → Type 0
    Finds n = ifname2taiobj P n.0 d ≡ (ok (some n.1, n.2), d)

    before-add : (i : ℕ) → before (i + 1) ≡ at i
    unfolding before
    before-add i = let e : i + 1 ≡ suc i = omega arith in rw e refl

    ifname2taiobj-path :
        (loc m side i : ℕ) (obj : Object)
        → P.get_module (show loc) d.platform ≡ (ok m, d.platform)
        → object_at P m side (i + 1) d.platform ≡ (ok (some obj), d.platform)
        → ifname2taiobj P (ifname_of (show loc) side i) d ≡ (ok (some obj, m), d)
    unfolding ifname2taiobj on_platform item
    ifname2taiobj-path loc m side i obj known found =
        rw (numbers_of-ifname_of loc side i, ifname2taiobj, known, found) refl

    hostifs-Finds :
        (loc m : ℕ) (l : List (ℕ × ℕ))
        → P.get_module (show loc) s ≡ (ok m, s)
        → All (HasHostif m) l
        → All Finds (named P (show loc) m hostif 0 l)
    unfolding named object_at
    hostifs-Finds loc m [] known h = tt
    hostifs-Finds loc m ((i, n) ∷ l) known h = (
      ifname2taiobj-path loc m 0 i (hostif n) (rw here known)
          (rw (here, before-add i, object_at, h.0) refl),
      hostifs-Finds loc m l known h.1,
    )

    netifs-Finds :
        (loc m : ℕ) (l : List (ℕ × ℕ))
        → P.get_module (show loc) s ≡ (ok m, s)
        → All (HasNetif m) l
        → All Finds (named P (show loc) m netif 1 l)
    unfolding named object_at
    netifs-Finds loc m [] known h = tt
    netifs-Finds loc m ((i, n) ∷ l) known h = (
      ifname2taiobj-path loc m 1 i (netif n) (rw here known)
          (rw (here, before-add i, object_at, h.0) refl),
      netifs-Finds loc m l known h.1,
    )

    -- When the locations of the modules are numbers, `ifname2taiobj` finds every interface of
    -- `get_ifname_list` by its name, with the object and the module that the list has for it.
    pub names_of-Finds :
        (modules : List (ℕ × ℕ))
        → All IsFound modules
        → All Finds (names_of P none (located modules) s)
    unfolding names_of located
    names_of-Finds [] h = tt
    names_of-Finds ((loc, m) ∷ l) h =
        All-append Finds _ _ (hostifs-Finds loc m (P.hostifs m s) h.0.0 h.0.1) (
          All-append Finds _ _ (netifs-Finds loc m (P.netifs m s) h.0.0 h.0.2)
            (names_of-Finds l h.1))
