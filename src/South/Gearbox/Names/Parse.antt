-- ===== src/South/Gearbox/Names/Parse.antt =====
-- The names of interfaces of src/south/gearbox/goldstone/south/gearbox/interfaces.py, read back.
use goldstone_mgmt.Base.{
  ℕ, zero, suc, ◌+◌, ◌/◌, ◌%◌, ◌≤◌, ◌<◌, ◌≡◌, refl, ap, ◌∙◌, false, [], ◌∷◌, ◌++◌, ok, All,
  All-append, nat_eq, arith, ltb, Bool-cases, inl, inr,
}
use mathlib.Core.List.{append-nil}
use goldstone_mgmt.Base.Text.{Text, codes, contains, split, show, show_from, int-show}
use goldstone_mgmt.Openconfig.Names.{starts_with}
use goldstone_mgmt.Openconfig.Names.Parse.{occurs, split_on-path, split-whole}
use goldstone_mgmt.Openconfig.Handler.{without, concat}
use goldstone_mgmt.South.Gearbox.Names.{ifname_of, numbers_of, ints}

-- The code points of digits and of the slash lie before those of the letters.
abbrev pub IsDigit : ℕ → Type 0
IsDigit c = (48 ≤ c) × (c ≤ 57)

show_from-IsDigit : (f n : ℕ) (s : Text) → All IsDigit s → All IsDigit (show_from f n s)
unfolding show_from
show_from-IsDigit zero n s h = h
show_from-IsDigit (suc f) n s h = elim (Bool-cases (ltb n 10)) [
  | inl small ↦ rw small ((omega arith, ground arith), h)
  | inr large ↦
      rw large (show_from-IsDigit f (n / 10) ((48 + n % 10) ∷ s) ((omega arith, omega arith), h))
]

pub show-IsDigit : (n : ℕ) → All IsDigit (show n)
unfolding show
show-IsDigit n = show_from-IsDigit (suc n) n [] tt

pub contains-digits : (sep : ℕ) (s : Text) → sep < 48 → All IsDigit s → contains sep s ≡ false
unfolding contains
contains-digits sep [] b h = refl
contains-digits sep (c ∷ s) b h = ground (arith, contains-digits sep s b h.1)

abbrev IsLow : ℕ → Type 0
IsLow c = c ≤ 57

IsLow-of_digits : (s : Text) → All IsDigit s → All IsLow s
IsLow-of_digits [] h = tt
IsLow-of_digits (c ∷ s) h = (h.0.1, IsLow-of_digits s h.1)

occurs-low : (s : Text) → All IsLow s → occurs (codes "Interface") s ≡ false
unfolding occurs starts_with
occurs-low [] h = refl
occurs-low (c ∷ s) h = ground (arith, occurs-low s h.1)

without-prefix : (s : Text) → All IsLow s → without (codes "Interface") (codes "Interface" ++ s) ≡ s
unfolding without concat
without-prefix s h =
    ap concat (split_on-path b'I' (codes "nterface") s (occurs-low s h)) ∙ append-nil s

pub split-first :
    (sep : ℕ) (s t : Text) → contains sep s ≡ false → split sep (s ++ sep ∷ t) ≡ s ∷ split sep t
unfolding split contains
split-first sep [] t h = ground arith
split-first sep (c ∷ s) t h = ground (arith, split-first sep s t)

-- The numbers of an interface's name are those of its module, its side and its place, counted from
-- one, when the module's location is a number.
pub numbers_of-ifname_of :
    (loc type_ index : ℕ)
    → numbers_of (ifname_of (show loc) type_ index) ≡ ok (loc ∷ type_ ∷ (index + 1) ∷ [])
unfolding numbers_of ifname_of ints
numbers_of-ifname_of loc type_ index =
    let tail : Text = show type_ ++ b'/' ∷ show (index + 1) in
    let low = λ (n : ℕ). IsLow-of_digits (show n) (show-IsDigit n) in
    let all_low =
      All-append IsLow (show loc) (b'/' ∷ tail) (low loc)
        (omega arith, All-append IsLow (show type_) _ (low type_) (omega arith, low (index + 1))) in
    let parts =
      split-first b'/' (show loc) tail (contains-digits b'/' _ (omega arith) (show-IsDigit loc))
      ∙ ap (λ l. show loc ∷ l)
          (split-first b'/' (show type_) (show (index + 1))
              (contains-digits b'/' _ (omega arith) (show-IsDigit type_))
            ∙ ap (λ l. show type_ ∷ l)
                (split-whole b'/' (show (index + 1))
                  (contains-digits b'/' _ (omega arith) (show-IsDigit (index + 1))))) in
    ap (λ s. ints (split b'/' s)) (without-prefix _ all_low)
    ∙ ap ints parts
    ∙ ground (arith, int-show loc, int-show type_, int-show (index + 1))
