-- ===== src/Base/Text.antt =====
-- Text as a list of code points, with the parts of Python's `str` that the program uses.
use Prim.Native.Nat.{ℕ, ◌+◌, ◌*◌, ◌-◌, ◌/◌, ◌%◌, ◌<◌, zero, suc}
use Prim.Native.Char.{code}
use Prim.Native.String.{String}
use mathlib.Core.Path.{◌≡◌, refl, ap}
use native.Mathlib.Omega.{arith}
use mathlib.Core.Bool.{Bool, true, false, ◌||◌}
use mathlib.Core.List.{List, [], ◌∷◌, ◌++◌}
use goldstone_mgmt.Base.Results.{Result, ok, err, value_error}
use goldstone_mgmt.Base.Tests.{◌==◌, nat_eq, ltb, if◌then◌else◌}

abbrev pub Text : Type 0
Text = List ℕ

-- The code points of a literal.
abbrev pub codes : String → Text
codes String.[] = []
codes (String.◌∷◌ c s) = code c ∷ codes s

-- Puts a code point in front of the first part of a split.
abbrev pub cons_first : ℕ → List Text → List Text
cons_first c [] = (c ∷ []) ∷ []
cons_first c (p ∷ ps) = (c ∷ p) ∷ ps

-- s.split(sep) for a separator of one code point.
unfoldable pub split : ℕ → Text → List Text
split sep [] = [] ∷ []
split sep (c ∷ s) = let rest = split sep s in if c == sep then [] ∷ rest else cons_first c rest

-- sep.join(parts)
unfoldable pub join : ℕ → List Text → Text
join sep [] = []
join sep (p ∷ []) = p
join sep (p ∷ q ∷ ps) = p ++ sep ∷ join sep (q ∷ ps)

-- `c in s`
unfoldable pub contains : ℕ → Text → Bool
contains c [] = false
contains c (d ∷ s) = let rest = contains c s in if d == c then true else rest

-- the digits of a number
unfoldable pub digits_from : ℕ → Text → Result ℕ
digits_from n [] = ok n
digits_from n (c ∷ s) =
    let rest = digits_from (n * 10 + (c - 48)) s in
    if ltb c 48 || ltb 57 c then err value_error else rest

-- int(s) for the text of an unsigned number, as the key `id` is one
unfoldable pub int : Text → Result ℕ
unfolding digits_from
int [] = err value_error
int (c ∷ s) = digits_from 0 (c ∷ s)

-- the digits of a number before those in the last argument; as many as the fuel at most
unfoldable pub show_from : ℕ → ℕ → Text → Text
show_from zero n s = s
show_from (suc f) n s =
    let rest = show_from f (n / 10) ((48 + n % 10) ∷ s) in if ltb n 10 then (48 + n) ∷ s else rest

-- str(n): a number has fewer digits than n + 1
unfoldable pub show : ℕ → Text
unfolding show_from
show n = show_from (suc n) n []

digits_from-digit :
    (k d n : ℕ) (s : Text)
    → d < 10
    → k * 10 + d ≡ n
    → digits_from k ((48 + d) ∷ s) ≡ digits_from n s
unfolding digits_from
digits_from-digit k d n s h e = ground (arith, ap (λ m. digits_from m s) e)

digits_from-show : (f n : ℕ) (s : Text) → n < f → digits_from 0 (show_from f n s) ≡ digits_from n s
unfolding show_from
digits_from-show zero n s h = absurd (omega arith)
digits_from-show (suc f) n s h =
    let small : n < 10 → digits_from 0 ((48 + n) ∷ s) ≡ digits_from n s =
      λ b. digits_from-digit 0 n n s b (omega arith) in
    let rest = digits_from-show f (n / 10) ((48 + n % 10) ∷ s) in
    let last = digits_from-digit (n / 10) (n % 10) n s (omega arith) (omega arith) in
    ground (arith, small, rest, last)

show_from-int :
    (f n c : ℕ) (s : Text) → int (show_from f n (c ∷ s)) ≡ digits_from 0 (show_from f n (c ∷ s))
unfolding show_from int
show_from-int zero n c s = refl
show_from-int (suc f) n c s = ground (arith, show_from-int f (n / 10) (48 + n % 10) (c ∷ s))

-- The text of a number reads back as that number.
pub int-show : (n : ℕ) → int (show n) ≡ ok n
unfolding int show show_from digits_from
int-show n =
    ground (arith, digits_from-show (suc n) n [], show_from-int n (n / 10) (48 + n % 10) [])
