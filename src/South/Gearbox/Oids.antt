-- ===== src/South/Gearbox/Oids.antt =====
-- Object ids as text in src/south/gearbox/goldstone/south/gearbox/interfaces.py.
pub mod Read
use goldstone_mgmt.Base.{
  ℕ, zero, suc, ◌+◌, ◌-◌, ◌*◌, ◌/◌, ◌%◌, Bool, true, false, ◌&&◌, Option, none, some, List, [], ◌∷◌,
  ◌++◌, Result, ok, err, value_error, if◌then◌else◌, ltb, leb, length, ◌==◌, nat_eq,
}
use goldstone_mgmt.Base.Text.{Text, codes, int}
use goldstone_mgmt.Openconfig.Handler.{without}

unfoldable pub hex_digit : ℕ → ℕ
hex_digit n = if ltb n 10 then 48 + n else 87 + n

-- the hexadecimal digits of a number before those in the last argument; as many as the fuel at most
unfoldable pub hex_from : ℕ → ℕ → Text → Text
unfolding hex_digit
hex_from zero n s = s
hex_from (suc f) n s =
    let rest = hex_from f (n / 16) (hex_digit (n % 16) ∷ s) in
    if ltb n 16 then hex_digit n ∷ s else rest

unfoldable pub zeros : ℕ → Text
zeros zero = []
zeros (suc n) = b'0' ∷ zeros n

-- f"{n:08x}"
unfoldable pub hex08 : ℕ → Text
unfolding hex_from zeros
hex08 n = let s = hex_from (suc n) n [] in zeros (8 - length s) ++ s

-- f"oid:0x{n:08x}"
unfoldable pub oid_text : ℕ → Text
unfolding hex08
oid_text n = codes "oid:0x" ++ hex08 n

unfoldable pub hex_value : ℕ → Option ℕ
hex_value c =
    if leb 48 c && leb c 57
    then some (c - 48)
    else if leb 97 c && leb c 102
    then some (c - 87)
    else if leb 65 c && leb c 70
    then some (c - 55)
    else none

unfoldable pub hex_number : ℕ → Text → Result ℕ
hex_number n [] = ok n
hex_number n (c ∷ s) = elim (hex_value c) [
  | none ↦ err value_error
  | some d ↦ hex_number (n * 16 + d) s
]

-- int(s, 0) for the text of a hexadecimal number with its prefix, or of a decimal one
unfoldable pub int0 : Text → Result ℕ
unfolding hex_number
int0 (a ∷ b ∷ c ∷ s) = if a == b'0' && b == b'x' then hex_number 0 (c ∷ s) else int (a ∷ b ∷ c ∷ s)
int0 s = int s

-- int(oid.replace("oid:", ""), 0)
unfoldable pub oid_of : Text → Result ℕ
unfolding int0 without
oid_of t = int0 (without (codes "oid:") t)
