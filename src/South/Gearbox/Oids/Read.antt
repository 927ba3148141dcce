-- ===== src/South/Gearbox/Oids/Read.antt =====
-- Object ids of src/south/gearbox/goldstone/south/gearbox/interfaces.py, read back.
use goldstone_mgmt.Base.{
  ℕ, zero, suc, ◌+◌, ◌-◌, ◌*◌, ◌/◌, ◌%◌, ◌≤◌, ◌<◌, ◌≡◌, refl, ap, ◌∙◌, false, some, [], ◌∷◌, ◌++◌,
  ok, All, All-append, nat_eq, arith, ltb, length, Bool-cases, inl, inr,
}
use mathlib.Core.List.{append-nil}
use goldstone_mgmt.Base.Text.{Text, codes}
use goldstone_mgmt.Openconfig.Names.{starts_with}
use goldstone_mgmt.Openconfig.Names.Parse.{occurs, split_on-path}
use goldstone_mgmt.Openconfig.Handler.{without, concat}
use goldstone_mgmt.South.Gearbox.Oids.{
  hex_digit, hex_from, zeros, hex08, oid_text, hex_value, hex_number, int0, oid_of,
}

hex_value-digit : (n : ℕ) → n < 16 → hex_value (hex_digit n) ≡ some n
unfolding hex_value hex_digit
hex_value-digit n h = ground arith

hex_number-digit :
    (k d n : ℕ) (s : Text)
    → d < 16
    → k * 16 + d ≡ n
    → hex_number k (hex_digit d ∷ s) ≡ hex_number n s
unfolding hex_number
hex_number-digit k d n s h e = rw (hex_value-digit d h, hex_number) (ap (λ m. hex_number m s) e)

hex_number-hex : (f n : ℕ) (s : Text) → n < f → hex_number 0 (hex_from f n s) ≡ hex_number n s
unfolding hex_from
hex_number-hex zero n s h = absurd (omega arith)
hex_number-hex (suc f) n s h =
    let small : n < 16 → hex_number 0 (hex_digit n ∷ s) ≡ hex_number n s =
      λ b. hex_number-digit 0 n n s b (omega arith) in
    let rest = hex_number-hex f (n / 16) (hex_digit (n % 16) ∷ s) in
    let last = hex_number-digit (n / 16) (n % 16) n s (omega arith) (omega arith) in
    ground (arith, small, rest, last)

hex_number-zeros : (k : ℕ) (s : Text) → hex_number 0 (zeros k ++ s) ≡ hex_number 0 s
unfolding hex_number hex_value zeros
hex_number-zeros zero s = refl
hex_number-zeros (suc k) s = hex_number-zeros k s

abbrev IsHex : ℕ → Type 0
IsHex c = c ≤ 102

hex_from-IsHex : (f n : ℕ) (s : Text) → All IsHex s → All IsHex (hex_from f n s)
unfolding hex_from hex_digit
hex_from-IsHex zero n s h = h
hex_from-IsHex (suc f) n s h = elim (Bool-cases (ltb n 16)) [
  | inl small ↦ rw small (ground arith, h)
  | inr large ↦ rw large (hex_from-IsHex f (n / 16) (hex_digit (n % 16) ∷ s) (ground arith, h))
]

zeros-IsHex : (k : ℕ) → All IsHex (zeros k)
unfolding zeros
zeros-IsHex zero = tt
zeros-IsHex (suc k) = (omega arith, zeros-IsHex k)

occurs-hex : (s : Text) → All IsHex s → occurs (codes "oid:") s ≡ false
unfolding occurs starts_with
occurs-hex [] h = refl
occurs-hex (c ∷ s) h = ground (arith, occurs-hex s h.1)

occurs-hex08 : (s : Text) → All IsHex s → occurs (codes "oid:") (codes "0x" ++ s) ≡ false
unfolding occurs starts_with
occurs-hex08 s h = occurs-hex s h

without-oid :
    (s : Text)
    → All IsHex s
    → without (codes "oid:") (codes "oid:" ++ (codes "0x" ++ s)) ≡ codes "0x" ++ s
unfolding without concat
without-oid s h =
    ap concat (split_on-path b'o' (codes "id:") (codes "0x" ++ s) (occurs-hex08 s h))
    ∙ append-nil (codes "0x" ++ s)

IsCons : Text → Type 0
IsCons s = (c : ℕ) × (t : Text) × (s ≡ c ∷ t)

hex_from-IsCons : (f n c : ℕ) (s : Text) → IsCons (hex_from f n (c ∷ s))
unfolding hex_from IsCons
hex_from-IsCons zero n c s = (c, s, refl)
hex_from-IsCons (suc f) n c s = elim (Bool-cases (ltb n 16)) [
  | inl small ↦ rw small (_, _, refl)
  | inr large ↦ rw large (hex_from-IsCons f (n / 16) (hex_digit (n % 16)) (c ∷ s))
]

hex-IsCons : (n : ℕ) → IsCons (hex_from (suc n) n [])
unfolding hex_from IsCons
hex-IsCons n = elim (Bool-cases (ltb n 16)) [
  | inl small ↦ rw small (_, _, refl)
  | inr large ↦ rw large (hex_from-IsCons n (n / 16) (hex_digit (n % 16)) [])
]

zeros-IsCons : (k : ℕ) (s : Text) → IsCons s → IsCons (zeros k ++ s)
unfolding zeros IsCons
zeros-IsCons zero s h = h
zeros-IsCons (suc k) s h = (_, _, refl)

int0-hex : (s : Text) → IsCons s → int0 (codes "0x" ++ s) ≡ hex_number 0 s
unfolding int0 IsCons
int0-hex s (c, t, e) = rw e refl

-- The text of an object id, in hexadecimal and filled up with zeros, is read as that object id.
pub oid_of-oid_text : (n : ℕ) → oid_of (oid_text n) ≡ ok n
unfolding oid_of oid_text hex08
oid_of-oid_text n =
    let digits = hex_from (suc n) n [] in
    let k = 8 - length digits in
    let low = All-append IsHex (zeros k) digits (zeros-IsHex k) (hex_from-IsHex (suc n) n [] tt) in
    ap int0 (without-oid (zeros k ++ digits) low)
    ∙ int0-hex (zeros k ++ digits) (zeros-IsCons k digits (hex-IsCons n))
    ∙ hex_number-zeros k digits
    ∙ hex_number-hex (suc n) n [] (omega arith)
    ∙ unfold hex_number in refl
