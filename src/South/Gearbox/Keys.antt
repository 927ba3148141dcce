-- ===== src/South/Gearbox/Keys.antt =====
-- The key of a static MACSEC in src/south/gearbox/goldstone/south/gearbox/interfaces.py.
pub mod Words
use goldstone_mgmt.Base.{ℕ, zero, suc, ◌+◌, ◌*◌, List, [], ◌∷◌, Result, ok, err, Exn, other, map}
use goldstone_mgmt.Base.Text.{Text, join, show}
use goldstone_mgmt.South.Gearbox.{Platform}

-- struct.error
abbrev pub struct_error : Exn
struct_error = other 0

-- struct.unpack("IIII", b), where the native order is little-endian
unfoldable pub word : ℕ → ℕ → ℕ → ℕ → ℕ
word a b c d = a + 256 * b + 65536 * c + 16777216 * d

unfoldable pub words : ℕ → List ℕ → Result (List ℕ)
unfolding word
words zero [] = ok []
words zero (a ∷ l) = err struct_error
words (suc n) (a ∷ b ∷ c ∷ d ∷ l) = elim (words n l) [
  | err e ↦ err e
  | ok ws ↦ ok (word a b c d ∷ ws)
]
words (suc n) _ = err struct_error

unfoldable pub unpack : List ℕ → Result (List ℕ)
unfolding words
unpack b = words 4 b

-- ",".join((str(i) for i in v))
unfoldable pub key_text : List ℕ → Text
key_text ws = join b',' (map show ws)

-- the key in taish's words; an empty one stays empty
unfoldable pub macsec_key : Platform → Text → Result Text
unfolding unpack key_text
macsec_key P [] = ok []
macsec_key P (c ∷ v) = elim (P.b64decode (c ∷ v)) [
  | err e ↦ err e
  | ok bytes ↦ elim (unpack bytes) [ err e ↦ err e | ok ws ↦ ok (key_text ws) ]
]
