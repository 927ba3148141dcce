-- ===== src/South/Gearbox/Keys/Words.antt =====
-- What a MACSEC key's text says, in src/south/gearbox/goldstone/south/gearbox/interfaces.py.
use goldstone_mgmt.Base.{ℕ, ◌/◌, ◌%◌, ◌<◌, List, [], ◌∷◌, ◌++◌, nat_eq}
use goldstone_mgmt.Base.Text.{Text}

-- the four bytes of a word, the lowest first
pub bytes_of : ℕ → List ℕ
bytes_of w = w % 256 ∷ w / 256 % 256 ∷ w / 65536 % 256 ∷ w / 16777216 ∷ []

pub all_bytes : List ℕ → List ℕ
unfolding bytes_of
all_bytes [] = []
all_bytes (w ∷ ws) = bytes_of w ++ all_bytes ws

abbrev pub IsByte : ℕ → Type 0
IsByte n = n < 256

abbrev pub IsWord : ℕ → Type 0
IsWord n = n < 4294967296
