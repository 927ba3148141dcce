-- ===== src/Telemetry/Path/Strings/Greedy.antt =====
-- What the greedy pattern of `_remove_list_keys` of
-- src/system/telemetry/goldstone/system/telemetry/path.py removes.
use goldstone_mgmt.Base.{
  Bool, if◌then◌else◌, ◌==◌, ℕ, ◌≡◌, refl, true, false, [], ◌∷◌, ◌++◌, nat_eq, arith,
}
use goldstone_mgmt.Base.Text.{Text, split, join, contains}
use goldstone_mgmt.Telemetry.Path.Strings.{after_last, strip_line, strip_lines, remove_list_keys}

contains-append_right : (c : ℕ) (s t : Text) → contains c t ≡ true → contains c (s ++ t) ≡ true
unfolding contains
contains-append_right c [] t h = h
contains-append_right c (d ∷ s) t h = ground (arith, contains-append_right c s t h)

after_last-append : (k b : Text) → contains b']' b ≡ false → after_last (k ++ b']' ∷ b) ≡ b
unfolding after_last contains
after_last-append [] b h = ground arith
after_last-append (c ∷ k) b h =
    ground (arith, after_last-append k b h, contains-append_right b']' k (b']' ∷ b))

strip_line-block :
    (a k b : Text)
    → contains b'[' a ≡ false
    → contains b']' b ≡ false
    → strip_line (a ++ b'[' ∷ (k ++ b']' ∷ b)) ≡ a ++ b
unfolding strip_line contains
strip_line-block [] k b h g =
    ground (arith, after_last-append k b g, contains-append_right b']' k (b']' ∷ b))
strip_line-block (c ∷ a) k b h g = ground (arith, strip_line-block a k b)

split-one : (s : Text) → contains 10 s ≡ false → split 10 s ≡ s ∷ []
unfolding split contains
split-one [] h = refl
split-one (c ∷ s) h = ground (arith, split-one s)

-- In a path of one line everything from its first `[` to its last `]` goes, also when that spans
-- the list keys of several nodes and the names of the nodes between them.
pub remove_list_keys_block :
    (a k b : Text)
    → contains b'[' a ≡ false
    → contains b']' b ≡ false
    → contains 10 (a ++ b'[' ∷ (k ++ b']' ∷ b)) ≡ false
    → remove_list_keys (a ++ b'[' ∷ (k ++ b']' ∷ b)) ≡ a ++ b
unfolding remove_list_keys strip_lines join
remove_list_keys_block a k b h g one = rw (split-one _ one) (strip_line-block a k b h g)

-- A text without its list keys, each from its `[` to the next `]`; the flag says that one is open.
unfoldable pub without_keys : Bool → Text → Text
without_keys b [] = []
without_keys false (c ∷ s) =
    let opened = without_keys true s in
    let rest = without_keys false s in if c == b'[' then opened else c ∷ rest
without_keys true (c ∷ s) =
    let closed = without_keys false s in
    let rest = without_keys true s in if c == b']' then closed else rest

-- A path of one line with the key of one list at most.
pub data HasFewKeys : Text → Type 0 where
  no_key : {q : Text} → contains b'[' q ≡ false → contains 10 q ≡ false → HasFewKeys q
  one_key :
      {q : Text} (a k b : Text)
      → q ≡ a ++ b'[' ∷ (k ++ b']' ∷ b)
      → contains b'[' a ≡ false
      → contains b']' k ≡ false
      → contains b'[' b ≡ false
      → contains b']' b ≡ false
      → contains 10 (a ++ b'[' ∷ (k ++ b']' ∷ b)) ≡ false
      → HasFewKeys q

strip_line-plain : (s : Text) → contains b'[' s ≡ false → strip_line s ≡ s
unfolding strip_line contains
strip_line-plain [] h = refl
strip_line-plain (c ∷ s) h = ground (arith, strip_line-plain s)

without_keys-plain : (s : Text) → contains b'[' s ≡ false → without_keys false s ≡ s
unfolding without_keys contains
without_keys-plain [] h = refl
without_keys-plain (c ∷ s) h = ground (arith, without_keys-plain s)

without_keys-open :
    (k b : Text)
    → contains b']' k ≡ false
    → without_keys true (k ++ b']' ∷ b) ≡ without_keys false b
unfolding without_keys contains
without_keys-open [] b h = ground arith
without_keys-open (c ∷ k) b h = ground (arith, without_keys-open k b)

without_keys-block :
    (a k b : Text)
    → contains b'[' a ≡ false
    → contains b']' k ≡ false
    → contains b'[' b ≡ false
    → without_keys false (a ++ b'[' ∷ (k ++ b']' ∷ b)) ≡ a ++ b
unfolding without_keys contains
without_keys-block [] k b h g p = ground (arith, without_keys-open k b g, without_keys-plain b p)
without_keys-block (c ∷ a) k b h g p = ground (arith, without_keys-block a k b)

-- The greedy pattern takes off just the keys of a path with few of them.
pub remove_list_keys-few : (q : Text) → HasFewKeys q → remove_list_keys q ≡ without_keys false q
unfolding remove_list_keys strip_lines join
remove_list_keys-few q (no_key plain one) =
    rw (split-one q one, strip_line-plain q plain, without_keys-plain q plain) refl
remove_list_keys-few q (one_key a k b same ha hk hb gb one) =
    rw (same, remove_list_keys_block a k b ha gb one, without_keys-block a k b ha hk hb) refl
