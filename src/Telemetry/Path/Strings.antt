-- ===== src/Telemetry/Path/Strings.antt =====
-- The text functions of src/system/telemetry/goldstone/system/telemetry/path.py.
pub mod Greedy
use goldstone_mgmt.Base.{
  ℕ, Bool, true, false, List, [], ◌∷◌, ◌++◌, if◌then◌else◌, ◌==◌, nat_eq, Option, none, some,
}
use goldstone_mgmt.Base.Text.{Text, split, join, contains}

-- What follows the last `]`.
unfoldable pub after_last : Text → Text
after_last [] = []
after_last (c ∷ s) =
    let rest = after_last s in if contains b']' s then rest else if c == b']' then s else c ∷ s

-- re.sub(r"\[.*.*\]", "", line) in one line: the greedy pattern takes everything from the first `[`
-- up to the last `]` behind it.
unfoldable pub strip_line : Text → Text
strip_line [] = []
strip_line (c ∷ s) =
    let rest = strip_line s in
    if c == b'[' then (if contains b']' s then after_last s else c ∷ s) else c ∷ rest

unfoldable pub strip_lines : List Text → List Text
strip_lines [] = []
strip_lines (l ∷ ls) = strip_line l ∷ strip_lines ls

-- `.` matches everything but a line feed.
unfoldable pub remove_list_keys : Text → Text
remove_list_keys path = join 10 (strip_lines (split 10 path))

-- s.split(":")[0]
unfoldable pub first_part : Text → Text
first_part [] = []
first_part (c ∷ s) = let rest = first_part s in if c == b':' then [] else c ∷ rest

-- s.split(":")[-1]
unfoldable pub last_part : Text → Text
last_part [] = []
last_part (c ∷ s) =
    let rest = last_part s in if contains b':' s then rest else if c == b':' then s else c ∷ s
