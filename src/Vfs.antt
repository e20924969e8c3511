-- ===== src/Vfs.antt =====
-- The names of files in libc/vfs.cpp, with `isspace` of libc/ctype.cpp. A string is the list of its
-- characters. Not here: the tree of directories and files.
pub mod Clean
mod Tests
use yet_another_project_i_ll.Base.{
  ℕ, Bool, false, ◌&&◌, ◌||◌, List, [], ◌∷◌, ◌==◌, if◌then◌else◌, Outcome, ok, abort, ◌>>=◌, ◌>>◌,
}

abbrev pub path_sep : ℕ
path_sep = 47

-- Space, form feed, new line, carriage return, tab and vertical tab
unfoldable pub isspace : ℕ → Bool
isspace c = c == 32 || c == 12 || c == 10 || c == 13 || c == 9 || c == 11

unfoldable pub is_path_sep : ℕ → Bool
is_path_sep c = c == path_sep

-- The loop of `InplaceLStrip`; `path[0]` of a string that has become empty throws.
unfoldable pub lstrip_rounds : (should_strip : ℕ → Bool) → List ℕ → Outcome (List ℕ)
lstrip_rounds should_strip [] = abort
lstrip_rounds should_strip (c ∷ path) =
    let rest = lstrip_rounds should_strip path in if should_strip c then rest else ok (c ∷ path)

unfoldable pub inplace_lstrip : (should_strip : ℕ → Bool) → List ℕ → Outcome (List ℕ)
inplace_lstrip should_strip [] = ok []
inplace_lstrip should_strip (c ∷ path) = lstrip_rounds should_strip (c ∷ path)

-- What the loop of `InplaceRStrip` leaves of a string. When it has erased all of it, it reads the
-- byte in front of the string.
unfoldable pub rstrip_rounds : (should_strip : ℕ → Bool) → List ℕ → Outcome (List ℕ)
rstrip_rounds should_strip [] = abort
rstrip_rounds should_strip (c ∷ path) = elim (rstrip_rounds should_strip path) [
  | ok rest ↦ ok (c ∷ rest)
  | abort ↦ if should_strip c then abort else ok (c ∷ [])
]

unfoldable pub inplace_rstrip : (should_strip : ℕ → Bool) → List ℕ → Outcome (List ℕ)
inplace_rstrip should_strip [] = ok []
inplace_rstrip should_strip (c ∷ path) = rstrip_rounds should_strip (c ∷ path)

-- Without `./` at the front
unfoldable pub without_dot : List ℕ → List ℕ
without_dot [] = []
without_dot (c ∷ []) = c ∷ []
without_dot (c ∷ d ∷ path) = if c == 46 && d == path_sep then path else c ∷ d ∷ path

abbrev pub is_root : List ℕ → Bool
is_root [] = false
is_root (c ∷ []) = c == path_sep
is_root (c ∷ d ∷ path) = false

unfoldable pub clean_path : List ℕ → Outcome (List ℕ)
clean_path path = do
  left ← inplace_lstrip isspace path
  right ← inplace_rstrip isspace (without_dot left)
  if is_root right then ok right else inplace_rstrip is_path_sep right
