-- ===== src/Core/PurePath.antt =====
-- The parts of a path, as `pathlib` gives them to `cosheaf/core/paths.py` and
-- `cosheaf/core/status.py`. A path is its POSIX text.
use Prim.Native.Char.{Char, code}
use Prim.Native.String
use tcs_cosheaf.Base.{
  String, Bool, false, ◌||◌, List, [], ◌∷◌, str_eq, ◌==◌, if◌then◌else◌, blank, keep, not,
}

abbrev slash_char : String → String
slash_char s = String.◌++◌ "/" s

-- `PureWindowsPath(path).as_posix()` turns each backslash into a slash.
unfoldable pub windows_as_posix : String → String
windows_as_posix String.[] = String.[]
windows_as_posix (String.◌∷◌ c s) =
    let rest = windows_as_posix s in if code c == 92 then slash_char rest else String.◌∷◌ c rest

-- Puts a character in front of the first segment.
abbrev pub push_char : Char → List String → List String
push_char c [] = String.◌∷◌ c String.[] ∷ []
push_char c (s ∷ ss) = String.◌∷◌ c s ∷ ss

-- `path.split("/")`
unfoldable pub split_slash : String → List String
split_slash String.[] = "" ∷ []
split_slash (String.◌∷◌ c s) =
    let rest = split_slash s in if code c == 47 then "" ∷ rest else push_char c rest

unfoldable pub is_segment : String → Bool
is_segment s = not (blank s || str_eq s ".")

unfoldable pub is_rooted : String → Bool
is_rooted String.[] = false
is_rooted (String.◌∷◌ c s) = code c == 47

-- `PurePosixPath(path).parts`: empty segments and `.` are dropped, and a root is a part `/`.
unfoldable pub path_parts : String → List String
unfolding split_slash is_segment is_rooted keep
path_parts path =
    let parts = keep is_segment (split_slash path) in if is_rooted path then "/" ∷ parts else parts
