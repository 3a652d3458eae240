-- ===== src/Video.antt =====
-- internal/parse/video.go: which files are videos, and the name of a file without its folder.
use kuro.Base.{
  Bool, true, false, ◌&&◌, List, [], ◌∷◌, map, reverse, Option, none, some, Text, text, to_lower,
  any, ◌==◌, if◌then◌else◌,
}

abbrev pub video_ext : List Text
video_ext =
    map text (
      ".mkv" ∷ ".mp4" ∷ ".avi" ∷ ".ts" ∷ ".m2ts" ∷ ".webm" ∷ ".mov" ∷ ".m4v" ∷ ".ogm" ∷ ".wmv" ∷ [])

has_prefix : Text → Text → Bool
has_prefix [] s = true
has_prefix (c ∷ p) [] = false
has_prefix (c ∷ p) (d ∷ s) = c == d && has_prefix p s

-- `strings.HasSuffix(s, ext)`
unfoldable pub has_suffix : Text → Text → Bool
unfolding has_prefix
has_suffix s ext = has_prefix (reverse ext) (reverse s)

unfoldable pub is_video : Text → Bool
unfolding has_suffix
is_video name = any (has_suffix (to_lower name)) video_ext

-- What follows the last slash; a backslash counts as one.
last_element : Text → Text → Text
last_element so_far [] = so_far
last_element so_far (c ∷ s) = last_element (if c == b'/' then s else so_far) s

-- What stands before the last dot; none without a dot.
before_dot : Text → Option Text
before_dot [] = none
before_dot (c ∷ s) =
    let rest = before_dot s in
    elim rest [ some t ↦ some (c ∷ t) | none ↦ if c == b'.' then some [] else none ]

-- A dot at the very start does not begin an extension.
without_extension : Text → Text
unfolding before_dot
without_extension path = elim (before_dot path) [
  | none ↦ path
  | some [] ↦ path
  | some (c ∷ t) ↦ c ∷ t
]

unfoldable pub base_name : Text → Text
unfolding last_element without_extension
base_name path =
    let p = map (λ c. if c == b'\\' then b'/' else c) path in without_extension (last_element p p)
