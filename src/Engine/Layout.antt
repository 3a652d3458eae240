-- ===== src/Engine/Layout.antt =====
-- internal/engine/layout.go: the name that a torrent's file or folder goes under. A hash is its text in
-- hexadecimal; no layout (a nil pointer) is `none`.
pub mod Apart
use kuro.Base.{
  ℕ, zero, suc, Bool, true, false, not, ◌&&◌, List, [], ◌∷◌, ◌++◌, Option, none, some, Text, text,
  text_eq, any, if◌then◌else◌,
}
use kuro.Base.Maps.{lookup, put, erase}

abbrev pub Tops : Type 0
Tops = List (Text × Text)

abbrev take : ℕ → Text → Text
take zero s = []
take (suc n) [] = []
take (suc n) (c ∷ s) = c ∷ take n s

abbrev pub suffixed : Text → Text → Text
suffixed name hash = name ++ text " [" ++ take 8 hash ++ text "]"

-- Another torrent holds the name.
unfoldable pub taken : Text → Text → Tops → Bool
taken name hash tops = any (λ (p : Text × Text). text_eq p.1 name && not (text_eq p.0 hash)) tops

-- The name for a torrent that has none yet.
unfoldable pub fresh_top : Text → Text → Tops → Text
fresh_top name hash tops = if taken name hash tops then suffixed name hash else name

decide_top : Text → Text → Tops → Option Text → Text × Tops
decide_top name hash tops (some held) = (held, tops)
decide_top name hash tops none =
    (fresh_top name hash tops, put hash (fresh_top name hash tops) tops)

unfoldable pub top : Text → Text → Option Tops → Text × Option Tops
unfolding decide_top
top name hash none = (name, none)
top name hash (some tops) =
    let (t, tops') = decide_top name hash tops (lookup hash tops) in (t, some tops')

unfoldable pub claim : Text → Text → Option Tops → Option Tops
claim hash name none = none
claim hash name (some tops) = if text_eq name [] then some tops else some (put hash name tops)

unfoldable pub forget : Text → Option Tops → Option Tops
forget hash none = none
forget hash (some tops) = some (erase hash tops)
