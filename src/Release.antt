-- ===== src/Release.antt =====
-- internal/parse: the parsed release (release.go) and the subtitle test on it (language.go). How a
-- name is parsed is not modelled: a release is a value of this record.
use kuro.Base.{ℕ, Bool, false, true, List, [], ◌∷◌, Text, equal_fold, if◌then◌else◌}

pub record Release : Type 0 where
  pub raw : Text
  pub title : Text
  pub group : Text
  pub season : ℕ
  pub part : ℕ
  pub episode : ℕ
  pub episode_end : ℕ
  pub version : ℕ
  pub resolution : Text
  pub source : Text
  pub codec : Text
  pub bit_depth : ℕ
  pub audio : List Text
  pub dual_audio : Bool
  pub subtitles : List Text
  pub hard_sub : Bool
  pub batch : Bool
  pub crc32 : Text
  pub extension : Text

one_of : Text → List Text → Bool
one_of want [] = false
one_of want (got ∷ rest) = if equal_fold want got then true else one_of want rest

-- The double loop: some wanted language is among the release's.
unfoldable pub has_subtitle_language : Release → List Text → Bool
unfolding one_of
has_subtitle_language r [] = false
has_subtitle_language r (want ∷ langs) =
    if one_of want r.subtitles then true else has_subtitle_language r langs
