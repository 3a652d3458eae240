-- ===== src/Score/Tier.antt =====
-- internal/score/score.go: the quality ladder and the viewer's preferences.
use kuro.Base.{
  ℕ, ◌*◌, ◌^◌, Bool, true, false, not, ◌&&◌, ◌||◌, List, [], ◌∷◌, Text, text, text_eq, to_lower,
  equal_fold, ◌==◌, if◌then◌else◌,
}
use kuro.Regex.{is_digit}
use kuro.Strings.{split_on, trim_space, to_upper, digits_value}
use kuro.Release.{Release}

pub record Tier : Type 0 where
  pub resolution : Text
  pub source : Text
  pub codec : Text
  pub bit_depth : ℕ

all_digits : Text → Bool
unfolding is_digit
all_digits [] = true
all_digits (c ∷ s) = is_digit c && all_digits s

unfoldable pub is_digits : Text → Bool
unfolding all_digits
is_digits [] = false
is_digits (c ∷ s) = all_digits (c ∷ s)

unfoldable pub canonical_source : Text → Text
canonical_source s =
    let l = to_lower s in
    if text_eq l (text "bdremux")
    then text "BDRemux"
    else if text_eq l (text "bd")
    then text "BD"
    else if text_eq l (text "web")
    then text "WEB"
    else if text_eq l (text "tv")
    then text "TV"
    else if text_eq l (text "dvd")
    then text "DVD"
    else s

is_source : Text → Bool
is_source part =
    equal_fold part (text "BD")
    || equal_fold part (text "WEB")
    || equal_fold part (text "BDRemux")
    || equal_fold part (text "TV")
    || equal_fold part (text "DVD")

is_codec : Text → Bool
is_codec part =
    equal_fold part (text "HEVC")
    || equal_fold part (text "H264")
    || equal_fold part (text "AV1")
    || equal_fold part (text "VP9")

-- One round of the loop of `ParseTier`.
read_part : Tier → Text → Tier
unfolding is_source is_codec is_digits canonical_source
read_part t part =
    if text_eq part []
    then t
    else if is_source part
    then record t { source = canonical_source part }
    else if is_codec part
    then record t { codec = to_upper part }
    else if is_digits part
    then (let n = digits_value part in if n == 8 || n == 10 then record t { bit_depth = n } else t)
    else record t { resolution = to_lower part }

read_parts : Tier → List Text → Tier
unfolding read_part
read_parts t [] = t
read_parts t (p ∷ ps) = read_parts (read_part t (trim_space p)) ps

unfoldable pub parse_tier : Text → Tier
unfolding read_parts
parse_tier s =
    read_parts (record { resolution = []; source = []; codec = []; bit_depth = 0 })
      (split_on b':' s)

unfoldable pub tier_matches : Tier → Release → Bool
tier_matches t r =
    if not (text_eq t.resolution []) && not (equal_fold t.resolution r.resolution)
    then false
    else if not (text_eq t.source []) && not (equal_fold t.source r.source)
    then false
    else if not (text_eq t.codec []) && not (equal_fold t.codec r.codec)
    then false
    else if not (t.bit_depth == 0) && not (t.bit_depth == r.bit_depth)
    then false
    else true

-- `MaxAutoBytes` is an int64 that only counts if it is positive, so it is a number here.
pub record Preferences : Type 0 where
  pub ladder : List Tier
  pub max_auto_bytes : ℕ
  pub allow_hi10p : Bool
  pub prefer_groups : List Text
  pub audio : Text
  pub allow_raw : Bool
  pub sub_languages : List Text
  pub hardware_transcode : Bool

unfoldable pub needs_software_transcode : Release → Bool
needs_software_transcode rel =
    if text_eq rel.codec (text "HEVC")
    then true
    else if text_eq rel.codec (text "H264")
    then rel.bit_depth == 10
    else false

unfoldable pub default_preferences : Preferences
unfolding parse_tier
default_preferences = record {
  ladder =
      parse_tier (text "1080p:BD:HEVC:10")
      ∷ parse_tier (text "1080p:BD")
      ∷ parse_tier (text "1080p:WEB")
      ∷ parse_tier (text "720p")
      ∷ [];
  max_auto_bytes = 3 * 2 ^ 30;
  allow_hi10p = false;
  prefer_groups = [];
  audio = text "sub";
  allow_raw = false;
  sub_languages = text "en" ∷ [];
  hardware_transcode = false;
}
