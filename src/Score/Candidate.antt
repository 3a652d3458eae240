-- ===== src/Score/Candidate.antt =====
-- internal/score/score.go: a candidate torrent, its size and the audio it carries. The torrent is
-- that of internal/indexer/indexer.go, with the fields that the score reads; of internal/film's key
-- it reads the number of films.
use kuro.Base.{
  ℕ, ◌+◌, ◌-◌, ◌/◌, Bool, false, not, ◌&&◌, ◌||◌, [], ◌∷◌, Option, none, some, Text, text, text_eq,
  ltb, leb, ◌==◌, if◌then◌else◌,
}
use kuro.Regex.{Regex, seq, match_fold, word, optional, choice, separator, whole_word}
use kuro.Release.{Release}
use kuro.Score.Float.{Float, of_ℕ}
use kuro.Score.Tier.{Preferences}

pub record Torrent : Type 0 where
  pub title : Text
  pub size : ℕ
  -- A count of a feed; a negative one is left out of the model.
  pub seeders : ℕ
  pub seeders_known : Bool
  pub category : Text
  pub trusted : Bool

pub record Candidate : Type 0 where
  pub torrent : Torrent
  pub release : Release
  pub sea_dex_best : Bool
  pub sea_dex_group : Bool
  pub total_episodes : ℕ
  pub runtime_minutes : ℕ
  pub confirmed : Bool
  pub wrong_show : Bool
  -- The number of films of the series, for one film of a film series.
  pub film : Option ℕ
  pub wrong_film : Bool

unfoldable pub dubbed : Regex
dubbed = whole_word (
    choice (
      word "dub"
      ∷ word "dubbed"
      ∷ seq (word "english") (seq separator (word "dub"))
      ∷ seq (word "eng") (seq separator (word "dub"))
      ∷ []))

unfoldable pub subbed : Regex
subbed = whole_word (
    choice (
      word "sub"
      ∷ word "subbed"
      ∷ word "softsub"
      ∷ word "hardsub"
      ∷ seq (word "multi") (seq separator (seq (word "sub") (optional (word "s"))))
      ∷ seq (word "eng") (seq separator (seq (word "sub") (optional (word "s"))))
      ∷ []))

unfoldable pub dual_audi : Regex
dual_audi = whole_word (seq (word "dual") (seq separator (word "audio")))

unfoldable pub audio_mismatch : Release → Text → Bool
audio_mismatch rel want =
    if text_eq want [] || text_eq want (text "either")
    then false
    else if rel.dual_audio || match_fold dual_audi rel.raw
    then false
    else if text_eq want (text "dub")
    then not (match_fold dubbed rel.raw)
    else if text_eq want (text "sub")
    then match_fold dubbed rel.raw && not (match_fold subbed rel.raw)
    else false

abbrev pub nominal_runtime : ℕ
nominal_runtime = 24

unfoldable pub size_limit : Float → Candidate → Preferences → ℕ
size_limit fl c prefs =
    if prefs.max_auto_bytes == 0 || leb c.runtime_minutes nominal_runtime
    then prefs.max_auto_bytes
    else let scaled =
        fl.div (fl.mul (of_ℕ fl prefs.max_auto_bytes) (of_ℕ fl c.runtime_minutes))
          (of_ℕ fl nominal_runtime) in
      let limit = fl.truncate scaled in
      if ltb prefs.max_auto_bytes limit then limit else prefs.max_auto_bytes

-- The episodes that a pack's size is shared among. `end - start + 1` may be negative in the code;
-- it is cut off at 0 here, and both are below 2.
unfoldable pub share_count : Candidate → ℕ
share_count c =
    let count = c.release.episode_end + 1 - c.release.episode in
    if ltb count 2 then c.total_episodes else count

unfoldable pub episode_bytes : Candidate → ℕ
episode_bytes c = elim c.film [
  | some count ↦ if c.release.batch && ltb 1 count then c.torrent.size / count else c.torrent.size
  | none ↦
      if not c.release.batch && ltb 0 c.release.episode
      then c.torrent.size
      else if ltb (share_count c) 2
      then c.torrent.size
      else c.torrent.size / share_count c
]
