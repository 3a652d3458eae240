-- ===== src/Score/Specs.antt =====
-- internal/score/specs.go: the rules that refuse a release.
use kuro.Base.{
  ℕ, Bool, true, false, not, ◌&&◌, ◌||◌, List, [], ◌∷◌, ◌++◌, String, Text, text, text_eq, to_lower,
  ltb, ◌==◌, if◌then◌else◌, map,
}
use kuro.Regex.{
  Regex, one, many, seq, end_text, match_fold, word, literal, choice, whole_word, is_digit,
  is_space,
}
use kuro.Score.Float.{Float}
use kuro.Strings.{trim_space}
use kuro.Score.Tier.{Preferences}
use kuro.Score.Candidate.{Candidate, audio_mismatch, size_limit, episode_bytes}

pub record Rejection : Type 0 where
  pub rule : Text
  pub reason : Text

pub record Spec : Type 0 where
  pub name : Text
  pub tier : ℕ
  -- The reason, empty if the spec has nothing against the release.
  pub reject : Candidate → Preferences → Text

abbrev pub tier_unplayable : ℕ
tier_unplayable = 1

abbrev pub tier_wrong_thing : ℕ
tier_wrong_thing = 2

abbrev pub tier_hardware : ℕ
tier_hardware = 3

abbrev pub tier_policy : ℕ
tier_policy = 4

disc_image : Regex
disc_image = whole_word (
    choice (
      word "bdmv"
      ∷ word "dvdiso"
      ∷ word "bdiso"
      ∷ word "iso"
      ∷ seq (word "disc") (seq (many is_space) (many is_digit))
      ∷ seq (word "avc") (seq (one is_space) (seq (many is_space) (word "dts-hd")))
      ∷ []))

sample_file : Regex
sample_file = whole_word (word "sample")

abbrev not_video_extensions : List Text
not_video_extensions = map text (
    "gxs" ∷ "xdelta" ∷ "zip" ∷ "rar" ∷ "7z" ∷ "ass" ∷ "ssa" ∷ "srt" ∷ "sub" ∷ "idx" ∷ "mka" ∷ "flac"
    ∷ "mp3" ∷ "ogg" ∷ "pdf" ∷ "txt" ∷ "nfo" ∷ "exe" ∷ "iso" ∷ [])

not_video : Regex
not_video = seq (word ".") (seq (choice (map literal not_video_extensions)) end_text)

-- `strings.Contains` of a non-empty word.
starts_with : Text → Text → Bool
starts_with [] s = true
starts_with (c ∷ p) [] = false
starts_with (c ∷ p) (d ∷ s) = c == d && starts_with p s

unfoldable pub contains_text : Text → Text → Bool
unfolding starts_with
contains_text p [] = starts_with p []
contains_text p (d ∷ s) = if starts_with p (d ∷ s) then true else contains_text p s

unfoldable pub is_raw : Candidate → Bool
is_raw c =
    text_eq c.release.extension (text "ts")
    || contains_text (text "raw") (to_lower c.torrent.category)

abbrev when : Bool → String → Text
when b reason = if b then text reason else []

unfoldable pub specs : Float → List Spec
unfolding disc_image sample_file not_video
specs fl =
    record {
      name = text "wrong show";
      tier = tier_wrong_thing;
      reject = λ c prefs. when c.wrong_show "names a different show";
    }
    ∷ record {
      name = text "wrong film";
      tier = tier_wrong_thing;
      reject = λ c prefs. when c.wrong_film "a different film of the series";
    }
    ∷ record {
      name = text "seeders";
      tier = tier_unplayable;
      reject = λ c prefs. when (c.torrent.seeders_known && c.torrent.seeders == 0) "no seeders";
    }
    ∷ record {
      name = text "disc image";
      tier = tier_unplayable;
      reject = λ c prefs.
          when (match_fold disc_image c.torrent.title) "disc image rather than an episode file";
    }
    ∷ record {
      name = text "not a video";
      tier = tier_unplayable;
      reject =
          λ c prefs. when (match_fold not_video (trim_space c.torrent.title)) "not a video file";
    }
    ∷ record {
      name = text "sample";
      tier = tier_unplayable;
      reject = λ c prefs. when (match_fold sample_file c.torrent.title) "sample clip";
    }
    ∷ record {
      name = text "raw";
      tier = tier_wrong_thing;
      reject =
          λ c prefs. if prefs.allow_raw then [] else when (is_raw c) "raw capture, no subtitles";
    }
    ∷ record {
      name = text "audio";
      tier = tier_wrong_thing;
      reject = λ c prefs.
          if not (audio_mismatch c.release prefs.audio)
          then []
          else if text_eq prefs.audio (text "dub")
          then text "no English dub"
          else text "English dub only";
    }
    ∷ record {
      name = text "hi10p";
      tier = tier_hardware;
      reject = λ c prefs.
          when
            (not prefs.allow_hi10p
              && text_eq c.release.codec (text "H264")
              && c.release.bit_depth == 10)
            "10-bit H.264 has no hardware decode";
    }
    ∷ record {
      name = text "size";
      tier = tier_policy;
      reject = λ c prefs.
          when (ltb 0 prefs.max_auto_bytes && ltb (size_limit fl c prefs) (episode_bytes c))
            "larger than the automatic size limit";
    }
    ∷ []

abbrev pub is_nil {ℓ} : {A : Type ℓ} → List A → Bool
is_nil [] = true
is_nil (_ ∷ _) = false

-- The loop of `evaluateSpecs` over the specs that are left.
unfoldable pub evaluate_loop :
    List Spec → Candidate → Preferences → List Rejection → ℕ → List Rejection
evaluate_loop [] c prefs out tier = out
evaluate_loop (s ∷ rest) c prefs out tier =
    let reason = s.reject c prefs in
    let skips = is_nil reason in
    let next =
      evaluate_loop rest c prefs
        (if skips then out else out ++ record { rule = s.name; reason = reason } ∷ [])
        (if not skips && is_nil out then s.tier else tier) in
    if not (is_nil out) && not (s.tier == tier) then out else next

unfoldable pub evaluate_specs : Float → Candidate → Preferences → List Rejection
unfolding evaluate_loop
evaluate_specs fl c prefs = evaluate_loop (specs fl) c prefs [] 0

unfoldable pub unwanted : Candidate → Preferences → Bool
unwanted c prefs = not prefs.allow_raw && is_raw c || audio_mismatch c.release prefs.audio

all_raw : List Rejection → Bool
all_raw [] = true
all_raw (r ∷ rest) = if not (text_eq r.rule (text "raw")) then false else all_raw rest

-- `RejectedOnlyAsRaw`, on the rejections of a result.
unfoldable pub rejected_only_as_raw : List Rejection → Bool
unfolding all_raw
rejected_only_as_raw rejections = if is_nil rejections then false else all_raw rejections
