-- ===== src/Score/Tests.antt =====
-- Runs of the score on small candidates, over whole numbers in place of float64 values.
use mathlib.Core.List.Pairwise
use mathlib.Core.List.{Pairwise, Pairwise-singleton, forall_mem-cons, not-mem-nil}
use kuro.Base.{
  ℕ, ◌∙◌, ◌+◌, ◌*◌, ◌-◌, ◌/◌, ◌≡◌, ◌⊎◌, refl, Bool, true, false, [], ◌∷◌, none, some, Text, text,
  text_eq, to_lower, equal_fold, ltb, Mem, arith,
}
use kuro.Regex.{match_fold, ends, is_word, is_space}
use kuro.Strings.{trim_space}
use kuro.Release.{Release, has_subtitle_language}
use kuro.Score.Float.{Float}
use kuro.Score.Tier.{Preferences, tier_matches}
use kuro.Score.Candidate.{
  Candidate, audio_mismatch, size_limit, episode_bytes, share_count, dubbed, subbed, dual_audi,
}
use kuro.Score.Specs.{evaluate_specs, specs, is_nil, is_raw, contains_text}
use kuro.Score.Evaluate.{Result, evaluate, resolution_rank}
use kuro.Score.Evaluate.Laws.{evaluate-auto_pick}
use kuro.Score.Rank.{sink, insert_all, better, rank, best, evaluate_all}
use kuro.Score.Sort.{IsRanked}
use kuro.Score.Ranking.{rank-IsRanked, best-eq_some}
use kuro.Score.Acceptance.{IsSafe, auto_pick-IsSafe}

ltb_irrefl : (x : ℕ) → ltb x x ≡ false
ltb_irrefl x = ground arith

ltb_trans : (x y z : ℕ) → ltb x y ≡ true → ltb y z ≡ true → ltb x z ≡ true
ltb_trans x y z h k = ground arith

ltb_between : (x y z : ℕ) → ltb x z ≡ true → (ltb x y ≡ true) ⊎ (ltb y z ≡ true)
ltb_between x y z h = ground arith

abbrev whole : Float
whole = record {
  F = ℕ;
  ratio = λ n d. n / d;
  add = λ x y. x + y;
  sub = λ x y. x - y;
  mul = λ x y. x * y;
  div = λ x y. x / y;
  log1p = λ x. x;
  truncate = λ x. x;
  lt = λ x y. ltb x y;
  lt_irrefl = ltb_irrefl;
  lt_trans = ltb_trans;
  lt_between = ltb_between;
}

abbrev release_of : Text → Bool → ℕ → Release
release_of codec batch depth = record {
  raw = text "[Group] Show - 01";
  title = text "Show";
  group = text "Group";
  season = 1;
  part = 0;
  episode = 1;
  episode_end = 0;
  version = 1;
  resolution = text "1080p";
  source = text "WEB";
  codec = codec;
  bit_depth = depth;
  audio = [];
  dual_audio = false;
  subtitles = [];
  hard_sub = false;
  batch = batch;
  crc32 = [];
  extension = text "mkv";
}

abbrev candidate_of : Release → ℕ → Candidate
candidate_of r seeders = record {
  torrent = record {
    title = text "[Group] Show - 01";
    size = 1000;
    seeders = seeders;
    seeders_known = true;
    category = text "1_2";
    trusted = true;
  };
  release = r;
  sea_dex_best = false;
  sea_dex_group = false;
  total_episodes = 12;
  runtime_minutes = 24;
  confirmed = false;
  wrong_show = false;
  film = none;
  wrong_film = false;
}

abbrev wanted : Candidate
wanted = candidate_of (release_of (text "HEVC") false 8) 40

abbrev dead : Candidate
dead = candidate_of (release_of (text "H264") false 8) 0

abbrev pack : Candidate
pack = candidate_of (release_of (text "H264") true 8) 40

abbrev prefs : Preferences
prefs = record {
  ladder = [];
  max_auto_bytes = 5000;
  allow_hi10p = false;
  prefer_groups = [];
  audio = text "sub";
  allow_raw = false;
  sub_languages = text "en" ∷ [];
  hardware_transcode = false;
}

accepts : is_nil (evaluate_specs whole wanted prefs) ≡ true
unfolding evaluate_specs specs match_fold audio_mismatch is_raw size_limit episode_bytes text_eq
    to_lower ends dual_audi subbed dubbed equal_fold contains_text is_word is_space
    mathlib.Core.List.flat_map trim_space
accepts = refl

starts_itself : (evaluate whole wanted prefs).auto_pick ≡ true
starts_itself = (evaluate-auto_pick whole wanted prefs).0 ∙ accepts

wanted_is_best : best whole (dead ∷ wanted ∷ []) prefs ≡ some (evaluate whole wanted prefs)
unfolding evaluate_specs specs match_fold audio_mismatch is_raw size_limit episode_bytes text_eq
    to_lower ends dual_audi subbed dubbed equal_fold contains_text is_word is_space
    mathlib.Core.List.flat_map trim_space evaluate best rank better has_subtitle_language
    tier_matches resolution_rank share_count insert_all sink
wanted_is_best = refl

wanted_first : better whole (evaluate whole dead prefs) (evaluate whole wanted prefs) ≡ false
unfolding evaluate_specs specs match_fold audio_mismatch is_raw size_limit episode_bytes text_eq
    to_lower ends dual_audi subbed dubbed equal_fold contains_text is_word is_space
    mathlib.Core.List.flat_map trim_space evaluate best rank better has_subtitle_language
    tier_matches resolution_rank share_count
wanted_first = refl

auto_pick-IsSafe_example : IsSafe wanted prefs whole
auto_pick-IsSafe_example = auto_pick-IsSafe wanted prefs whole starts_itself

rank-IsRanked_example : IsRanked (better whole) (rank whole (dead ∷ pack ∷ wanted ∷ []) prefs)
rank-IsRanked_example =
    rank-IsRanked whole false (dead ∷ pack ∷ wanted ∷ []) prefs (refl, (refl, (refl, tt)))

best-eq_some_example :
    let r = evaluate whole wanted prefs in
    (r.auto_pick ≡ true)
    × Mem r (evaluate_all whole (dead ∷ wanted ∷ []) prefs)
    × ((q : Result whole)
        → Mem q (evaluate_all whole (dead ∷ wanted ∷ []) prefs)
        → better whole q r ≡ false)
best-eq_some_example =
    best-eq_some whole false (dead ∷ wanted ∷ []) prefs (refl, (refl, tt))
      (evaluate whole wanted prefs) wanted_is_best
