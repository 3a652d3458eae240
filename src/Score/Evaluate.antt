-- ===== src/Score/Evaluate.antt =====
-- internal/score/score.go: `evaluate`, which turns a candidate into a scored result. Its stages are
-- functions from result to result, in the order of the code.
pub mod Laws
use kuro.Base.{
  ℕ, suc, ◌+◌, ◌-◌, Bool, true, false, not, ◌&&◌, ◌||◌, List, [], ◌∷◌, ◌++◌, Text, text, text_eq,
  to_lower, equal_fold, length, ltb, ◌==◌, if◌then◌else◌,
}
use kuro.Release.{Release, has_subtitle_language}
use kuro.Score.Float.{Float, of_ℕ, smaller}
use kuro.Score.Tier.{Tier, Preferences, tier_matches, needs_software_transcode}
use kuro.Score.Candidate.{Candidate}
use kuro.Score.Specs.{Rejection, evaluate_specs, is_nil}

-- The texts that `add` and `addf` append, with what they print.
pub data Reason : Type 0 where
  software_transcoding : Reason
  unlabelled_source : Text → Reason
  sea_dex_best : Reason
  sea_dex_group : Reason
  preferred_group : Text → Reason
  subtitles_in : List Text → Reason
  subtitles_only_in : List Text → Reason
  hardsubbed : Reason
  trusted_uploader : Reason
  dual_audio : Reason
  batch : Reason
  episode_not_stated : Reason
  swarm_unknown : Reason
  seeders : ℕ → Reason
  few_seeders : Reason
  quality_tier : ℕ → Reason

pub record Result (fl : Float) : Type 0 where
  pub candidate : Candidate
  pub score : fl.F
  pub reasons : List Reason
  pub playable : Bool
  pub auto_pick : Bool
  pub blocked : Text
  pub rejections : List Rejection
  pub res_rank : fl.F
  pub unreadable : Bool

abbrev pub thin_swarm : ℕ
thin_swarm = 5

module _ (fl : Float) where
  open fl use {F, ratio, add, sub, mul, log1p, lt}

  abbrev num : ℕ → F
  num n = of_ℕ fl n

  -- The loop of `resolutionRank`: the tiers seen, the rank found last, and the tiers left. The rank
  -- of a tier is the number of tiers from it to the end.
  rank_loop : Text → ℕ → F → List Tier → ℕ × F
  rank_loop res seen rank [] = (seen, rank)
  rank_loop res seen rank (tier ∷ rest) =
      let skips = text_eq tier.resolution [] in
      rank_loop res (if skips then seen else suc seen)
        (if not skips && text_eq tier.resolution res then num (suc (length rest)) else rank) rest

  unfoldable pub resolution_rank : Text → Preferences → F
  unfolding rank_loop
  resolution_rank res prefs =
      let (seen, rank) = rank_loop (to_lower res) 0 (num 0) prefs.ladder in
      if text_eq (to_lower res) []
      then num 0
      else if lt (num 0) rank
      then rank
      else if seen == 0
      then num 0
      else ratio 1 2

  abbrev add_reason : Reason → Result fl → Result fl
  add_reason reason r = record r { reasons = r.reasons ++ reason ∷ [] }

  abbrev gain : F → Result fl → Result fl
  gain x r = record r { score = add r.score x }

  abbrev lose : F → Result fl → Result fl
  lose x r = record r { score = sub r.score x }

  -- `applyLadder` from tier `i` on, else `otherwise`.
  apply_ladder : Release → ℕ → List Tier → Result fl → Result fl → Result fl
  apply_ladder rel i [] r otherwise = otherwise
  apply_ladder rel i (tier ∷ rest) r otherwise =
      if tier_matches tier rel
      then add_reason (quality_tier (i + 1)) (gain (mul (num (suc (length rest))) (num 100)) r)
      else apply_ladder rel (suc i) rest r otherwise

  -- What `evaluate` does when no tier of the ladder matches.
  unlabelled : Release → Preferences → Result fl → Result fl
  unlabelled rel prefs r =
      let rank = resolution_rank rel.resolution prefs in
      if lt (num 0) rank
      then add_reason (unlabelled_source rel.resolution)
          (gain (mul (mul rank (num 100)) (ratio 6 10)) r)
      else r

  sea_dex : Candidate → Result fl → Result fl
  sea_dex c r =
      if c.sea_dex_best
      then add_reason sea_dex_best (gain (num 260) r)
      else if c.sea_dex_group
      then add_reason sea_dex_group (gain (num 90) r)
      else r

  prefer_group : List Text → Text → Result fl → Result fl
  prefer_group [] group r = r
  prefer_group (g ∷ gs) group r =
      if equal_fold g group
      then add_reason (preferred_group group) (gain (num 70) r)
      else prefer_group gs group r

  apply_subtitles : Release → Preferences → Result fl → Result fl
  apply_subtitles rel prefs r =
      if is_nil prefs.sub_languages || is_nil rel.subtitles
      then r
      else if has_subtitle_language rel prefs.sub_languages
      then add_reason (subtitles_in rel.subtitles) (gain (num 15) r)
      else (let r' = record (lose (num 170) r) {
        unreadable = true;
        reasons = r.reasons ++ subtitles_only_in rel.subtitles ∷ [];
      } in
          if rel.hard_sub then add_reason hardsubbed (lose (num 60) r') else r')

  apply_uploader : Candidate → Result fl → Result fl
  apply_uploader c r =
      if c.torrent.trusted then add_reason trusted_uploader (gain (num 25) r) else r

  apply_dual_audio : Release → Result fl → Result fl
  apply_dual_audio rel r = if rel.dual_audio then add_reason dual_audio (gain (num 5) r) else r

  apply_scope : Release → Result fl → Result fl
  apply_scope rel r =
      if rel.batch
      then add_reason batch (lose (num 15) r)
      else if rel.episode == 0
      then add_reason episode_not_stated (lose (num 25) r)
      else r

  apply_seeders : Candidate → Result fl → Result fl
  apply_seeders c r =
      if not c.torrent.seeders_known
      then add_reason swarm_unknown r
      else if ltb 0 c.torrent.seeders
      then (let bonus = smaller fl (mul (log1p (num c.torrent.seeders)) (num 22)) (num 50) in
          let r' = add_reason (seeders c.torrent.seeders) (gain bonus r) in
          if ltb c.torrent.seeders thin_swarm
          then add_reason few_seeders (lose (num 30) r')
          else r')
      else r

  at_least_zero : Result fl → Result fl
  at_least_zero r = if lt r.score (num 0) then record r { score = num 0 } else r

  -- The literal that `evaluate` starts from, with the playability and the rejections.
  first_result : Candidate → Preferences → Result fl
  first_result c prefs =
      let rejections = evaluate_specs fl c prefs in
      let playable = prefs.hardware_transcode || not (needs_software_transcode c.release) in
      record {
        candidate = c;
        score = num 0;
        reasons = if playable then [] else software_transcoding ∷ [];
        playable = playable;
        auto_pick = is_nil rejections;
        blocked = elim rejections [ [] ↦ [] | first ∷ _ ↦ first.reason ];
        rejections = rejections;
        res_rank = resolution_rank c.release.resolution prefs;
        unreadable = false;
      }

  unfoldable pub evaluate : Candidate → Preferences → Result fl
  unfolding apply_ladder unlabelled sea_dex prefer_group apply_subtitles apply_uploader
      apply_dual_audio apply_scope apply_seeders at_least_zero first_result
  evaluate c prefs =
      let rel = c.release in
      let r0 = first_result c prefs in
      let r1 = apply_ladder rel 0 prefs.ladder r0 (unlabelled rel prefs r0) in
      let r2 = prefer_group prefs.prefer_groups rel.group (sea_dex c r1) in
      let r3 = apply_subtitles rel prefs r2 in
      let r4 = apply_dual_audio rel (apply_uploader c r3) in
      at_least_zero (apply_seeders c (apply_scope rel r4))
