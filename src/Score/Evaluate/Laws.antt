-- ===== src/Score/Evaluate/Laws.antt =====
-- What the stages of `evaluate` keep, and what they add up to.
use kuro.Base.{◌≡◌, refl, ◌∙◌, false, ℕ, suc, List, [], ◌∷◌, Text, arith}
use kuro.Release.{Release}
use kuro.Score.Float.{Float, of_ℕ}
use kuro.Score.Tier.{Tier, Preferences}
use kuro.Score.Candidate.{Candidate}
use kuro.Score.Specs.{evaluate_specs, is_nil}
use kuro.Score.Evaluate.{
  Result, apply_ladder, unlabelled, sea_dex, prefer_group, apply_subtitles, apply_uploader,
  apply_dual_audio, apply_scope, apply_seeders, at_least_zero, first_result, evaluate,
}

module _ (fl : Float) where
  -- What no bonus or penalty touches.
  record Keeps (r s : Result fl) : Type 0 where
    candidate : s.candidate ≡ r.candidate
    playable : s.playable ≡ r.playable
    auto_pick : s.auto_pick ≡ r.auto_pick
    rejections : s.rejections ≡ r.rejections
    res_rank : s.res_rank ≡ r.res_rank

  Keeps-refl : (r : Result fl) → Keeps r r
  Keeps-refl r = record {
    candidate = refl;
    playable = refl;
    auto_pick = refl;
    rejections = refl;
    res_rank = refl;
  }

  Keeps-trans : {r s t : Result fl} → Keeps r s → Keeps s t → Keeps r t
  Keeps-trans h k = record {
    candidate = k.candidate ∙ h.candidate;
    playable = k.playable ∙ h.playable;
    auto_pick = k.auto_pick ∙ h.auto_pick;
    rejections = k.rejections ∙ h.rejections;
    res_rank = k.res_rank ∙ h.res_rank;
  }

  apply_ladder-Keeps :
      (rel : Release) (i : ℕ) (ladder : List Tier) (r otherwise : Result fl)
      → Keeps r otherwise
      → Keeps r (apply_ladder fl rel i ladder r otherwise)
  unfolding apply_ladder
  apply_ladder-Keeps rel i [] r otherwise h = h
  apply_ladder-Keeps rel i (tier ∷ rest) r otherwise h =
      ground (arith, apply_ladder-Keeps rel (suc i) rest r otherwise h)

  unlabelled-Keeps :
      (rel : Release) (prefs : Preferences) (r : Result fl) → Keeps r (unlabelled fl rel prefs r)
  unfolding unlabelled
  unlabelled-Keeps rel prefs r = ground arith

  sea_dex-Keeps : (c : Candidate) (r : Result fl) → Keeps r (sea_dex fl c r)
  unfolding sea_dex
  sea_dex-Keeps c r = ground arith

  prefer_group-Keeps :
      (gs : List Text) (g : Text) (r : Result fl) → Keeps r (prefer_group fl gs g r)
  unfolding prefer_group
  prefer_group-Keeps [] g r = Keeps-refl r
  prefer_group-Keeps (h ∷ hs) g r = ground (arith, prefer_group-Keeps hs g r)

  apply_subtitles-Keeps :
      (rel : Release) (prefs : Preferences) (r : Result fl)
      → Keeps r (apply_subtitles fl rel prefs r)
  unfolding apply_subtitles
  apply_subtitles-Keeps rel prefs r = ground arith

  apply_extras-Keeps :
      (c : Candidate) (rel : Release) (r : Result fl)
      → Keeps r (apply_scope fl rel (apply_dual_audio fl rel (apply_uploader fl c r)))
  unfolding apply_scope apply_dual_audio apply_uploader
  apply_extras-Keeps c rel r = ground arith

  apply_seeders-Keeps : (c : Candidate) (r : Result fl) → Keeps r (apply_seeders fl c r)
  unfolding apply_seeders
  apply_seeders-Keeps c r = ground arith

  at_least_zero-Keeps : (r : Result fl) → Keeps r (at_least_zero fl r)
  unfolding at_least_zero
  at_least_zero-Keeps r = ground arith

  evaluate-Keeps :
      (c : Candidate) (prefs : Preferences) → Keeps (first_result fl c prefs) (evaluate fl c prefs)
  unfolding evaluate
  evaluate-Keeps c prefs =
      Keeps-trans
        (apply_ladder-Keeps c.release 0 prefs.ladder _ _ (unlabelled-Keeps c.release prefs _))
        (Keeps-trans (sea_dex-Keeps c _) (
          Keeps-trans (prefer_group-Keeps prefs.prefer_groups c.release.group _) (
            Keeps-trans (apply_subtitles-Keeps c.release prefs _) (
              Keeps-trans (apply_extras-Keeps c c.release _)
                (Keeps-trans (apply_seeders-Keeps c _) (at_least_zero-Keeps _))))))

  pub evaluate-candidate :
      (c : Candidate) (prefs : Preferences) → (evaluate fl c prefs).candidate ≡ c
  unfolding first_result
  evaluate-candidate c prefs = (evaluate-Keeps c prefs).candidate

  score-at_least_zero : (r : Result fl) → fl.lt (at_least_zero fl r).score (of_ℕ fl 0) ≡ false
  unfolding at_least_zero
  score-at_least_zero r = ground (arith, fl.lt_irrefl (of_ℕ fl 0))

  score-evaluate :
      (c : Candidate) (prefs : Preferences) → fl.lt (evaluate fl c prefs).score (of_ℕ fl 0) ≡ false
  unfolding evaluate
  score-evaluate c prefs = score-at_least_zero _

  -- A candidate is an automatic pick exactly when no spec refuses it, whatever its score; the
  -- rejections are those of the specs, and the score is never below zero.
  pub evaluate-auto_pick :
      (c : Candidate) (prefs : Preferences)
      → ((evaluate fl c prefs).auto_pick ≡ is_nil (evaluate_specs fl c prefs))
        × ((evaluate fl c prefs).rejections ≡ evaluate_specs fl c prefs)
        × (fl.lt (evaluate fl c prefs).score (of_ℕ fl 0) ≡ false)
  unfolding first_result
  evaluate-auto_pick c prefs =
      let k = evaluate-Keeps c prefs in (k.auto_pick, k.rejections, score-evaluate c prefs)
