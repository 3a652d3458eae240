-- ===== src/Score/Rank.antt =====
-- internal/score/score.go: the order of two results, the insertion sort by it, and the pick.
use kuro.Base.{
  Bool, true, false, not, ◌&&◌, List, [], ◌∷◌, map, reverse, Option, none, some, text_eq, ltb,
  differ, if◌then◌else◌,
}
use kuro.Score.Float.{Float, ne}
use kuro.Score.Tier.{Preferences}
use kuro.Score.Candidate.{Candidate}
use kuro.Score.Evaluate.{Result, evaluate, thin_swarm}

abbrev pub is_some {ℓ} : {A : Type ℓ} → Option A → Bool
is_some none = false
is_some (some _) = true

-- The inner loop of the insertion sort: `x` moves towards the front past what it is better than.
-- `done` is the sorted part, its last element first.
unfoldable pub sink {ℓ} : {A : Type ℓ} → (A → A → Bool) → A → List A → List A
sink better x [] = x ∷ []
sink better x (y ∷ done) = if better x y then y ∷ sink better x done else x ∷ y ∷ done

-- The outer loop.
unfoldable pub insert_all {ℓ} : {A : Type ℓ} → (A → A → Bool) → List A → List A → List A
insert_all better [] done = done
insert_all better (x ∷ out) done = insert_all better out (sink better x done)

module _ (fl : Float) where
  abbrev pub thin : Result fl → Bool
  thin r = r.candidate.torrent.seeders_known && ltb r.candidate.torrent.seeders thin_swarm

  abbrev pub unnamed : Result fl → Bool
  unnamed r = text_eq r.candidate.release.resolution []

  unfoldable pub better : Result fl → Result fl → Bool
  better a b =
      if differ a.auto_pick b.auto_pick
      then a.auto_pick
      else if a.auto_pick && differ (unnamed a) (unnamed b)
      then unnamed b
      else if differ a.candidate.confirmed b.candidate.confirmed
      then a.candidate.confirmed
      else if a.auto_pick
          && is_some a.candidate.film
          && is_some b.candidate.film
          && differ (thin a) (thin b)
      then not (thin a)
      else if a.auto_pick && differ a.candidate.release.batch b.candidate.release.batch
      then not a.candidate.release.batch
      else if a.auto_pick && differ a.candidate.sea_dex_best b.candidate.sea_dex_best
      then a.candidate.sea_dex_best
      else if a.auto_pick && ne fl a.res_rank b.res_rank
      then fl.lt b.res_rank a.res_rank
      else if a.auto_pick && differ a.unreadable b.unreadable
      then not a.unreadable
      else if a.auto_pick && differ a.playable b.playable
      then a.playable
      else fl.lt b.score a.score

  abbrev pub evaluate_all : List Candidate → Preferences → List (Result fl)
  evaluate_all cands prefs = map (λ c. evaluate fl c prefs) cands

  unfoldable pub rank : List Candidate → Preferences → List (Result fl)
  rank cands prefs = reverse (insert_all better (evaluate_all cands prefs) [])

  unfoldable pub first_auto : List (Result fl) → Option (Result fl)
  first_auto [] = none
  first_auto (r ∷ _) = if r.auto_pick then some r else none

  unfoldable pub best : List Candidate → Preferences → Option (Result fl)
  unfolding first_auto
  best cands prefs = first_auto (rank cands prefs)
