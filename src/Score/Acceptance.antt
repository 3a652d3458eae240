-- ===== src/Score/Acceptance.antt =====
-- What `evaluateSpecs` returns, and when a release may start by itself.
use mathlib.Core.List.{append_assoc, append-nil, cons≢nil}
use kuro.Base.{
  ℕ, ◌≤◌, ◌<◌, ◌≡◌, refl, sym, ◌∙◌, inl, inr, ◌↔◌, ◌≢◌, Bool, true, false, not, ◌&&◌, List, [], ◌∷◌,
  ◌++◌, map, All, Bool-cases, keep, ◌==◌, if◌then◌else◌, arith, String, text, text_eq_iff,
}
use kuro.Score.Float.{Float}
use kuro.Score.Tier.{Preferences}
use kuro.Score.Candidate.{Candidate, audio_mismatch, size_limit, episode_bytes}
use kuro.Score.Specs.{Spec, Rejection, specs, is_raw, is_nil, evaluate_loop, evaluate_specs}
use kuro.Score.Evaluate.{evaluate}
use kuro.Score.Evaluate.Laws.{evaluate-auto_pick}

is_nil→eq {ℓ} : {A : Type ℓ} (l : List A) → is_nil l ≡ true → l ≡ []
is_nil→eq [] h = refl
is_nil→eq (x ∷ l) h = cc

module _ (c : Candidate) (prefs : Preferences) where
  refuses : Spec → Bool
  refuses s = not (is_nil (s.reject c prefs))

  rejection : Spec → Rejection
  rejection s = record { rule = s.name; reason = s.reject c prefs }

  -- The rejections of all specs of a list that refuse the release.
  pub refusals : List Spec → List Rejection
  unfolding refuses rejection
  refusals ss = map rejection (keep refuses ss)

  -- The list from the first spec on that refuses the release.
  pub from_refusing : List Spec → List Spec
  unfolding refuses
  from_refusing [] = []
  from_refusing (s ∷ ss) = if refuses s then s ∷ ss else from_refusing ss

  -- The specs at the front that are of a tier.
  pub of_tier : ℕ → List Spec → List Spec
  of_tier t [] = []
  of_tier t (s ∷ ss) = if s.tier == t then s ∷ of_tier t ss else []

  -- The rejections of the first group: the specs from the first refusing one on, up to the first of
  -- another tier.
  pub first_group : List Spec → List Rejection
  unfolding refusals of_tier
  first_group [] = []
  first_group (s ∷ ss) = refusals (s ∷ of_tier s.tier ss)

  refusals-cons :
      (s : Spec) (ss : List Spec)
      → is_nil (s.reject c prefs) ≡ false
      → refusals (s ∷ ss) ≡ rejection s ∷ refusals ss
  unfolding refusals
  refusals-cons s ss refused = rw (refused, refuses)

  loop_found :
      (ss : List Spec) (o : Rejection) (os : List Rejection) (t : ℕ)
      → evaluate_loop ss c prefs (o ∷ os) t ≡ (o ∷ os) ++ refusals (of_tier t ss)
  unfolding evaluate_loop refusals of_tier
  loop_found [] o os t = sym (append-nil (o ∷ os))
  loop_found (s ∷ ss) o os t = elim (Bool-cases (s.tier == t)) [
    | inr other ↦ rw (other, evaluate_loop, of_tier) (sym (append-nil (o ∷ os)))
    | inl same ↦ elim (Bool-cases (is_nil (s.reject c prefs))) [
      | inl quiet ↦ rw (same, quiet) (loop_found ss o os t)
      | inr refused ↦
          rw (same, refused)
            (loop_found ss o (os ++ rejection s ∷ []) t
              ∙ append_assoc (o ∷ os) (rejection s ∷ []) (refusals (of_tier t ss)))
    ]
  ]

  loop_quiet :
      (ss : List Spec) (t : ℕ) → evaluate_loop ss c prefs [] t ≡ first_group (from_refusing ss)
  unfolding evaluate_loop from_refusing first_group
  loop_quiet [] t = refl
  loop_quiet (s ∷ ss) t = elim (Bool-cases (is_nil (s.reject c prefs))) [
    | inl quiet ↦ rw quiet (loop_quiet ss t)
    | inr refused ↦
        rw refused (
          loop_found ss (rejection s) [] s.tier ∙ sym (refusals-cons s (of_tier s.tier ss) refused))
  ]

  first_group_quiet :
      (ss : List Spec)
      → first_group (from_refusing ss) ≡ []
      → All (λ (s : Spec). s.reject c prefs ≡ []) ss
  unfolding first_group from_refusing refusals
  first_group_quiet [] h = tt
  first_group_quiet (s ∷ ss) h = elim (Bool-cases (is_nil (s.reject c prefs))) [
    | inl quiet ↦
        (is_nil→eq (s.reject c prefs) quiet, first_group_quiet ss (rw (quiet, from_refusing) at h))
    | inr refused ↦ absurd (
        cons≢nil
          (sym (refusals-cons s (of_tier s.tier ss) refused) ∙ (rw (refused, from_refusing) at h)))
  ]

  quiet-first_group :
      (ss : List Spec)
      → All (λ (s : Spec). s.reject c prefs ≡ []) ss
      → first_group (from_refusing ss) ≡ []
  unfolding first_group from_refusing
  quiet-first_group [] h = refl
  quiet-first_group (s ∷ ss) h = rw (h.0, from_refusing) (quiet-first_group ss h.1)

  -- `evaluateSpecs` returns the rejections of one tier: those of the specs from the first that
  -- refuses the release up to the first of another tier. It returns none exactly when every spec
  -- accepts the release.
  pub evaluate_specs-first_group :
      (fl : Float)
      → (evaluate_specs fl c prefs ≡ first_group (from_refusing (specs fl)))
        × ((evaluate_specs fl c prefs ≡ []) ↔ All (λ (s : Spec). s.reject c prefs ≡ []) (specs fl))
  unfolding evaluate_specs
  evaluate_specs-first_group fl =
      let e = loop_quiet (specs fl) 0 in
      (e, (λ h. first_group_quiet (specs fl) (sym e ∙ h), λ h. e ∙ quiet-first_group (specs fl) h))

  when_none : (b : Bool) (s : String) → text s ≢ [] → (if b then text s else []) ≡ [] → b ≡ false
  when_none b s t h = elim (Bool-cases b) [ inl e ↦ absurd (t (rw e at h)) | inr e ↦ e ]

  audio_none :
      (mismatch dub : Bool)
      → (if not mismatch
          then []
          else if dub
          then text "no English dub"
          else text "English dub only")
        ≡ []
      → mismatch ≡ false
  audio_none true true h = absurd (cons≢nil h)
  audio_none true false h = absurd (cons≢nil h)
  audio_none false dub h = refl

  -- What holds of a release that starts by itself.
  pub record IsSafe (fl : Float) : Type 0 where
    pub right_show : c.wrong_show ≡ false
    pub right_film : c.wrong_film ≡ false
    pub alive : c.torrent.seeders_known ≡ true → 0 < c.torrent.seeders
    pub subtitled : prefs.allow_raw ≡ false → is_raw c ≡ false
    pub spoken : audio_mismatch c.release prefs.audio ≡ false
    pub decodable :
        prefs.allow_hi10p ≡ false → c.release.codec ≡ text "H264" → c.release.bit_depth ≢ 10
    pub fits : 0 < prefs.max_auto_bytes → episode_bytes c ≤ size_limit fl c prefs

  -- An automatic pick is of the show and the film asked for, is not known to be without seeders, has
  -- subtitles unless raws are allowed, has the audio asked for, is not 10-bit H.264 unless that is
  -- allowed, and is within the size limit if there is one.
  pub auto_pick-IsSafe : (fl : Float) → (evaluate fl c prefs).auto_pick ≡ true → IsSafe fl
  unfolding specs
  auto_pick-IsSafe fl h =
      let all =
        (evaluate_specs-first_group fl).1.0
          (is_nil→eq (evaluate_specs fl c prefs) (sym (evaluate-auto_pick fl c prefs).0 ∙ h)) in
      let (show, from1) = all in
      let (film, from2) = from1 in
      let (dead, from3) = from2 in
      let (raw, from7) = from3.1.1.1 in
      let (audio, from8) = from7 in
      let (hi10p, from9) = from8 in
      let size = from9.0 in
      let alive' : (c.torrent.seeders_known && c.torrent.seeders == 0) ≡ false =
        when_none _ "no seeders" cons≢nil dead in
      let coded = when_none _ "10-bit H.264 has no hardware decode" cons≢nil hi10p in
      let sized = when_none _ "larger than the automatic size limit" cons≢nil size in
      record {
        right_show = when_none c.wrong_show "names a different show" cons≢nil show;
        right_film = when_none c.wrong_film "a different film of the series" cons≢nil film;
        alive = λ known. ground arith;
        subtitled =
            λ strict. when_none (is_raw c) "raw capture, no subtitles" cons≢nil (rw strict at raw);
        spoken = audio_none _ _ audio;
        decodable = λ strict h264 ten. ground (arith, text_eq_iff c.release.codec (text "H264"));
        fits = λ limited. ground arith;
      }
