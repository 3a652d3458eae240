-- ===== src/Queue/Holds.antt =====
-- internal/library/queue.go: `Hold`, `Release` and `SetPaused` against the history of the calls.
use kuro.Base.{
  ◌≡◌, refl, ap, ◌∙◌, inl, inr, Bool, true, false, not, ◌||◌, List, [], ◌∷◌, Text, text_eq,
  text_eq_iff, has, keep, Bool-cases, if◌then◌else◌, arith,
}
use kuro.Queue.Worker.{
  Downloader, stop_current, wake, set_paused, plays_under, hold, leave_watching, release_hold,
}

-- The calls that hold the queue, as they come.
pub data Call : Type 0 where
  holds_for releases_for : Text → Call
  pauses : Bool → Call

unfoldable pub call : Call → Downloader → Downloader
call (holds_for id) d = hold id d
call (releases_for id) d = release_hold id d
call (pauses paused) d = set_paused paused d

abbrev pub calls : List Call → Downloader → Downloader
calls [] d = d
calls (c ∷ later) d = calls later (call c d)

-- Whether a session watches and the queue is paused, after one call more.
abbrev pub watches : Text → Call → Bool → Bool
watches id (holds_for other) before = text_eq other id || before
watches id (releases_for other) before = if text_eq other id then false else before
watches id (pauses paused) before = before

abbrev pub stays_paused : Call → Bool → Bool
stays_paused (holds_for other) before = before
stays_paused (releases_for other) before = before
stays_paused (pauses paused) before = paused

abbrev pub watching_after : Text → List Call → Bool → Bool
watching_after id [] before = before
watching_after id (c ∷ later) before = watching_after id later (watches id c before)

abbrev pub paused_after : List Call → Bool → Bool
paused_after [] before = before
paused_after (c ∷ later) before = paused_after later (stays_paused c before)

has-keep :
    (id other : Text) (ids : List Text)
    → has id (keep (λ w. not (text_eq w other)) ids)
      ≡ (if text_eq other id then false else has id ids)
unfolding has
has-keep id other [] = ground arith
has-keep id other (w ∷ ids) =
    ground
      (arith, has-keep id other ids, text_eq_iff w other, text_eq_iff w id, text_eq_iff other id)

leave_watching-watching :
    (d : Downloader) (left : List Text) → (leave_watching d left).watching ≡ left
unfolding leave_watching wake
leave_watching-watching d [] = refl
leave_watching-watching d (w ∷ left) = refl

leave_watching-paused :
    (d : Downloader) (left : List Text) → (leave_watching d left).paused ≡ d.paused
unfolding leave_watching wake
leave_watching-paused d [] = refl
leave_watching-paused d (w ∷ left) = refl

hold-watching :
    (id : Text) (d : Downloader)
    → (hold id d).watching ≡ (if has id d.watching then d.watching else id ∷ d.watching)
unfolding hold stop_current
hold-watching id d = elim (Bool-cases (has id d.watching || plays_under id d.current)) [
  | inl e ↦ rw e refl
  | inr e ↦ rw e refl
]

hold-paused : (id : Text) (d : Downloader) → (hold id d).paused ≡ d.paused
unfolding hold stop_current
hold-paused id d = elim (Bool-cases (has id d.watching || plays_under id d.current)) [
  | inl e ↦ rw e refl
  | inr e ↦ rw e refl
]

call-watches :
    (id : Text) (c : Call) (d : Downloader)
    → has id (call c d).watching ≡ watches id c (has id d.watching)
unfolding call release_hold set_paused stop_current wake
call-watches id (holds_for other) d = elim (Bool-cases (has other d.watching)) [
  | inl e ↦ rw (hold-watching other d) (rw e (already id other d.watching e))
  | inr e ↦ rw (hold-watching other d) (rw e (added id other d.watching))
]
  where
    already :
        (id other : Text) (ids : List Text)
        → has other ids ≡ true
        → has id ids ≡ (text_eq other id || has id ids)
    already id other ids h = elim (Bool-cases (text_eq other id)) [
      | inl e ↦ let same : other ≡ id = (text_eq_iff other id).0 e in rw e (rw same at h)
      | inr e ↦ rw e refl
    ]

    added :
        (id other : Text) (ids : List Text)
        → has id (other ∷ ids) ≡ (text_eq other id || has id ids)
    added id other ids = unfold has in refl
call-watches id (releases_for other) d =
    ap (has id) (leave_watching-watching d (keep (λ w. not (text_eq w other)) d.watching))
    ∙ has-keep id other d.watching
call-watches id (pauses true) d = refl
call-watches id (pauses false) d = refl

call-paused : (c : Call) (d : Downloader) → (call c d).paused ≡ stays_paused c d.paused
unfolding call release_hold set_paused stop_current wake
call-paused (holds_for other) d = hold-paused other d
call-paused (releases_for other) d =
    leave_watching-paused d (keep (λ w. not (text_eq w other)) d.watching)
call-paused (pauses true) d = refl
call-paused (pauses false) d = refl

-- After any sequence of these calls a session watches exactly when its last hold was not yet released,
-- however often it held, and the queue is paused exactly when the last pause or resume says so.
pub calls-history :
    (id : Text) (later : List Call) (d : Downloader)
    → (has id (calls later d).watching ≡ watching_after id later (has id d.watching))
      × ((calls later d).paused ≡ paused_after later d.paused)
calls-history id [] d = (refl, refl)
calls-history id (c ∷ later) d =
    let (w, p) = calls-history id later (call c d) in
    (
      w ∙ ap (watching_after id later) (call-watches id c d),
      p ∙ ap (paused_after later) (call-paused c d),
    )
