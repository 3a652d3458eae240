-- ===== src/Queue/Effects.antt =====
-- internal/library/queue.go and internal/store/queue.go: what the end of a download, a cancel and a
-- queueing do, on every branch.
use mathlib.Core.Bool.{true≢false}
use kuro.Base.{
  ℕ, suc, ◌+◌, Text, text_eq_iff, ◌≡◌, refl, sym, ap, ◌∙◌, ◌⊎◌, inl, inr, Bool, true, false, not,
  List, [], ◌∷◌, Option, none, some, any, keep, length, Bool-cases, if◌then◌else◌, ltb, arith,
}
use kuro.Queue.Rows.{
  QueuedDownload, Cause, is_row, update_rows, is_active_row, defer_row, defer_retry, fail_row,
  finish_queued, requeue_row, requeue_active,
}
use kuro.Queue.Claim.{dequeue, is_asked}
use kuro.Queue.Worker.{
  Downloader, Failure, paused_error, seeders_silent, stall, other, Faults, held, queue_retries,
  InFlight, fetches, stop_current, cancels, cancel_rows, cancel, paused_by_user,
}
use kuro.Queue.Step.{
  take_up, was_stopped, put_back, finish_row, put_off_row, last_cause, ends_failed, ends_unstopped,
  end_step,
}
use kuro.Queue.Laws.{KeepsKey, any-update_rows}

abbrev pub others : ℕ → Text → List QueuedDownload → List QueuedDownload
others anime key rows = keep (λ q. not (is_row anime key q)) rows

update_rows-others :
    (p : QueuedDownload → Bool) (f : QueuedDownload → QueuedDownload) (anime : ℕ) (key : Text)
    → KeepsKey f
    → ((q : QueuedDownload) → p q ≡ true → is_row anime key q ≡ true)
    → (rows : List QueuedDownload) → others anime key (update_rows p f rows) ≡ others anime key rows
unfolding update_rows is_row
update_rows-others p f anime key same narrow [] = refl
update_rows-others p f anime key same narrow (q ∷ rows) = elim (Bool-cases (p q)) [
  | inl e ↦
      let (a, k) = same q in
      let here = narrow q e in
      let rest = update_rows-others p f anime key same narrow rows in
      rw e (rw (a, k) (rw here rest))
  | inr e ↦ rw e (ground (arith, update_rows-others p f anime key same narrow rows))
]

keep-keep :
    (p : QueuedDownload → Bool) (rows : List QueuedDownload) → keep p (keep p rows) ≡ keep p rows
keep-keep p [] = refl
keep-keep p (q ∷ rows) = elim (Bool-cases (p q)) [
  | inl e ↦ rw e (rw e (ap (λ (x : List QueuedDownload). q ∷ x) (keep-keep p rows)))
  | inr e ↦ rw e (keep-keep p rows)
]

-- A change of the rows of one episode only, which keeps one there.
abbrev Confined : QueuedDownload → List QueuedDownload → List QueuedDownload → Type 0
Confined n rows rows' =
    (others n.anime_id n.ep_key rows' ≡ others n.anime_id n.ep_key rows)
    × (any (is_row n.anime_id n.ep_key) rows' ≡ any (is_row n.anime_id n.ep_key) rows)

module _ (n : QueuedDownload) where
  update-Confined :
      (p : QueuedDownload → Bool) (f : QueuedDownload → QueuedDownload)
      → KeepsKey f
      → ((q : QueuedDownload) → p q ≡ true → is_row n.anime_id n.ep_key q ≡ true)
      → (rows : List QueuedDownload) → Confined n rows (update_rows p f rows)
  update-Confined p f same narrow rows = (
    update_rows-others p f n.anime_id n.ep_key same narrow rows,
    any-update_rows f same p n.anime_id n.ep_key rows,
  )

  narrow_active :
      (q : QueuedDownload)
      → is_active_row n.anime_id n.ep_key q ≡ true
      → is_row n.anime_id n.ep_key q ≡ true
  unfolding is_active_row
  narrow_active q h = ground arith

  put_back-Confined : (fails : Bool) (d : Downloader) → Confined n d.rows (put_back fails n d).rows
  unfolding put_back requeue_active requeue_row
  put_back-Confined true d = (refl, refl)
  put_back-Confined false d = update-Confined _ requeue_row (λ q. (refl, refl)) narrow_active d.rows

  finish_row-Confined :
      (fails : Bool) (cause : Cause) (d : Downloader)
      → Confined n d.rows (finish_row fails n (some cause) d).rows
  unfolding finish_row finish_queued fail_row
  finish_row-Confined true cause d = (refl, refl)
  finish_row-Confined false cause d =
      update-Confined _ (fail_row cause) (λ q. (refl, refl)) (λ q h. h) d.rows

  put_off_row-Confined :
      (fails : Bool) (now ms : ℕ) (failure : Failure) (d : Downloader)
      → Confined n d.rows (put_off_row fails now ms n failure d).rows
  unfolding put_off_row defer_retry defer_row
  put_off_row-Confined true now ms failure d = (refl, refl)
  put_off_row-Confined false now ms failure d =
      update-Confined _ _ (λ q. (refl, refl)) narrow_active d.rows

  -- What the end of a download leaves: the rows of other episodes as they were, and a row of this one
  -- unless there was none, the download succeeded, or the viewer had paused it.
  abbrev pub Settles : Option Failure → Option Text → Downloader → Downloader → Type 0
  Settles result hash d d' =
      (others n.anime_id n.ep_key d'.rows ≡ others n.anime_id n.ep_key d.rows)
      × ((any (is_row n.anime_id n.ep_key) d'.rows ≡ any (is_row n.anime_id n.ep_key) d.rows)
          ⊎ (result ≡ none)
          ⊎ ((result ≡ some paused_error) × (paused_by_user hash d.user_paused ≡ true)))

  settles :
      (result : Option Failure) (hash : Option Text) (d d' : Downloader)
      → Confined n d.rows d'.rows
      → Settles result hash d d'
  settles result hash d d' c = (c.0, inl c.1)

  finished-others :
      (fails : Bool) (d : Downloader)
      → others n.anime_id n.ep_key (finish_row fails n none d).rows
        ≡ others n.anime_id n.ep_key d.rows
  unfolding finish_row finish_queued
  finished-others true d = refl
  finished-others false d = keep-keep _ d.rows

  either-Settles :
      (b : Bool) (result : Option Failure) (hash : Option Text) (d x y : Downloader)
      → Settles result hash d x
      → Settles result hash d y
      → Settles result hash d (if b then x else y)
  either-Settles true result hash d x y h k = h
  either-Settles false result hash d x y h k = k

  module _ (f : Faults) (now ms : ℕ) (hash : Option Text) where
    swarm-Settles :
        (failure : Failure) (d : Downloader)
        → Settles (some failure) hash d (
            if ltb n.attempts queue_retries
            then put_off_row f.put_off now ms n failure d
            else finish_row f.finish n (some (last_cause n.attempts failure)) d)
    swarm-Settles failure d =
        let later = put_off_row f.put_off now ms n failure d in
        let given_up = finish_row f.finish n (some (last_cause n.attempts failure)) d in
        either-Settles (ltb n.attempts queue_retries) (some failure) hash d later given_up
          (settles (some failure) hash d later (put_off_row-Confined f.put_off now ms failure d))
          (settles (some failure) hash d given_up
            (finish_row-Confined f.finish (last_cause n.attempts failure) d))

    paused-Settles :
        (d : Downloader) (b : Bool)
        → paused_by_user hash d.user_paused ≡ b
        → Settles
            (some paused_error)
            hash
            d
            (if b then finish_row f.finish n none d else put_back f.requeue n d)
    paused-Settles d true e = (finished-others f.finish d, inr (inr (refl, e)))
    paused-Settles d false e =
        settles (some paused_error) hash d (put_back f.requeue n d) (put_back-Confined f.requeue d)

    ends_unstopped-Settles :
        (result : Option Failure) (d : Downloader)
        → Settles result hash d (ends_unstopped f now ms n result hash d)
    unfolding ends_unstopped ends_failed
    ends_unstopped-Settles none d = (finished-others f.finish d, inr (inl refl))
    ends_unstopped-Settles (some paused_error) d =
        paused-Settles d (paused_by_user hash d.user_paused) refl
    ends_unstopped-Settles (some seeders_silent) d = swarm-Settles seeders_silent d
    ends_unstopped-Settles (some (stall quiet)) d = swarm-Settles (stall quiet) d
    ends_unstopped-Settles (some (other why)) d =
        settles (some (other why)) hash d
          (finish_row f.finish n (some (last_cause n.attempts (other why))) d)
          (finish_row-Confined f.finish (last_cause n.attempts (other why)) d)

    -- Whatever a download ends with, whether it was stopped, and whichever statements fail: the rows of
    -- other episodes stay as they are, and the episode's own row is lost only when the download
    -- succeeded or the viewer had paused it.
    pub end_step-Settles :
        (result : Option Failure) (d : Downloader)
        → Settles result hash d (end_step f now ms n result hash d)
    unfolding end_step
    end_step-Settles result d = elim (Bool-cases (was_stopped d.current)) [
      | inl e ↦ rw e (
          settles result hash d (put_back f.requeue n (record d { current = none }))
            (put_back-Confined f.requeue (record d { current = none })))
      | inr e ↦ rw e (ends_unstopped-Settles result (record d { current = none }))
    ]

asked-row :
    (anime : ℕ) (key : Text) (q : QueuedDownload)
    → is_row anime key q ≡ true
    → is_asked anime key q ≡ true
unfolding is_asked is_row
asked-row anime [] q h = ground arith
asked-row anime (c ∷ key) q h = h

any-dropped :
    (anime : ℕ) (key : Text) (rows : List QueuedDownload)
    → any (is_row anime key) (keep (λ q. not (is_asked anime key q)) rows) ≡ false
any-dropped anime key [] = refl
any-dropped anime key (q ∷ rows) = elim (Bool-cases (is_asked anime key q)) [
  | inl e ↦ rw e (any-dropped anime key rows)
  | inr e ↦ elim (Bool-cases (is_row anime key q)) [
    | inl r ↦ absurd (true≢false (sym (asked-row anime key q r) ∙ e))
    | inr r ↦ rw e (rw r (any-dropped anime key rows))
  ]
]

-- A cancel between the claim of a row and the moment the worker names it is missed: the row is gone,
-- and yet the download starts and is not stopped, unless the queue stands down.
pub cancel_missed :
    (q : QueuedDownload) (d : Downloader)
    → held d ≡ false
    → d.current ≡ none
    → let d' = take_up q (cancel q.anime_id q.ep_key d).0 in
      (any (is_row q.anime_id q.ep_key) d'.rows ≡ false) × (was_stopped d'.current ≡ false)
unfolding take_up cancel cancel_rows cancels dequeue held was_stopped
cancel_missed q d free idle = rw idle (any-dropped q.anime_id q.ep_key d.rows, free)

kept_dropped :
    (p : QueuedDownload → Bool) (rows : List QueuedDownload)
    → length (keep p rows) + length (keep (λ q. not (p q)) rows) ≡ length rows
kept_dropped p [] = omega arith
kept_dropped p (q ∷ rows) = elim (Bool-cases (p q)) [
  | inl e ↦ rw e (ground (arith, kept_dropped p rows))
  | inr e ↦ rw e (ground (arith, kept_dropped p rows))
]

-- A cancel that reaches the download in flight reaches the row of its episode.
cancels-is_asked :
    (anime : ℕ) (key : Text) (c : InFlight) (q : QueuedDownload)
    → cancels anime key (some c) ≡ true
    → is_row c.anime_id c.ep_key q ≡ true
    → is_asked anime key q ≡ true
unfolding cancels is_asked is_row fetches
cancels-is_asked anime [] c q h k = ground arith
cancels-is_asked anime (x ∷ key) c q h k = ground (
  arith,
  text_eq_iff c.ep_key (x ∷ key),
  text_eq_iff q.ep_key c.ep_key,
  text_eq_iff q.ep_key (x ∷ key),
  joined,
)
  where
    joined : (q.ep_key ≡ c.ep_key) → (c.ep_key ≡ (x ∷ key)) → q.ep_key ≡ (x ∷ key)
    joined e f = e ∙ f

any-dropped_of :
    (p r : QueuedDownload → Bool) (rows : List QueuedDownload)
    → ((q : QueuedDownload) → r q ≡ true → p q ≡ true)
    → any r (keep (λ q. not (p q)) rows) ≡ false
any-dropped_of p r [] h = refl
any-dropped_of p r (q ∷ rows) h = elim (Bool-cases (p q)) [
  | inl e ↦ rw e (any-dropped_of p r rows h)
  | inr e ↦ elim (Bool-cases (r q)) [
    | inl k ↦ absurd (true≢false (sym (h q k) ∙ e))
    | inr k ↦ rw e (rw k (any-dropped_of p r rows h))
  ]
]

-- A cancel that reaches the download in flight, whose row is in the table while it runs, drops that row too,
-- and yet reports one row more than it drops.
pub cancel_lem :
    (anime : ℕ) (key : Text) (c : InFlight) (d : Downloader)
    → d.current ≡ some c
    → cancels anime key (some c) ≡ true
    → any (is_row c.anime_id c.ep_key) d.rows ≡ true
    → let (d', removed) = cancel anime key d in
      (any (is_row c.anime_id c.ep_key) d'.rows ≡ false)
      × (removed + length d'.rows ≡ suc (length d.rows))
unfolding cancel cancel_rows dequeue stop_current
cancel_lem anime key c d e h here =
    let reached : cancels anime key d.current ≡ true = ap (cancels anime key) e ∙ h in
    rw reached (
      any-dropped_of (is_asked anime key) (is_row c.anime_id c.ep_key) d.rows
          (λ q. cancels-is_asked anime key c q h),
      suc_sum (length (keep (is_asked anime key) d.rows))
          (length (keep (λ q. not (is_asked anime key q)) d.rows)) (length d.rows)
          (kept_dropped (is_asked anime key) d.rows),
    )
  where
    suc_sum : (m n t : ℕ) → m + n ≡ t → suc m + n ≡ suc t
    suc_sum m n t e = omega arith
