-- ===== src/Queue/Drains.antt =====
-- internal/library/queue.go: every download uses up a try, so a queue left alone runs dry.
use kuro.Base.{
  ℕ, ◌+◌, ◌-◌, ◌*◌, ◌≤◌, ◌<◌, ◌≡◌, ◌≢◌, refl, ap, inl, inr, Bool, true, false, List, [], ◌∷◌, All,
  Option, none, some, Text, any, Bool-cases, if◌then◌else◌, ltb, arith,
}
use kuro.Queue.Rows.{
  QueuedDownload, Cause, is_pending, is_row, is_active_row, defer_row, defer_retry, fail_row,
  finish_queued,
}
use kuro.Queue.Claim.{start_row, is_waiting_row, claim_row, earliest, next_queued, can_start}
use kuro.Queue.Worker.{
  Downloader, Failure, paused_error, seeders_silent, stall, other, no_faults, held, queue_retries,
  queue_retry_delay, describe,
}
use kuro.Queue.Step.{
  claimed, take_up, was_stopped, finish_row, put_off_row, last_cause, ends_failed, ends_unstopped,
  end_step,
}
use kuro.Queue.Laws.{eq→is_row}
use kuro.Queue.Next.{In, Found, earliest-Found, In-any}
use kuro.Queue.Runs.{Phase, holding, RowOk}
use kuro.Queue.Kept.{RowsOk}
use kuro.Queue.Ends.{AfterClaim}
use kuro.Queue.Rounds.{
  Round, worked, weight, weight-active, work, Few, work-update_lt, work-keep_lt, work-start,
  active-start,
}

fail_row-low :
    (cause : Cause) (q : QueuedDownload)
    → weight (fail_row cause q).state (fail_row cause q).attempts ≤ weight q.state q.attempts
unfolding fail_row
fail_row-low cause q = omega arith

active_weight :
    (anime : ℕ) (key : Text) (q : QueuedDownload)
    → is_active_row anime key q ≡ true
    → (weight q.state q.attempts ≡ 3 - q.attempts) × (is_row anime key q ≡ true)
unfolding is_active_row
active_weight anime key q h = (weight-active q.state q.attempts (ground arith), ground arith)

module _ (n : QueuedDownload) where
  abbrev Busy : List QueuedDownload → Type 0
  Busy rows = any (is_active_row n.anime_id n.ep_key) rows ≡ true

  finish_queued-work :
      (cause : Option Cause) (rows : List QueuedDownload)
      → Few rows
      → Busy rows
      → work (finish_queued n.anime_id n.ep_key cause rows) < work rows
  unfolding finish_queued
  finish_queued-work none rows few h = work-keep_lt n.anime_id n.ep_key rows few h
  finish_queued-work (some cause) rows few h =
      work-update_lt (is_row n.anime_id n.ep_key) (fail_row cause) n.anime_id n.ep_key
        (λ q t. fail_row-low cause q) (λ q a t. lower q a t) rows few h
    where
      lower :
          (q : QueuedDownload)
          → is_active_row n.anime_id n.ep_key q ≡ true
          → q.attempts ≤ 2
          → (is_row n.anime_id n.ep_key q ≡ true)
            × (weight (fail_row cause q).state (fail_row cause q).attempts
                < weight q.state q.attempts)
      lower q a t =
          let (e, r) = active_weight n.anime_id n.ep_key q a in
          (r, unfold fail_row in omega (arith, e, t))

  defer_retry-work :
      (now at : ℕ) (cause : Cause) (rows : List QueuedDownload)
      → Few rows
      → Busy rows
      → work (defer_retry now n.anime_id n.ep_key cause at rows) < work rows
  unfolding defer_retry defer_row
  defer_retry-work now at cause rows few h =
      work-update_lt (is_active_row n.anime_id n.ep_key) (defer_row now at cause) n.anime_id
        n.ep_key (λ q t. omega (arith, (active_weight n.anime_id n.ep_key q t).0))
        (λ q a t. (a, omega (arith, (active_weight n.anime_id n.ep_key q a).0, t))) rows few h

  put_off-work :
      (now ms : ℕ) (failure : Failure) (d : Downloader)
      → Few d.rows
      → Busy d.rows
      → work
          (if ltb n.attempts queue_retries
            then put_off_row false now ms n failure d
            else finish_row false n (some (last_cause n.attempts failure)) d).rows
        < work d.rows
  unfolding put_off_row finish_row
  put_off-work now ms failure d few h = elim (Bool-cases (ltb n.attempts queue_retries)) [
    | inl e ↦ rw e (
        defer_retry-work now (ms + queue_retry_delay * (n.attempts + 1)) (describe failure) d.rows
          few h)
    | inr e ↦ rw e (finish_queued-work (some (last_cause n.attempts failure)) d.rows few h)
  ]

  ends_unstopped-work :
      (now ms : ℕ) (result : Option Failure) (hash : Option Text) (d : Downloader)
      → result ≢ some paused_error
      → Few d.rows
      → Busy d.rows
      → work (ends_unstopped no_faults now ms n result hash d).rows < work d.rows
  unfolding ends_unstopped ends_failed finish_row
  ends_unstopped-work now ms none hash d ne few h = finish_queued-work none d.rows few h
  ends_unstopped-work now ms (some paused_error) hash d ne few h = absurd (ne refl)
  ends_unstopped-work now ms (some seeders_silent) hash d ne few h =
      put_off-work now ms seeders_silent d few h
  ends_unstopped-work now ms (some (stall quiet)) hash d ne few h =
      put_off-work now ms (stall quiet) d few h
  ends_unstopped-work now ms (some (other why)) hash d ne few h =
      finish_queued-work (some (last_cause n.attempts (other why))) d.rows few h

Few-of : (at : Phase) (rows : List QueuedDownload) → All (RowOk at) rows → Few rows
Few-of at [] h = tt
Few-of at (q ∷ rows) h = (h.0.0, Few-of at rows h.1)

In-waiting :
    (ms : ℕ) (q : QueuedDownload) (rows : List QueuedDownload)
    → In q rows
    → can_start ms q ≡ true
    → any (is_waiting_row q.anime_id q.ep_key) rows ≡ true
unfolding is_waiting_row can_start
In-waiting ms q [] m h = absurd m
In-waiting ms q (r ∷ rows) (inl e) h =
    let found = In-any q (r ∷ rows) (inl e) in
    let state : is_pending r.state ≡ is_pending q.state =
      ap (λ (x : QueuedDownload). is_pending x.state) e in
    let here : is_row q.anime_id q.ep_key r ≡ is_row q.anime_id q.ep_key q =
      ap (λ (x : QueuedDownload). is_row q.anime_id q.ep_key x) e in
    ground (arith, eq→is_row q.anime_id q.ep_key q refl refl)
In-waiting ms q (r ∷ rows) (inr m) h = ground (arith, In-waiting ms q rows m h)

-- A claim by the worker at rest: nothing, or a row that is now active, with the work as it was.
abbrev pub Took : List QueuedDownload → List QueuedDownload × Option QueuedDownload → Type 0
Took rows (rows', none) = rows' ≡ rows
Took rows (rows', some q) =
    (work rows' ≡ work rows) × (any (is_active_row q.anime_id q.ep_key) rows' ≡ true)

claim_row-Took :
    (now ms : ℕ) (rows : List QueuedDownload) (o : Option QueuedDownload)
    → Found ms rows o
    → Took rows (claim_row now rows o)
unfolding claim_row start_row
claim_row-Took now ms rows none f = refl
claim_row-Took now ms rows (some q) f = (
  work-start now q.anime_id q.ep_key rows,
  active-start now q.anime_id q.ep_key rows (In-waiting ms q rows f.0 f.1),
)

pub next_queued-Took :
    (now ms : ℕ) (rows : List QueuedDownload) → Took rows (next_queued now ms rows)
unfolding next_queued
next_queued-Took now ms rows =
    claim_row-Took now ms rows (earliest ms rows) (earliest-Found ms rows)

-- A round that downloads something leaves less work, and one that does not leaves all as it was.
abbrev pub Uses : Downloader → Downloader × Bool → Type 0
Uses d (d', true) = work d'.rows < work d.rows
Uses d (d', false) = d' ≡ d

module _ (r : Round) (d : Downloader) (free : held d ≡ false)
    (ne : r.result ≢ some paused_error) where
  end_step-work :
      (q : QueuedDownload) (rows : List QueuedDownload)
      → RowsOk (holding q) rows
      → any (is_active_row q.anime_id q.ep_key) rows ≡ true
      → work
          (end_step no_faults r.end_now r.end_ms q r.result r.hash
            (take_up q (record d { rows = rows }))).rows
        < work rows
  unfolding end_step take_up was_stopped held
  end_step-work q rows h b = rw free (
      ends_unstopped-work q r.end_now r.end_ms r.result r.hash
        (record d { rows = rows; current = none }) ne (Few-of (holding q) rows h.1) b)

  pub worked-Uses :
      (x : List QueuedDownload × Option QueuedDownload)
      → AfterClaim x
      → Took d.rows x
      → Uses d (worked r (claimed d x))
  unfolding worked claimed
  worked-Uses (rows, none) h t = ap (λ (x : List QueuedDownload). record d { rows = x }) t
  worked-Uses (rows, some q) h t = omega (arith, end_step-work q rows h t.1, t.0)
