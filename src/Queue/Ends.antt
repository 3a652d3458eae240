-- ===== src/Queue/Ends.antt =====
-- internal/library/queue.go: what the claim of a row and the end of its download do to the rows.
use mathlib.Core.Bool.{true≢false}
use kuro.Base.{
  ℕ, ◌+◌, ◌*◌, ◌≤◌, ◌<◌, ◌≡◌, refl, sym, ap, ◌∙◌, inl, inr, Bool, true, false, not, List, [], ◌∷◌,
  All, Option, none, some, Text, Bool-cases, if◌then◌else◌, ltb, ltb→lt, arith,
}
use kuro.Queue.Rows.{
  QueuedDownload, Cause, is_active, is_row, update_rows, defer_row, is_active_row, defer_retry,
  fail_row, finish_queued, requeue_row, requeue_active,
}
use kuro.Queue.Claim.{start_row, is_waiting_row, claim_row, earliest, next_queued}
use kuro.Queue.Worker.{
  Downloader, Failure, paused_error, seeders_silent, stall, other, no_faults, queue_retries,
  queue_retry_delay, describe, paused_by_user,
}
use kuro.Queue.Step.{
  was_stopped, put_back, finish_row, put_off_row, last_cause, ends_failed, ends_unstopped, end_step,
}
use kuro.Queue.Laws.{update_rows-All, keep-All, update_rows-Unique, keep-Unique}
use kuro.Queue.Next.{In, Found, earliest-Found, In-sole}
use kuro.Queue.Runs.{resting, holding, fetching, RowOk}
use kuro.Queue.Kept.{RowsOk}

All-both {ℓ κ} :
    (P : QueuedDownload → Type ℓ) (Q : QueuedDownload → Type κ) (rows : List QueuedDownload)
    → All P rows
    → All Q rows
    → All (λ r. P r × Q r) rows
All-both P Q [] h k = tt
All-both P Q (r ∷ rows) h k = ((h.0, k.0), All-both P Q rows h.1 k.1)

start_row-RowOk :
    (now : ℕ) (q r : QueuedDownload)
    → RowOk resting r
    → r ≡ q
    → is_row q.anime_id q.ep_key r ≡ true
    → RowOk (holding (start_row now q)) (start_row now r)
unfolding start_row is_row
start_row-RowOk now q r h e k =
    (h.0, λ _. (k, omega (arith, ap (λ (x : QueuedDownload). x.attempts) e)))

-- The claimed row is the only active one.
claim_row-RowsOk :
    (now ms : ℕ) (rows : List QueuedDownload) (q : QueuedDownload)
    → RowsOk resting rows
    → In q rows
    → RowsOk (holding (start_row now q)) (claim_row now rows (some q)).0
unfolding claim_row is_waiting_row start_row
claim_row-RowsOk now ms rows q h m = (
  update_rows-Unique (start_row now) (λ x. (refl, refl)) _ rows h.0,
  update_rows-All (λ r. RowOk resting r × (is_row q.anime_id q.ep_key r ≡ true → r ≡ q))
      (RowOk (holding (start_row now q))) _ (start_row now)
      (λ r k w. start_row-RowOk now q r k.0 (k.1 (ground arith)) (ground arith))
      (λ r k w. (k.0.0, λ a. absurd (k.0.1 a))) rows
      (All-both (RowOk resting) _ rows h.1 (In-sole q rows h.0 m)),
)

abbrev pub AfterClaim : List QueuedDownload × Option QueuedDownload → Type 0
AfterClaim (rows, none) = RowsOk resting rows
AfterClaim (rows, some q) = RowsOk (holding q) rows

AfterClaim-row :
    (now ms : ℕ) (rows : List QueuedDownload) (o : Option QueuedDownload)
    → RowsOk resting rows
    → Found ms rows o
    → AfterClaim (claim_row now rows o)
unfolding claim_row
AfterClaim-row now ms rows none h f = h
AfterClaim-row now ms rows (some q) h f = claim_row-RowsOk now ms rows q h f.0

pub next_queued-AfterClaim :
    (now ms : ℕ) (rows : List QueuedDownload)
    → RowsOk resting rows
    → AfterClaim (next_queued now ms rows)
unfolding next_queued
next_queued-AfterClaim now ms rows h =
    AfterClaim-row now ms rows (earliest ms rows) h (earliest-Found ms rows)

-- The row that was fetched is active no more, and no other was.
module _ (n : QueuedDownload) where
  leave :
      (f : QueuedDownload → QueuedDownload) (p : QueuedDownload → Bool)
      → ((q : QueuedDownload) → ((f q).anime_id ≡ q.anime_id) × ((f q).ep_key ≡ q.ep_key))
      → ((q : QueuedDownload)
          → RowOk (fetching n) q
          → p q ≡ true
          → ((f q).attempts ≤ queue_retries) × (is_active (f q).state ≡ false))
      → ((q : QueuedDownload)
          → is_active q.state ≡ true
          → is_row n.anime_id n.ep_key q ≡ true
          → p q ≡ true)
      → (rows : List QueuedDownload) → RowsOk (fetching n) rows
      → RowsOk resting (update_rows p f rows)
  leave f p key ends covers rows h = (
    update_rows-Unique f key p rows h.0,
    update_rows-All (RowOk (fetching n)) (RowOk resting) p f
        (λ q k t. ((ends q k t).0, λ a. true≢false (sym a ∙ (ends q k t).1)))
        (λ q k t. (k.0, λ a. true≢false (sym (covers q a (k.1 a).0) ∙ t))) rows h.1,
  )

  pub requeue_active-RowsOk :
      (rows : List QueuedDownload)
      → RowsOk (fetching n) rows
      → RowsOk resting (requeue_active n.anime_id n.ep_key rows).0
  unfolding requeue_active requeue_row is_active_row is_active
  requeue_active-RowsOk rows h =
      leave requeue_row (is_active_row n.anime_id n.ep_key) (λ q. (refl, refl))
        (λ q k t. (k.0, refl)) (λ q a r. ground arith) rows h

  pub finish_queued-RowsOk :
      (cause : Option Cause) (rows : List QueuedDownload)
      → RowsOk (fetching n) rows
      → RowsOk resting (finish_queued n.anime_id n.ep_key cause rows)
  unfolding finish_queued fail_row is_active
  finish_queued-RowsOk none rows h = (
    keep-Unique _ rows h.0,
    keep-All (RowOk (fetching n)) (RowOk resting) _
        (λ q k t. (k.0, λ a. true≢false (sym t ∙ ap not (k.1 a).0))) rows h.1,
  )
  finish_queued-RowsOk (some cause) rows h =
      leave (fail_row cause) (is_row n.anime_id n.ep_key) (λ q. (refl, refl)) (λ q k t. (k.0, refl))
        (λ q a r. r) rows h

  defer_retry-RowsOk :
      (now at : ℕ) (cause : Cause) (rows : List QueuedDownload)
      → n.attempts < queue_retries
      → RowsOk (fetching n) rows
      → RowsOk resting (defer_retry now n.anime_id n.ep_key cause at rows)
  unfolding defer_retry defer_row is_active_row
  defer_retry-RowsOk now at cause rows few h =
      leave (defer_row now at cause) (is_active_row n.anime_id n.ep_key) (λ q. (refl, refl))
        (λ q k t. (omega (arith, few, (k.1 (ground arith)).1), refl)) (λ q a r. ground arith) rows h

  put_off-RowsOk :
      (now ms : ℕ) (hash : Option Text) (failure : Failure) (d : Downloader)
      → RowsOk (fetching n) d.rows
      → RowsOk resting
          (if ltb n.attempts queue_retries
            then put_off_row false now ms n failure d
            else finish_row false n (some (last_cause n.attempts failure)) d).rows
  unfolding put_off_row finish_row
  put_off-RowsOk now ms hash failure d h = elim (Bool-cases (ltb n.attempts queue_retries)) [
    | inl e ↦ rw e (
        defer_retry-RowsOk now (ms + queue_retry_delay * (n.attempts + 1)) (describe failure) d.rows
          (ltb→lt _ _ e) h)
    | inr e ↦ rw e (finish_queued-RowsOk (some (last_cause n.attempts failure)) d.rows h)
  ]

  ends_failed-RowsOk :
      (now ms : ℕ) (failure : Failure) (hash : Option Text) (d : Downloader)
      → RowsOk (fetching n) d.rows
      → RowsOk resting (ends_failed no_faults now ms n failure hash d).rows
  unfolding ends_failed finish_row put_back
  ends_failed-RowsOk now ms paused_error hash d h =
      elim (Bool-cases (paused_by_user hash d.user_paused)) [
        | inl e ↦ rw e (finish_queued-RowsOk none d.rows h)
        | inr e ↦ rw e (requeue_active-RowsOk d.rows h)
      ]
  ends_failed-RowsOk now ms seeders_silent hash d h = put_off-RowsOk now ms hash seeders_silent d h
  ends_failed-RowsOk now ms (stall quiet) hash d h = put_off-RowsOk now ms hash (stall quiet) d h
  ends_failed-RowsOk now ms (other why) hash d h =
      finish_queued-RowsOk (some (last_cause n.attempts (other why))) d.rows h

  pub end_step-RowsOk :
      (now ms : ℕ) (result : Option Failure) (hash : Option Text) (d : Downloader)
      → RowsOk (fetching n) d.rows
      → RowsOk resting (end_step no_faults now ms n result hash d).rows
  unfolding end_step put_back ends_unstopped finish_row
  end_step-RowsOk now ms none hash d h = elim (Bool-cases (was_stopped d.current)) [
    | inl e ↦ rw e (requeue_active-RowsOk d.rows h)
    | inr e ↦ rw e (finish_queued-RowsOk none d.rows h)
  ]
  end_step-RowsOk now ms (some failure) hash d h = elim (Bool-cases (was_stopped d.current)) [
    | inl e ↦ rw e (requeue_active-RowsOk d.rows h)
    | inr e ↦ rw e (ends_failed-RowsOk now ms failure hash (record d { current = none }) h)
  ]
