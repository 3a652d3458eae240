-- ===== src/Queue/Patient.antt =====
-- internal/library/queue.go: rounds that come late enough for every deferred try, and a queue that runs
-- dry.
use kuro.Base.{
  ℕ, ◌+◌, ◌*◌, ◌≤◌, ◌≡◌, ◌≢◌, refl, inl, inr, Bool, true, false, List, [], ◌∷◌, All, Option, none,
  some, Text, Bool-cases, if◌then◌else◌, ltb, ltb→lt, arith,
}
use kuro.Queue.Rows.{
  QueuedDownload, Cause, update_rows, is_active_row, defer_row, defer_retry, fail_row,
  finish_queued,
}
use kuro.Queue.Claim.{is_due}
use kuro.Queue.Worker.{
  Downloader, Failure, paused_error, seeders_silent, stall, other, no_faults, held, queue_retries,
  queue_retry_delay, describe,
}
use kuro.Queue.Step.{finish_row, put_off_row, put_back, last_cause, ends_failed, ends_unstopped}
use kuro.Queue.Laws.{update_rows-All, keep-All}

-- Every deferred try is due by then.
abbrev pub AllDue : ℕ → List QueuedDownload → Type 0
AllDue ms rows = All (λ (q : QueuedDownload). is_due ms q.retry_at ≡ true) rows

-- The longest wait for a later try: ten minutes.
abbrev pub longest_wait : ℕ
longest_wait = 2 * queue_retry_delay

is_due-later : (a b : ℕ) (o : Option ℕ) → a ≤ b → is_due a o ≡ true → is_due b o ≡ true
unfolding is_due
is_due-later a b none le h = refl
is_due-later a b (some at) le h = ground arith

pub AllDue-later : (a b : ℕ) (rows : List QueuedDownload) → a ≤ b → AllDue a rows → AllDue b rows
AllDue-later a b [] le h = tt
AllDue-later a b (q ∷ rows) le h =
    (is_due-later a b q.retry_at le h.0, AllDue-later a b rows le h.1)

pub update-AllDue :
    (ms : ℕ) (p : QueuedDownload → Bool) (f : QueuedDownload → QueuedDownload)
    (rows : List QueuedDownload)
    → ((q : QueuedDownload) → is_due ms q.retry_at ≡ true → is_due ms (f q).retry_at ≡ true)
    → AllDue ms rows
    → AllDue ms (update_rows p f rows)
update-AllDue ms p f rows keeps h =
    update_rows-All (λ (q : QueuedDownload). is_due ms q.retry_at ≡ true)
      (λ (q : QueuedDownload). is_due ms q.retry_at ≡ true) p f (λ q k t. keeps q k) (λ q k t. k)
      rows h

finish_queued-AllDue :
    (ms anime : ℕ) (key : Text) (cause : Option Cause) (rows : List QueuedDownload)
    → AllDue ms rows
    → AllDue ms (finish_queued anime key cause rows)
unfolding finish_queued fail_row
finish_queued-AllDue ms anime key none rows h =
    keep-All (λ (q : QueuedDownload). is_due ms q.retry_at ≡ true)
      (λ (q : QueuedDownload). is_due ms q.retry_at ≡ true) _ (λ q k t. k) rows h
finish_queued-AllDue ms anime key (some cause) rows h =
    update-AllDue ms _ (fail_row cause) rows (λ q k. k) h

module _ (ms : ℕ) (n : QueuedDownload) where
  put_off-AllDue :
      (now : ℕ) (failure : Failure) (d : Downloader)
      → AllDue ms d.rows
      → AllDue
          (ms + longest_wait)
          (if ltb n.attempts queue_retries
            then put_off_row false now ms n failure d
            else finish_row false n (some (last_cause n.attempts failure)) d).rows
  unfolding put_off_row finish_row defer_retry defer_row is_due
  put_off-AllDue now failure d h = elim (Bool-cases (ltb n.attempts queue_retries)) [
    | inl e ↦ rw e (
        update-AllDue (ms + longest_wait) (is_active_row n.anime_id n.ep_key)
          (defer_row now (ms + queue_retry_delay * (n.attempts + 1)) (describe failure)) d.rows
          (λ q k. ground (arith, ltb→lt n.attempts queue_retries e))
          (AllDue-later ms (ms + longest_wait) d.rows (omega arith) h))
    | inr e ↦ rw e (
        AllDue-later ms (ms + longest_wait) _ (omega arith) (
          finish_queued-AllDue ms n.anime_id n.ep_key (some (last_cause n.attempts failure)) d.rows
            h))
  ]

  pub ends_unstopped-AllDue :
      (now : ℕ) (result : Option Failure) (hash : Option Text) (d : Downloader)
      → result ≢ some paused_error
      → AllDue ms d.rows
      → AllDue (ms + longest_wait) (ends_unstopped no_faults now ms n result hash d).rows
  unfolding ends_unstopped ends_failed finish_row
  ends_unstopped-AllDue now none hash d ne h =
      AllDue-later ms (ms + longest_wait) _ (omega arith)
        (finish_queued-AllDue ms n.anime_id n.ep_key none d.rows h)
  ends_unstopped-AllDue now (some paused_error) hash d ne h = absurd (ne refl)
  ends_unstopped-AllDue now (some seeders_silent) hash d ne h =
      put_off-AllDue now seeders_silent d h
  ends_unstopped-AllDue now (some (stall quiet)) hash d ne h = put_off-AllDue now (stall quiet) d h
  ends_unstopped-AllDue now (some (other why)) hash d ne h =
      AllDue-later ms (ms + longest_wait) _ (omega arith) (
        finish_queued-AllDue ms n.anime_id n.ep_key (some (last_cause n.attempts (other why)))
          d.rows h)

  pub ends_unstopped-held :
      (now : ℕ) (result : Option Failure) (hash : Option Text) (d : Downloader)
      → held (ends_unstopped no_faults now ms n result hash d) ≡ held d
  unfolding ends_unstopped ends_failed finish_row put_off_row put_back held
  ends_unstopped-held now none hash d = refl
  ends_unstopped-held now (some paused_error) hash d = ground arith
  ends_unstopped-held now (some seeders_silent) hash d = ground arith
  ends_unstopped-held now (some (stall quiet)) hash d = ground arith
  ends_unstopped-held now (some (other why)) hash d = refl
