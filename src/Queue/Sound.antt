-- ===== src/Queue/Sound.antt =====
-- internal/library/queue.go: the invariant of the queue over every order of the steps.
use mathlib.Core.Bool.{true≢false}
use mathlib.Core.Path.{subst}
use kuro.Base.{
  ℕ, ◌≤◌, ◌≡◌, refl, sym, ◌∙◌, inl, inr, Bool, true, false, List, [], ◌∷◌, All, Option, none, some,
  Text, any, keep, length, Bool-cases, arith,
}
use kuro.Queue.Rows.{QueuedDownload, is_active, is_row, reset_active, requeue_row}
use kuro.Queue.Claim.{next_queued, prioritise, promote, dequeue}
use kuro.Queue.Worker.{
  Downloader, held, restore_paused, start_now, restart, cancel, no_faults, Failure, paused_error,
  seeders_silent, stall, other,
}
use kuro.Queue.Step.{
  claimed, claim_next, take_up, put_back, finish_row, put_off_row, ends_failed, ends_unstopped,
  end_step, start_run,
}
use kuro.Queue.Laws.{is_row→eq, update_rows-All, update_rows-Unique}
use kuro.Queue.Runs.{
  Phase, resting, holding, fetching, World, after_claim, Step, claims, takes_up, ends, enqueues,
  chooses, clears, starts_now, restarts, cancels_show, pauses, watches_on, releases, user_pauses,
  reboots, Reached, begins, steps, Mine, RowOk, Names, IsSound, with_rows,
}
use kuro.Queue.Kept.{
  RowsOk, set_queued_release-RowsOk, enqueue-RowsOk, clear_queue-RowsOk, dequeue-RowsOk,
  prioritise-RowsOk, promote-RowsOk,
}
use kuro.Queue.Calls.{
  IsSound-of, rows_of, Calls-IsSound, set_paused-Calls, now_moved-Calls, restart_moved-Calls,
  cancel_rows-Calls, hold-Calls, release_hold-Calls, set_user_paused-Calls,
}
use kuro.Queue.Ends.{AfterClaim, next_queued-AfterClaim, end_step-RowsOk}

-- The worker's own steps: the phase it stands in is an equation, so each lemma takes it as it is.
module _ (d : Downloader) where
  claim_next-IsSound :
      (now ms : ℕ)
      → RowsOk resting d.rows
      → Names resting d.current
      → IsSound (after_claim (claim_next now ms d))
  unfolding claim_next after_claim
  claim_next-IsSound now ms h n =
      after (next_queued now ms d.rows) (next_queued-AfterClaim now ms d.rows h)
    where
      after :
          (r : List QueuedDownload × Option QueuedDownload)
          → AfterClaim r
          → IsSound (after_claim (claimed d r))
      after (rows, none) k = IsSound-of k n
      after (rows, some q) k = IsSound-of k n

  take_up-IsSound :
      (q : QueuedDownload)
      → RowsOk (holding q) d.rows
      → IsSound (record { down = take_up q d; worker = fetching q })
  unfolding take_up
  take_up-IsSound q h =
      IsSound-of h
        (record { anime_id = q.anime_id; ep_key = q.ep_key; stopped = held d }, refl, refl, refl)

  end_step-current :
      (now ms : ℕ) (q : QueuedDownload) (result : Option Failure) (hash : Option Text)
      → (end_step no_faults now ms q result hash d).current ≡ none
  unfolding end_step put_back ends_unstopped ends_failed finish_row put_off_row
  end_step-current now ms q none hash = ground arith
  end_step-current now ms q (some paused_error) hash = ground arith
  end_step-current now ms q (some seeders_silent) hash = ground arith
  end_step-current now ms q (some (stall quiet)) hash = ground arith
  end_step-current now ms q (some (other why)) hash = ground arith

reset_active-RowsOk :
    (at : Phase) (rows : List QueuedDownload) → RowsOk at rows → RowsOk resting (reset_active rows)
unfolding reset_active requeue_row is_active
reset_active-RowsOk at rows h = (
  update_rows-Unique requeue_row (λ q. (refl, refl)) _ rows h.0,
  update_rows-All (RowOk at) (RowOk resting) _ requeue_row (λ q k t. (k.0, λ a. true≢false (sym a)))
      (λ q k t. (k.0, λ a. true≢false (sym a ∙ t))) rows h.1,
)

start_run-IsSound :
    (at : Phase) (rows : List QueuedDownload) (setting : Bool)
    → RowsOk at rows
    → IsSound (record { down = start_run false rows setting; worker = resting })
unfolding start_run restore_paused
start_run-IsSound at rows true h = IsSound-of (reset_active-RowsOk at rows h) refl
start_run-IsSound at rows false h = IsSound-of (reset_active-RowsOk at rows h) refl

module _ {w : World} (s : IsSound w) where
  rows_at : (at : Phase) → w.worker ≡ at → RowsOk at w.down.rows
  rows_at at e = subst (λ p. RowsOk p w.down.rows) e (rows_of s)

  names_at : (at : Phase) → w.worker ≡ at → Names at w.down.current
  names_at at e = subst (λ p. Names p w.down.current) e s.named

  with_rows-IsSound :
      (rows : List QueuedDownload) → RowsOk w.worker rows → IsSound (with_rows w rows)
  with_rows-IsSound rows h = IsSound-of h s.named

Step-IsSound : {w w' : World} → Step w w' → IsSound w → IsSound w'
unfolding start_now restart cancel
Step-IsSound {w} (claims now ms e) s =
    claim_next-IsSound w.down now ms (rows_at s resting e) (names_at s resting e)
Step-IsSound {w} (takes_up q e) s = take_up-IsSound w.down q (rows_at s (holding q) e)
Step-IsSound {w} (ends q now ms result hash e) s =
    IsSound-of (end_step-RowsOk q now ms result hash w.down (rows_at s (fetching q) e))
      (end_step-current w.down now ms q result hash)
Step-IsSound {w} (enqueues anime season now episodes) s =
    with_rows-IsSound s _
      (enqueue-RowsOk anime season now episodes w.worker w.down.rows (rows_of s))
Step-IsSound {w} (chooses anime key hash name) s =
    with_rows-IsSound s _
      (set_queued_release-RowsOk anime key hash name w.worker w.down.rows (rows_of s))
Step-IsSound {w} clears s =
    with_rows-IsSound s _ (clear_queue-RowsOk w.worker w.down.rows (rows_of s))
Step-IsSound {w} (starts_now anime key) s =
    Calls-IsSound _
      (now_moved-Calls w.worker anime key w.down (prioritise anime key w.down.rows)
        (prioritise-RowsOk anime key w.worker w.down.rows))
      s
Step-IsSound {w} (restarts anime key) s =
    Calls-IsSound _
      (restart_moved-Calls w.worker w.down (promote anime key w.down.rows)
        (promote-RowsOk anime key w.worker w.down.rows))
      s
Step-IsSound {w} (cancels_show anime key) s =
    Calls-IsSound _
      (cancel_rows-Calls w.worker anime key w.down (dequeue anime key w.down.rows)
        (dequeue-RowsOk anime key w.worker w.down.rows))
      s
Step-IsSound {w} (pauses paused) s = Calls-IsSound _ (set_paused-Calls w.worker paused w.down) s
Step-IsSound {w} (watches_on id) s = Calls-IsSound _ (hold-Calls w.worker id w.down) s
Step-IsSound {w} (releases id) s = Calls-IsSound _ (release_hold-Calls w.worker id w.down) s
Step-IsSound {w} (user_pauses hash paused) s =
    Calls-IsSound _ (set_user_paused-Calls w.worker hash paused w.down) s
Step-IsSound {w} reboots s = start_run-IsSound w.worker w.down.rows w.down.setting (rows_of s)

-- However the worker, the calls that queue, choose, move, cancel, pause or hold, and restarts of the
-- program interleave, with every statement succeeding: an episode has one row, no row counts more
-- than two tries that were put off, a row that is active is the one that the worker holds or fetches, with no
-- more tries than the worker read, and the episode that the worker says it fetches is that one.
pub Reached-IsSound : {w : World} → Reached w → IsSound w
Reached-IsSound begins = start_run-IsSound resting [] false (tt, tt)
Reached-IsSound (steps r step) = Step-IsSound step (Reached-IsSound r)

no_active :
    (at : Phase) (q : QueuedDownload) (rows : List QueuedDownload)
    → Mine at q
    → any (is_row q.anime_id q.ep_key) rows ≡ false
    → All (RowOk at) rows
    → keep (λ r. is_active r.state) rows ≡ []
no_active at q [] m h k = refl
no_active at q (r ∷ rows) m h k = elim (Bool-cases (is_active r.state)) [
  | inl e ↦ absurd (true≢false (sym (shares at q r m (k.0.1 e)) ∙ ground arith))
  | inr e ↦ rw e (no_active at q rows m (ground arith) k.1)
]
  where
    shares :
        (at : Phase) (q r : QueuedDownload)
        → Mine at q
        → Mine at r
        → is_row q.anime_id q.ep_key r ≡ true
    shares resting q r m k = absurd m
    shares (holding n) q r m k = let (a, b) = is_row→eq n.anime_id n.ep_key q m.0 in rw (a, b) k.0
    shares (fetching n) q r m k = let (a, b) = is_row→eq n.anime_id n.ep_key q m.0 in rw (a, b) k.0

length-active :
    (at : Phase) (rows : List QueuedDownload)
    → RowsOk at rows
    → length (keep (λ r. is_active r.state) rows) ≤ 1
length-active at [] h = omega arith
length-active at (q ∷ rows) h = elim (Bool-cases (is_active q.state)) [
  | inl e ↦ rw (e, no_active at q rows (h.1.0.1 e) h.0.0 h.1.1) (omega arith)
  | inr e ↦ rw e (length-active at rows (h.0.1, h.1.1))
]

-- The queue is serial: in no order of the steps are two rows active at once.
pub Reached-serial :
    {w : World} → Reached w → length (keep (λ r. is_active r.state) w.down.rows) ≤ 1
Reached-serial {w} r = length-active w.worker w.down.rows (rows_of (Reached-IsSound r))
