-- ===== src/Queue/Kept.antt =====
-- internal/store/queue.go: each statement keeps a row for each key, the tries of a row in bounds, and no
-- row active but the worker's.
use mathlib.Core.Bool.{true≢false}
use kuro.Base.{
  ℕ, suc, ◌≤◌, ◌≡◌, refl, sym, ◌∙◌, inl, inr, Bool, true, false, List, [], ◌∷◌, All, Text, any,
  keep, Bool-cases, if◌then◌else◌, arith, ◌==◌,
}
use kuro.Base.Int.{ℤ, pos, negsuc}
use kuro.Base.Decimal.{itoa}
use kuro.Queue.Rows.{
  QueuedDownload, State, pending, active, failed, done, is_active, is_row, update_rows, revive,
  revive_any, release_row, set_queued_release, new_row, again, enqueue_one, enqueue_loop, enqueue,
}
use kuro.Queue.Claim.{clear_queue, dequeue, promote_where, front_row, prioritise, promote}
use kuro.Queue.Laws.{
  Unique, KeepsKey, update_rows-All, keep-All, update_rows-Unique, keep-Unique, append_one-Unique,
  All-append_one,
}
use kuro.Queue.Runs.{Phase, resting, holding, fetching, Mine, RowOk}

-- What holds of the rows, whatever else the program does.
abbrev pub RowsOk : Phase → List QueuedDownload → Type 0
RowsOk at rows = Unique rows × All (RowOk at) rows

revive-active : (s : State) → is_active (revive s) ≡ is_active s
unfolding is_active revive
revive-active pending = refl
revive-active active = refl
revive-active failed = refl
revive-active done = refl

revive_any-active : (s : State) → is_active (revive_any s) ≡ is_active s
unfolding is_active revive_any
revive_any-active pending = refl
revive_any-active active = refl
revive_any-active failed = refl
revive_any-active done = refl

-- An update that leaves the key and the state of activity alone and lowers no limit.
record IsMild (f : QueuedDownload → QueuedDownload) : Type 0 where
  key : KeepsKey f
  tries : (q : QueuedDownload) → (f q).attempts ≤ q.attempts
  same : (q : QueuedDownload) → is_active (f q).state ≡ is_active q.state

Mine-mild :
    (f : QueuedDownload → QueuedDownload) (at : Phase) (q : QueuedDownload)
    → IsMild f
    → Mine at q
    → Mine at (f q)
unfolding is_row
Mine-mild f resting q m h = absurd h
Mine-mild f (holding n) q m h = (rw ((m.key q).0, (m.key q).1) h.0, omega (arith, m.tries q, h.1))
Mine-mild f (fetching n) q m h = (rw ((m.key q).0, (m.key q).1) h.0, omega (arith, m.tries q, h.1))

RowOk-mild :
    (f : QueuedDownload → QueuedDownload) (at : Phase) (q : QueuedDownload)
    → IsMild f
    → RowOk at q
    → RowOk at (f q)
RowOk-mild f at q m h =
    (omega (arith, m.tries q, h.0), λ a. Mine-mild f at q m (h.1 (sym (m.same q) ∙ a)))

update-RowsOk :
    (p : QueuedDownload → Bool) (f : QueuedDownload → QueuedDownload) (at : Phase)
    (rows : List QueuedDownload)
    → IsMild f
    → RowsOk at rows
    → RowsOk at (update_rows p f rows)
update-RowsOk p f at rows m h = (
  update_rows-Unique f m.key p rows h.0,
  update_rows-All (RowOk at) (RowOk at) p f (λ q k _. RowOk-mild f at q m k) (λ q k _. k) rows h.1,
)

keep-RowsOk :
    (p : QueuedDownload → Bool) (at : Phase) (rows : List QueuedDownload)
    → RowsOk at rows
    → RowsOk at (keep p rows)
keep-RowsOk p at rows h =
    (keep-Unique p rows h.0, keep-All (RowOk at) (RowOk at) p (λ q k _. k) rows h.1)

release_row-IsMild : (hash name : Text) → IsMild (release_row hash name)
unfolding release_row
release_row-IsMild hash name = record {
  key = λ q. (refl, refl);
  tries = λ q. omega arith;
  same = λ q. revive-active q.state;
}

again-IsMild : IsMild again
unfolding again
again-IsMild = record {
  key = λ q. (refl, refl);
  tries = λ q. omega arith;
  same = λ q. revive_any-active q.state;
}

front_row-IsMild : (rows : List QueuedDownload) → IsMild (front_row rows)
unfolding front_row
front_row-IsMild rows = record {
  key = λ q. (refl, refl);
  tries = λ q. omega arith;
  same = λ q. refl;
}

pub set_queued_release-RowsOk :
    (anime : ℕ) (key hash name : Text) (at : Phase) (rows : List QueuedDownload)
    → RowsOk at rows
    → RowsOk at (set_queued_release anime key hash name rows).0
unfolding set_queued_release
set_queued_release-RowsOk anime key hash name at rows h =
    update-RowsOk (is_row anime key) (release_row hash name) at rows (release_row-IsMild hash name)
      h

enqueue_one-RowsOk :
    (anime season now episode : ℕ) (at : Phase) (rows : List QueuedDownload)
    → RowsOk at rows
    → RowsOk at (enqueue_one anime season now episode rows)
unfolding enqueue_one new_row is_active
enqueue_one-RowsOk anime season now episode at rows h =
    elim (Bool-cases (any (is_row anime (itoa episode)) rows)) [
      | inl e ↦ rw e (update-RowsOk (is_row anime (itoa episode)) again at rows again-IsMild h)
      | inr e ↦
          let q = new_row anime season now episode in
          rw e (
            append_one-Unique q rows e h.0,
            All-append_one (RowOk at) q rows h.1 (omega arith, λ a. absurd (true≢false (sym a))),
          )
    ]

either-RowsOk :
    (at : Phase) (b : Bool) (rows other : List QueuedDownload)
    → RowsOk at rows
    → RowsOk at other
    → RowsOk at (if b then rows else other)
either-RowsOk at true rows other h k = h
either-RowsOk at false rows other h k = k

enqueue_loop-RowsOk :
    (anime season now : ℕ) (episodes : List ℤ) (at : Phase) (rows : List QueuedDownload) (added : ℕ)
    → RowsOk at rows
    → RowsOk at (enqueue_loop anime season now episodes rows added).0
unfolding enqueue_loop
enqueue_loop-RowsOk anime season now [] at rows added h = h
enqueue_loop-RowsOk anime season now (negsuc n ∷ episodes) at rows added h =
    enqueue_loop-RowsOk anime season now episodes at rows added h
enqueue_loop-RowsOk anime season now (pos n ∷ episodes) at rows added h =
    enqueue_loop-RowsOk anime season now episodes at
      (if n == 0 then rows else enqueue_one anime season now n rows)
      (if n == 0 then added else suc added)
      (either-RowsOk at (n == 0) rows (enqueue_one anime season now n rows) h
        (enqueue_one-RowsOk anime season now n at rows h))

pub enqueue-RowsOk :
    (anime season now : ℕ) (episodes : List ℤ) (at : Phase) (rows : List QueuedDownload)
    → RowsOk at rows
    → RowsOk at (enqueue anime season now episodes rows).0
unfolding enqueue
enqueue-RowsOk anime season now episodes at rows h = elim (Bool-cases (anime == 0)) [
  | inl e ↦ rw e h
  | inr e ↦ rw e (enqueue_loop-RowsOk anime season now episodes at rows 0 h)
]

pub clear_queue-RowsOk :
    (at : Phase) (rows : List QueuedDownload) → RowsOk at rows → RowsOk at (clear_queue rows).0
unfolding clear_queue
clear_queue-RowsOk at rows h = keep-RowsOk _ at rows h

pub dequeue-RowsOk :
    (anime : ℕ) (key : Text) (at : Phase) (rows : List QueuedDownload)
    → RowsOk at rows
    → RowsOk at (dequeue anime key rows).0
unfolding dequeue
dequeue-RowsOk anime key at rows h = keep-RowsOk _ at rows h

pub prioritise-RowsOk :
    (anime : ℕ) (key : Text) (at : Phase) (rows : List QueuedDownload)
    → RowsOk at rows
    → RowsOk at (prioritise anime key rows).0
unfolding prioritise promote_where
prioritise-RowsOk anime key at rows h =
    update-RowsOk _ (front_row rows) at rows (front_row-IsMild rows) h

pub promote-RowsOk :
    (anime : ℕ) (key : Text) (at : Phase) (rows : List QueuedDownload)
    → RowsOk at rows
    → RowsOk at (promote anime key rows).0
unfolding promote promote_where
promote-RowsOk anime key at rows h =
    update-RowsOk _ (front_row rows) at rows (front_row-IsMild rows) h
