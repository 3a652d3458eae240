-- ===== src/Queue/Enqueue.antt =====
-- internal/store/queue.go: what `Enqueue` promises.
use mathlib.Core.Bool.{true≢false}
use mathlib.Core.Path.{subst}
use kuro.Base.{
  ℕ, suc, ◌+◌, ◌≡◌, refl, sym, ◌∙◌, ◌⊎◌, inl, inr, Bool, true, false, ◌&&◌, List, [], ◌∷◌, ◌++◌,
  All, any, Bool-cases, if◌then◌else◌, ◌==◌, arith,
}
use kuro.Base.Int.{ℤ, pos, negsuc}
use kuro.Base.Decimal.{itoa}
use kuro.Queue.Rows.{
  QueuedDownload, State, pending, active, failed, done, is_row, update_rows, revive_any, new_row,
  again, enqueue_one, enqueue_loop, enqueue,
}
use kuro.Queue.Laws.{eq→is_row}

abbrev pub lives : State → Bool
lives pending = true
lives active = true
lives failed = false
lives done = false

revive_any-lives : (s : State) → lives (revive_any s) ≡ true
unfolding revive_any
revive_any-lives pending = refl
revive_any-lives active = refl
revive_any-lives failed = refl
revive_any-lives done = refl

-- An episode of a show waits or is fetched.
abbrev pub is_queued : ℕ → ℕ → List QueuedDownload → Bool
is_queued anime episode rows =
    any (λ (q : QueuedDownload). is_row anime (itoa episode) q && lives q.state) rows

module _ (t : QueuedDownload → Bool) where
  any-update :
      (p : QueuedDownload → Bool) (f : QueuedDownload → QueuedDownload)
      → ((q : QueuedDownload) → t q ≡ true → t (f q) ≡ true)
      → (rows : List QueuedDownload) → any t rows ≡ true
      → any t (update_rows p f rows) ≡ true
  unfolding update_rows
  any-update p f keeps [] h = h
  any-update p f keeps (q ∷ rows) h = elim (Bool-cases (t q)) [
    | inl e ↦ elim (Bool-cases (p q)) [
      | inl k ↦ rw k (rw (keeps q e) refl)
      | inr k ↦ rw k (rw e refl)
    ]
    | inr e ↦ ground (arith, any-update p f keeps rows)
  ]

  any-update_found :
      (p : QueuedDownload → Bool) (f : QueuedDownload → QueuedDownload)
      → ((q : QueuedDownload) → p q ≡ true → t (f q) ≡ true)
      → (rows : List QueuedDownload) → any p rows ≡ true
      → any t (update_rows p f rows) ≡ true
  unfolding update_rows
  any-update_found p f makes [] h = absurd (true≢false (sym h))
  any-update_found p f makes (q ∷ rows) h = elim (Bool-cases (p q)) [
    | inl k ↦ rw k (rw (makes q k) refl)
    | inr k ↦ ground (arith, any-update_found p f makes rows)
  ]

  any-append :
      (q : QueuedDownload) (rows : List QueuedDownload)
      → any t rows ≡ true
      → any t (rows ++ q ∷ []) ≡ true
  any-append q [] h = absurd (true≢false (sym h))
  any-append q (r ∷ rows) h = ground (arith, any-append q rows)

  any-append_last :
      (q : QueuedDownload) (rows : List QueuedDownload) → t q ≡ true → any t (rows ++ q ∷ []) ≡ true
  any-append_last q [] h = rw h refl
  any-append_last q (r ∷ rows) h = ground (arith, any-append_last q rows)

-- How many of the numbers are episodes.
abbrev pub positives : List ℤ → ℕ
positives [] = 0
positives (pos n ∷ episodes) = (if n == 0 then 0 else 1) + positives episodes
positives (negsuc n ∷ episodes) = positives episodes

-- An episode that was asked for; numbers below one are passed over.
abbrev pub IsMet : ℕ → List QueuedDownload → ℤ → Type 0
IsMet anime rows (pos n) = (n ≡ 0) ⊎ (is_queued anime n rows ≡ true)
IsMet anime rows (negsuc n) = Unit

module _ (anime season now : ℕ) where
  again-lives :
      (episode : ℕ) (q : QueuedDownload)
      → is_row anime (itoa episode) q ≡ true
      → (is_row anime (itoa episode) (again q) && lives (again q).state) ≡ true
  unfolding again is_row
  again-lives episode q h = rw (h, revive_any-lives q.state) refl

  again-keeps :
      (episode : ℕ) (q : QueuedDownload)
      → (is_row anime (itoa episode) q && lives q.state) ≡ true
      → (is_row anime (itoa episode) (again q) && lives (again q).state) ≡ true
  again-keeps episode q h = again-lives episode q (ground arith)

  new_row-queued :
      (episode : ℕ)
      → (is_row anime (itoa episode) (new_row anime season now episode)
          && lives (new_row anime season now episode).state)
        ≡ true
  unfolding new_row
  new_row-queued episode =
      rw (eq→is_row anime (itoa episode) (new_row anime season now episode) refl refl) refl

  enqueue_one-queued :
      (episode : ℕ) (rows : List QueuedDownload)
      → is_queued anime episode (enqueue_one anime season now episode rows) ≡ true
  unfolding enqueue_one
  enqueue_one-queued episode rows = elim (Bool-cases (any (is_row anime (itoa episode)) rows)) [
    | inl e ↦ rw e (any-update_found _ _ again (again-lives episode) rows e)
    | inr e ↦
        rw e (any-append_last _ (new_row anime season now episode) rows (new_row-queued episode))
  ]

  enqueue_one-keeps :
      (episode other : ℕ) (rows : List QueuedDownload)
      → is_queued anime episode rows ≡ true
      → is_queued anime episode (enqueue_one anime season now other rows) ≡ true
  unfolding enqueue_one
  enqueue_one-keeps episode other rows h =
      elim (Bool-cases (any (is_row anime (itoa other)) rows)) [
        | inl e ↦ rw e (any-update _ _ again (again-keeps episode) rows h)
        | inr e ↦ rw e (any-append _ (new_row anime season now other) rows h)
      ]

  enqueue_loop-keeps :
      (episode : ℕ) (episodes : List ℤ) (rows : List QueuedDownload) (added : ℕ)
      → is_queued anime episode rows ≡ true
      → is_queued anime episode (enqueue_loop anime season now episodes rows added).0 ≡ true
  unfolding enqueue_loop
  enqueue_loop-keeps episode [] rows added h = h
  enqueue_loop-keeps episode (negsuc n ∷ episodes) rows added h =
      enqueue_loop-keeps episode episodes rows added h
  enqueue_loop-keeps episode (pos n ∷ episodes) rows added h =
      enqueue_loop-keeps episode episodes
        (if n == 0 then rows else enqueue_one anime season now n rows)
        (if n == 0 then added else suc added)
        (either (n == 0) rows (enqueue_one anime season now n rows) h
          (enqueue_one-keeps episode n rows h))
    where
      either :
          (b : Bool) (x y : List QueuedDownload)
          → is_queued anime episode x ≡ true
          → is_queued anime episode y ≡ true
          → is_queued anime episode (if b then x else y) ≡ true
      either true x y h k = h
      either false x y h k = k

  picked-queued :
      (n : ℕ) (rows : List QueuedDownload)
      → (n == 0) ≡ false
      → is_queued anime n (if n == 0 then rows else enqueue_one anime season now n rows) ≡ true
  picked-queued n rows h =
      subst
        (λ b. is_queued anime n (if b then rows else enqueue_one anime season now n rows) ≡ true)
        (sym h) (enqueue_one-queued n rows)

  first-IsMet :
      (n : ℕ) (episodes : List ℤ) (rows : List QueuedDownload) (added : ℕ)
      → IsMet anime
          (enqueue_loop anime season now episodes
            (if n == 0 then rows else enqueue_one anime season now n rows)
            added).0
          (pos n)
  first-IsMet n episodes rows added = elim (Bool-cases (n == 0)) [
    | inl e ↦ inl (ground arith)
    | inr e ↦ inr (enqueue_loop-keeps n episodes _ added (picked-queued n rows e))
  ]

  tally :
      (b : Bool) (added more : ℕ)
      → (if b then added else suc added) + more ≡ added + ((if b then 0 else 1) + more)
  tally true added more = omega arith
  tally false added more = omega arith

  enqueue_loop-IsMet :
      (episodes : List ℤ) (rows : List QueuedDownload) (added : ℕ)
      → All (IsMet anime (enqueue_loop anime season now episodes rows added).0) episodes
        × ((enqueue_loop anime season now episodes rows added).1 ≡ added + positives episodes)
  unfolding enqueue_loop
  enqueue_loop-IsMet [] rows added = (tt, omega arith)
  enqueue_loop-IsMet (negsuc n ∷ episodes) rows added =
      let (met, sum) = enqueue_loop-IsMet episodes rows added in ((tt, met), sum)
  enqueue_loop-IsMet (pos n ∷ episodes) rows added =
      let rows' = if n == 0 then rows else enqueue_one anime season now n rows in
      let added' = if n == 0 then added else suc added in
      let (met, sum) = enqueue_loop-IsMet episodes rows' added' in
      ((first-IsMet n episodes rows added', met), sum ∙ tally (n == 0) added (positives episodes))

-- After `Enqueue` for a show, each episode that was asked for waits or is fetched, whatever state a row
-- of it had before, and the count returned is that of the numbers from one up.
pub enqueue-IsMet :
    (anime season now : ℕ) (episodes : List ℤ) (rows : List QueuedDownload)
    → (anime == 0) ≡ false
    → All (IsMet anime (enqueue anime season now episodes rows).0) episodes
      × ((enqueue anime season now episodes rows).1 ≡ positives episodes)
unfolding enqueue
enqueue-IsMet anime season now episodes rows h =
    let (met, sum) = enqueue_loop-IsMet anime season now episodes rows 0 in
    rw h (met, sum ∙ omega arith)
