-- ===== src/Queue/Next.antt =====
-- internal/store/queue.go: which row `NextQueued` claims, and what a move to the front does.
use mathlib.Core.Bool.{true≢false}
use mathlib.Core.Path.{subst}
use kuro.Base.{
  ℕ, ◌≡◌, refl, sym, ap, ◌∙◌, ◌⊎◌, inl, inr, true, false, List, [], ◌∷◌, map, All, Option, none,
  some, any, Bool-cases, if◌then◌else◌, arith,
}
use kuro.Queue.Rows.{QueuedDownload, is_row, is_pending, update_rows}
use kuro.Queue.Claim.{
  can_start, before, first_of, earliest, start_row, is_waiting_row, claim_row, next_queued,
}
use kuro.Queue.Laws.{Unique, is_row→eq, eq→is_row}

before_self : (q : QueuedDownload) → before q q ≡ false
unfolding before
before_self q = ground arith

before_swap : (a b : QueuedDownload) → before a b ≡ true → before b a ≡ false
unfolding before
before_swap a b h = ground arith

before_link :
    (a b c : QueuedDownload) → before a b ≡ false → before b c ≡ false → before a c ≡ false
unfolding before
before_link a b c h k = ground arith

-- A row of the table.
abbrev pub In : QueuedDownload → List QueuedDownload → Type 0
In q [] = ⊥
In q (r ∷ rows) = (r ≡ q) ⊎ In q rows

pub All-in {ℓ} :
    (P : QueuedDownload → Type ℓ) (q : QueuedDownload) (rows : List QueuedDownload)
    → In q rows
    → All P rows
    → P q
All-in P q [] m h = absurd m
All-in P q (r ∷ rows) (inl e) h = subst P e h.0
All-in P q (r ∷ rows) (inr m) h = All-in P q rows m h.1

-- What a search among the rows found.
abbrev pub Found : ℕ → List QueuedDownload → Option QueuedDownload → Type 0
Found ms rows none = All (λ r. can_start ms r ≡ false) rows
Found ms rows (some q) =
    In q rows × (can_start ms q ≡ true) × All (λ r. can_start ms r ≡ true → before r q ≡ false) rows

none-others :
    (ms : ℕ) (q : QueuedDownload) (rows : List QueuedDownload)
    → All (λ r. can_start ms r ≡ false) rows
    → All (λ r. can_start ms r ≡ true → before r q ≡ false) rows
none-others ms q [] h = tt
none-others ms q (r ∷ rows) h = (λ k. absurd (true≢false (sym k ∙ h.0)), none-others ms q rows h.1)

weaken :
    (ms : ℕ) (q r : QueuedDownload) (rows : List QueuedDownload)
    → ((x : QueuedDownload) → before x r ≡ false → before x q ≡ false)
    → All (λ x. can_start ms x ≡ true → before x r ≡ false) rows
    → All (λ x. can_start ms x ≡ true → before x q ≡ false) rows
weaken ms q r [] f h = tt
weaken ms q r (x ∷ rows) f h = (λ c. f x (h.0 c), weaken ms q r rows f h.1)

first_of-later : (q r : QueuedDownload) → before r q ≡ true → first_of q (some r) ≡ r
unfolding first_of
first_of-later q r e = rw e refl

first_of-here : (q r : QueuedDownload) → before r q ≡ false → first_of q (some r) ≡ q
unfolding first_of
first_of-here q r e = rw e refl

first_of-none : (q : QueuedDownload) → first_of q none ≡ q
unfolding first_of
first_of-none q = refl

first_of-Found :
    (ms : ℕ) (q : QueuedDownload) (rows : List QueuedDownload) (o : Option QueuedDownload)
    → can_start ms q ≡ true
    → Found ms rows o
    → Found ms (q ∷ rows) (some (first_of q o))
first_of-Found ms q rows none c h =
    subst (λ x. Found ms (q ∷ rows) (some x)) (sym (first_of-none q))
      (inl refl, c, (λ _. before_self q, none-others ms q rows h))
first_of-Found ms q rows (some r) c h = elim (Bool-cases (before r q)) [
  | inl e ↦
      subst (λ x. Found ms (q ∷ rows) (some x)) (sym (first_of-later q r e))
        (inr h.0, h.1, (λ _. before_swap r q e, h.2))
  | inr e ↦
      subst (λ x. Found ms (q ∷ rows) (some x)) (sym (first_of-here q r e))
        (inl refl, c, (λ _. before_self q, weaken ms q r rows (λ x k. before_link x r q k e) h.2))
]

skip-Found :
    (ms : ℕ) (q : QueuedDownload) (rows : List QueuedDownload) (o : Option QueuedDownload)
    → can_start ms q ≡ false
    → Found ms rows o
    → Found ms (q ∷ rows) o
skip-Found ms q rows none c h = (c, h)
skip-Found ms q rows (some r) c h = (inr h.0, h.1, (λ k. absurd (true≢false (sym k ∙ c)), h.2))

pub earliest-Found : (ms : ℕ) (rows : List QueuedDownload) → Found ms rows (earliest ms rows)
unfolding earliest
earliest-Found ms [] = tt
earliest-Found ms (q ∷ rows) = elim (Bool-cases (can_start ms q)) [
  | inl e ↦ rw e (first_of-Found ms q rows (earliest ms rows) e (earliest-Found ms rows))
  | inr e ↦ rw e (skip-Found ms q rows (earliest ms rows) e (earliest-Found ms rows))
]

pub In-any :
    (q : QueuedDownload) (rows : List QueuedDownload)
    → In q rows
    → any (is_row q.anime_id q.ep_key) rows ≡ true
In-any q [] m = absurd m
In-any q (r ∷ rows) (inl e) =
    rw
      (eq→is_row _ _ r (ap (λ (x : QueuedDownload). x.anime_id) e)
        (ap (λ (x : QueuedDownload). x.ep_key) e))
      refl
In-any q (r ∷ rows) (inr m) = ground (arith, In-any q rows m)

any-false-All :
    (q : QueuedDownload) (rows : List QueuedDownload)
    → any (is_row q.anime_id q.ep_key) rows ≡ false
    → All (λ r. is_row q.anime_id q.ep_key r ≡ true → r ≡ q) rows
any-false-All q [] h = tt
any-false-All q (r ∷ rows) h = elim (Bool-cases (is_row q.anime_id q.ep_key r)) [
  | inl e ↦ ground arith
  | inr e ↦ (λ k. absurd (true≢false (sym k ∙ e)), any-false-All q rows (ground arith))
]

-- A key stands once: a row with the key of another is that row.
pub In-sole :
    (q : QueuedDownload) (rows : List QueuedDownload)
    → Unique rows
    → In q rows
    → All (λ r. is_row q.anime_id q.ep_key r ≡ true → r ≡ q) rows
In-sole q [] u m = tt
In-sole q (r ∷ rows) u (inl e) = (
  λ _. e,
  any-false-All q rows
      (subst (λ (x : QueuedDownload). any (is_row x.anime_id x.ep_key) rows ≡ false) e u.0),
)
In-sole q (r ∷ rows) u (inr m) = (
  λ k.
      let (a, e) = is_row→eq q.anime_id q.ep_key r k in
      absurd (true≢false (sym (In-any q rows m) ∙ rw (sym a, sym e) u.0)),
  In-sole q rows u.1 m,
)

-- The row that is claimed, put in its place.
abbrev pub put_row : QueuedDownload → QueuedDownload → QueuedDownload
put_row q r = if is_row q.anime_id q.ep_key r then q else r

update_rows-put_row :
    (now : ℕ) (q : QueuedDownload) (rows : List QueuedDownload)
    → is_pending q.state ≡ true
    → All (λ r. is_row q.anime_id q.ep_key r ≡ true → r ≡ q) rows
    → update_rows (is_waiting_row q.anime_id q.ep_key) (start_row now) rows
      ≡ map (put_row (start_row now q)) rows
unfolding update_rows is_waiting_row start_row
update_rows-put_row now q [] p h = refl
update_rows-put_row now q (r ∷ rows) p h = elim (Bool-cases (is_row q.anime_id q.ep_key r)) [
  | inl e ↦
      let same : r ≡ q = h.0 e in
      rw
        (
          e,
          ap (λ (x : QueuedDownload). is_pending x.state) same ∙ p,
          update_rows-put_row now q rows p h.1,
        )
        (ap (λ x. start_row now x ∷ map (put_row (start_row now q)) rows) same)
  | inr e ↦ ground (arith, update_rows-put_row now q rows p h.1)
]

-- What a claim does.
abbrev pub Claims :
    ℕ → ℕ → List QueuedDownload → List QueuedDownload × Option QueuedDownload → Type 0
Claims now ms rows (rows', none) = (rows' ≡ rows) × All (λ r. can_start ms r ≡ false) rows
Claims now ms rows (rows', some taken) =
    (q : QueuedDownload) × In q rows
    × (can_start ms q ≡ true)
    × All (λ r. can_start ms r ≡ true → before r q ≡ false) rows
    × (taken ≡ start_row now q)
    × (rows' ≡ map (put_row taken) rows)

claim_row-Claims :
    (now ms : ℕ) (rows : List QueuedDownload) (o : Option QueuedDownload)
    → Unique rows
    → Found ms rows o
    → Claims now ms rows (claim_row now rows o)
unfolding claim_row can_start
claim_row-Claims now ms rows none u f = (refl, f)
claim_row-Claims now ms rows (some q) u f =
    (q, f.0, f.1, f.2, refl, update_rows-put_row now q rows (ground arith) (In-sole q rows u f.0))

-- `NextQueued` finds no row exactly when none is pending and due, and then changes nothing.
-- Otherwise it claims a row that is pending and due and before which none that is comes in the order
-- of the queue, marks it active, and leaves every other row alone.
pub next_queued-Claims :
    (now ms : ℕ) (rows : List QueuedDownload)
    → Unique rows
    → Claims now ms rows (next_queued now ms rows)
unfolding next_queued
next_queued-Claims now ms rows u =
    claim_row-Claims now ms rows (earliest ms rows) u (earliest-Found ms rows)
