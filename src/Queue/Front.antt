-- ===== src/Queue/Front.antt =====
-- internal/store/queue.go: a row that is moved to the front is the next one claimed.
use mathlib.Core.Bool.{true≢false}
use kuro.Base.{
  ℕ, ◌≡◌, refl, sym, ap, ◌∙◌, ◌⊎◌, inl, inr, Bool, true, false, List, [], ◌∷◌, All, Option, none,
  some, Text, any, Bool-cases, if◌then◌else◌, arith,
}
use kuro.Base.Int.{ℤ, pos, ◌-ℤ◌, leb_ℤ, -ℤ_parts}
use kuro.Queue.Rows.{QueuedDownload, is_row, update_rows}
use kuro.Queue.Claim.{
  can_start, is_due, before, earliest, start_row, is_waiting_row, claim_row, next_queued,
  min_queued, first_queued, front_row, promote_where, prioritise,
}
use kuro.Queue.Laws.{update_rows-All}
use kuro.Queue.Next.{In, All-in, Found, earliest-Found}

update_rows-In :
    (p : QueuedDownload → Bool) (f : QueuedDownload → QueuedDownload) (rows : List QueuedDownload)
    → any p rows ≡ true
    → (r : QueuedDownload) × (p r ≡ true) × In (f r) (update_rows p f rows)
unfolding update_rows
update_rows-In p f [] h = absurd (true≢false (sym h))
update_rows-In p f (r ∷ rows) h = elim (Bool-cases (p r)) [
  | inl e ↦ (r, e, rw e (inl refl))
  | inr e ↦ let (x, t, m) = update_rows-In p f rows (ground arith) in (x, t, inr m)
]

leb_ℤ_trans : (a b c : ℤ) → leb_ℤ a b ≡ true → leb_ℤ b c ≡ true → leb_ℤ a c ≡ true
leb_ℤ_trans a b c h k = ground arith

lesser_le :
    (a b : ℤ)
    → (leb_ℤ (if leb_ℤ a b then a else b) a ≡ true) × (leb_ℤ (if leb_ℤ a b then a else b) b ≡ true)
lesser_le a b = elim (Bool-cases (leb_ℤ a b)) [
  | inl e ↦ rw e (ground arith, e)
  | inr e ↦ rw e (ground arith, ground arith)
]

min_queued_le :
    (least : ℤ) (rows : List QueuedDownload)
    → (leb_ℤ (min_queued least rows) least ≡ true)
      × All (λ (r : QueuedDownload). leb_ℤ (min_queued least rows) r.queued_at ≡ true) rows
unfolding min_queued
min_queued_le least [] = (ground arith, tt)
min_queued_le least (q ∷ rows) =
    let m = if leb_ℤ least q.queued_at then least else q.queued_at in
    let (low, each) = min_queued_le m rows in
    let (a, b) = lesser_le least q.queued_at in
    (
      leb_ℤ_trans (min_queued m rows) m least low a,
      (leb_ℤ_trans (min_queued m rows) m q.queued_at low b, each),
    )

first_queued_le :
    (rows : List QueuedDownload)
    → All (λ (r : QueuedDownload). leb_ℤ (first_queued (pos 0) rows) r.queued_at ≡ true) rows
unfolding first_queued
first_queued_le [] = tt
first_queued_le (q ∷ rows) = min_queued_le q.queued_at rows

first_queued-own :
    (own : ℤ) (rows : List QueuedDownload)
    → (p : QueuedDownload → Bool) → any p rows ≡ true
    → first_queued own rows ≡ first_queued (pos 0) rows
unfolding first_queued
first_queued-own own [] p h = absurd (true≢false (sym h))
first_queued-own own (q ∷ rows) p h = refl

module _ (ms anime : ℕ) (key : Text) (first : ℤ) where
  -- A row at the front, and one that comes after it.
  abbrev Ahead : QueuedDownload → Type 0
  Ahead r = (is_row anime key r ≡ true) × (can_start ms r ≡ true) × (r.queued_at ≡ first -ℤ pos 1)

  abbrev Behind : QueuedDownload → Type 0
  Behind r = leb_ℤ first r.queued_at ≡ true

  Ahead-before : (q r : QueuedDownload) → Ahead q → Behind r → before q r ≡ true
  unfolding before
  Ahead-before q r a b = ground (arith, -ℤ_parts first (pos 1))

  earliest-Ahead :
      (rows : List QueuedDownload) (o : Option QueuedDownload) (x : QueuedDownload)
      → Found ms rows o
      → All (λ r. Ahead r ⊎ Behind r) rows
      → In x rows
      → Ahead x
      → (q : QueuedDownload) × (o ≡ some q) × (is_row anime key q ≡ true)
  earliest-Ahead rows none x f all m a =
      absurd (true≢false (sym a.1 ∙ All-in (λ r. can_start ms r ≡ false) x rows m f))
  earliest-Ahead rows (some q) x f all m a =
      elim (All-in (λ r. Ahead r ⊎ Behind r) q rows f.0 all) [
        | inl b ↦ (q, refl, b.0)
        | inr b ↦ absurd (
            true≢false (
              sym (Ahead-before x q a b)
              ∙ All-in (λ r. can_start ms r ≡ true → before r q ≡ false) x rows m f.2 a.1))
      ]

front_row-Ahead :
    (ms anime : ℕ) (key : Text) (rows : List QueuedDownload) (q : QueuedDownload)
    → any (is_waiting_row anime key) rows ≡ true
    → is_waiting_row anime key q ≡ true
    → Ahead ms anime key (first_queued (pos 0) rows) (front_row rows q)
unfolding is_waiting_row is_row front_row can_start is_due
front_row-Ahead ms anime key rows q some_row h = (
  ground arith,
  ground arith,
  ap (λ (m : ℤ). m -ℤ pos 1)
      (first_queued-own q.queued_at rows (is_waiting_row anime key) some_row),
)

-- A waiting episode that `Prioritise` moves to the front is the next that the worker claims, whatever
-- the other rows are, and even if it was to wait for a later try.
pub prioritise-next_queued :
    (now ms anime : ℕ) (key : Text) (rows : List QueuedDownload)
    → any (is_waiting_row anime key) rows ≡ true
    → (taken : QueuedDownload) × ((next_queued now ms (prioritise anime key rows).0).1 ≡ some taken)
      × (is_row anime key taken ≡ true)
unfolding next_queued prioritise promote_where claim_row start_row is_row
prioritise-next_queued now ms anime key rows h =
    let moved = update_rows (is_waiting_row anime key) (front_row rows) rows in
    let first = first_queued (pos 0) rows in
    let (x, t, m) = update_rows-In (is_waiting_row anime key) (front_row rows) rows h in
    let all =
      update_rows-All (Behind ms anime key first)
        (λ r. Ahead ms anime key first r ⊎ Behind ms anime key first r) (is_waiting_row anime key)
        (front_row rows) (λ q b w. inl (front_row-Ahead ms anime key rows q h w)) (λ q b w. inr b)
        rows (first_queued_le rows) in
    let (q, e, k) =
      earliest-Ahead ms anime key first moved (earliest ms moved) (front_row rows x)
        (earliest-Found ms moved) all m (front_row-Ahead ms anime key rows x h t) in
    (start_row now q, rw e refl, k)
