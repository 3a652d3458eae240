-- ===== src/Queue/Claim.antt =====
-- internal/store/queue.go: which row comes next, and the statements that move or drop rows. Where two
-- rows tie in the order of the query, SQLite may take either; the model takes the first.
use kuro.Base.{
  ℕ, Bool, true, not, ◌&&◌, ◌||◌, List, [], ◌∷◌, Option, none, some, Text, keep, any, length, leb,
  ltb, ◌==◌, if◌then◌else◌,
}
use kuro.Base.Int.{ℤ, pos, ◌-ℤ◌, leb_ℤ}
use kuro.Queue.Rows.{QueuedDownload, State, active, is_pending, is_active, is_row, update_rows}

-- `retry_at IS NULL OR retry_at <= ?`
unfoldable pub is_due : ℕ → Option ℕ → Bool
is_due ms none = true
is_due ms (some at) = leb at ms

-- `state = 'pending' AND (retry_at IS NULL OR retry_at <= ?)`
unfoldable pub can_start : ℕ → QueuedDownload → Bool
unfolding is_pending is_due
can_start ms q = is_pending q.state && is_due ms q.retry_at

-- `ORDER BY queued_at, episode`, strictly.
unfoldable pub before : QueuedDownload → QueuedDownload → Bool
before a b =
    not (leb_ℤ b.queued_at a.queued_at) || leb_ℤ a.queued_at b.queued_at && ltb a.episode b.episode

unfoldable pub first_of : QueuedDownload → Option QueuedDownload → QueuedDownload
unfolding before
first_of q none = q
first_of q (some r) = if before r q then r else q

-- The row that the subquery selects.
unfoldable pub earliest : ℕ → List QueuedDownload → Option QueuedDownload
unfolding can_start first_of
earliest ms [] = none
earliest ms (q ∷ rows) =
    let rest = earliest ms rows in if can_start ms q then some (first_of q rest) else rest

unfoldable pub start_row : ℕ → QueuedDownload → QueuedDownload
start_row now q = record q { state = active; started_at = some now }

unfoldable pub is_waiting_row : ℕ → Text → QueuedDownload → Bool
unfolding is_pending is_row
is_waiting_row anime key q = is_pending q.state && is_row anime key q

unfoldable pub claim_row :
    ℕ → List QueuedDownload → Option QueuedDownload → List QueuedDownload × Option QueuedDownload
unfolding update_rows start_row is_waiting_row
claim_row now rows none = (rows, none)
claim_row now rows (some q) =
    (update_rows (is_waiting_row q.anime_id q.ep_key) (start_row now) rows, some (start_row now q))

-- `now` in seconds and `ms` in milliseconds are read from one clock.
unfoldable pub next_queued :
    ℕ → ℕ → List QueuedDownload → List QueuedDownload × Option QueuedDownload
unfolding claim_row earliest
next_queued now ms rows = claim_row now rows (earliest ms rows)

unfoldable pub peek_queued : ℕ → List QueuedDownload → Option QueuedDownload
unfolding earliest
peek_queued ms rows = earliest ms rows

least : Option ℕ → Option ℕ → Option ℕ
least none b = b
least (some a) none = some a
least (some a) (some b) = some (if leb a b then a else b)

retry_of : ℕ → QueuedDownload → Option ℕ → Option ℕ
unfolding is_pending
retry_of ms q none = none
retry_of ms q (some at) = if is_pending q.state && ltb ms at then some at else none

unfoldable pub next_retry : ℕ → List QueuedDownload → Option ℕ
unfolding least retry_of
next_retry ms [] = none
next_retry ms (q ∷ rows) = least (retry_of ms q q.retry_at) (next_retry ms rows)

-- `SELECT min(queued_at)` over the rows and one value more.
unfoldable pub min_queued : ℤ → List QueuedDownload → ℤ
min_queued least [] = least
min_queued least (q ∷ rows) =
    min_queued (if leb_ℤ least q.queued_at then least else q.queued_at) rows

unfoldable pub first_queued : ℤ → List QueuedDownload → ℤ
unfolding min_queued
first_queued own [] = own
first_queued own (q ∷ rows) = min_queued q.queued_at rows

unfoldable pub front_row : List QueuedDownload → QueuedDownload → QueuedDownload
unfolding first_queued
front_row rows q = record q { queued_at = first_queued q.queued_at rows -ℤ pos 1; retry_at = none }

unfoldable pub promote_where :
    (State → Bool) → ℕ → Text → List QueuedDownload → List QueuedDownload × Bool
unfolding is_row update_rows front_row
promote_where states anime key rows =
    let here = λ (q : QueuedDownload). states q.state && is_row anime key q in
    (update_rows here (front_row rows) rows, any here rows)

unfoldable pub prioritise : ℕ → Text → List QueuedDownload → List QueuedDownload × Bool
unfolding promote_where is_pending
prioritise anime key rows = promote_where is_pending anime key rows

unfoldable pub promote : ℕ → Text → List QueuedDownload → List QueuedDownload × Bool
unfolding promote_where is_pending is_active
promote anime key rows = promote_where (λ s. is_pending s || is_active s) anime key rows

unfoldable pub is_asked : ℕ → Text → QueuedDownload → Bool
unfolding is_row
is_asked anime [] q = q.anime_id == anime
is_asked anime (c ∷ key) q = is_row anime (c ∷ key) q

unfoldable pub dequeue : ℕ → Text → List QueuedDownload → List QueuedDownload × ℕ
unfolding is_asked
dequeue anime key rows =
    (keep (λ q. not (is_asked anime key q)) rows, length (keep (is_asked anime key) rows))

unfoldable pub clear_queue : List QueuedDownload → List QueuedDownload × ℕ
unfolding is_active
clear_queue rows =
    (keep (λ q. is_active q.state) rows, length (keep (λ q. not (is_active q.state)) rows))
