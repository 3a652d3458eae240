-- ===== src/Queue/Calls.antt =====
-- internal/library/queue.go: what the calls of other goroutines leave of the invariant.
use kuro.Base.{
  ℕ, ◌≡◌, refl, ap, ◌∙◌, inl, inr, Bool, true, false, ◌||◌, List, [], ◌∷◌, Option, none, some, Text,
  Bool-cases, has, arith,
}
use kuro.Queue.Rows.{QueuedDownload}
use kuro.Queue.Worker.{
  Downloader, InFlight, stop_current, wake, set_paused, fetches, now_moved, restart_moved,
  plays_under, hold, leave_watching, release_hold, cancels, cancel_rows, set_user_paused,
}
use kuro.Queue.Runs.{Phase, resting, holding, fetching, World, Names, IsSound}
use kuro.Queue.Kept.{RowsOk}

pub IsSound-of :
    {w : World} → RowsOk w.worker w.down.rows → Names w.worker w.down.current → IsSound w
IsSound-of h n = record { unique = h.0; kept = h.1; named = n }

pub rows_of : {w : World} → IsSound w → RowsOk w.worker w.down.rows
rows_of s = (s.unique, s.kept)

abbrev stopped_flight : Option InFlight → Option InFlight
stopped_flight c = elim c [ none ↦ none | some x ↦ some (record x { stopped = true }) ]

Names-stopped : (at : Phase) (c : Option InFlight) → Names at c → Names at (stopped_flight c)
Names-stopped resting none h = refl
Names-stopped resting (some x) h = cc
Names-stopped (holding n) none h = refl
Names-stopped (holding n) (some x) h = cc
Names-stopped (fetching n) none h = absurd (no_flight h.0 h.1)
  where
    no_flight : (x : InFlight) → ◌≡◌ {A = Option InFlight} none (some x) → ⊥
    no_flight x e = cc
Names-stopped (fetching n) (some x) h =
    let same : x ≡ h.0 = ground (arith, h.1) in
    (
      record x { stopped = true },
      refl,
      ap (λ (y : InFlight). y.anime_id) same ∙ h.2,
      ap (λ (y : InFlight). y.ep_key) same ∙ h.3,
    )

-- Calls that may stop the download in flight, and change the rows.
abbrev pub Calls : Phase → Downloader → Downloader → Type 0
Calls at d d' = (RowsOk at d.rows → RowsOk at d'.rows) × (Names at d.current → Names at d'.current)

pub Calls-IsSound :
    {w : World} (d : Downloader)
    → Calls w.worker w.down d
    → IsSound w
    → IsSound (record w { down = d })
Calls-IsSound {w} d c s = IsSound-of (c.0 (rows_of s)) (c.1 s.named)

pub set_paused-Calls :
    (at : Phase) (paused : Bool) (d : Downloader) → Calls at d (set_paused paused d)
unfolding set_paused stop_current wake
set_paused-Calls at true d = (λ h. h, Names-stopped at d.current)
set_paused-Calls at false d = (λ h. h, λ n. n)

pub now_moved-Calls :
    (at : Phase) (anime : ℕ) (key : Text) (d : Downloader) (r : List QueuedDownload × Bool)
    → (RowsOk at d.rows → RowsOk at r.0)
    → Calls at d (now_moved anime key d r).0
unfolding now_moved set_paused stop_current wake
now_moved-Calls at anime key d (rows, false) h = (h, λ n. n)
now_moved-Calls at anime key d (rows, true) h = elim (Bool-cases (fetches anime key d.current)) [
  | inl e ↦ rw e (h, λ n. n)
  | inr e ↦ rw e (h, Names-stopped at d.current)
]

pub restart_moved-Calls :
    (at : Phase) (d : Downloader) (r : List QueuedDownload × Bool)
    → (RowsOk at d.rows → RowsOk at r.0)
    → Calls at d (restart_moved d r).0
unfolding restart_moved set_paused stop_current wake
restart_moved-Calls at d (rows, false) h = (h, λ n. n)
restart_moved-Calls at d (rows, true) h = (h, Names-stopped at d.current)

pub cancel_rows-Calls :
    (at : Phase) (anime : ℕ) (key : Text) (d : Downloader) (r : List QueuedDownload × ℕ)
    → (RowsOk at d.rows → RowsOk at r.0)
    → Calls at d (cancel_rows anime key d r).0
unfolding cancel_rows stop_current
cancel_rows-Calls at anime key d (rows, removed) h =
    elim (Bool-cases (cancels anime key d.current)) [
      | inl e ↦ rw e (h, Names-stopped at d.current)
      | inr e ↦ rw e (h, λ n. n)
    ]

pub hold-Calls : (at : Phase) (id : Text) (d : Downloader) → Calls at d (hold id d)
unfolding hold stop_current
hold-Calls at id d = elim (Bool-cases (has id d.watching || plays_under id d.current)) [
  | inl e ↦ rw e (λ h. h, λ n. n)
  | inr e ↦ rw e (λ h. h, Names-stopped at d.current)
]

leave_watching-Calls :
    (at : Phase) (d : Downloader) (left : List Text) → Calls at d (leave_watching d left)
unfolding leave_watching wake
leave_watching-Calls at d [] = (λ h. h, λ n. n)
leave_watching-Calls at d (w ∷ left) = (λ h. h, λ n. n)

pub release_hold-Calls : (at : Phase) (id : Text) (d : Downloader) → Calls at d (release_hold id d)
unfolding release_hold
release_hold-Calls at id d = leave_watching-Calls at d _

pub set_user_paused-Calls :
    (at : Phase) (hash : Text) (paused : Bool) (d : Downloader)
    → Calls at d (set_user_paused hash paused d)
unfolding set_user_paused
set_user_paused-Calls at hash true d = (λ h. h, λ n. n)
set_user_paused-Calls at hash false d = (λ h. h, λ n. n)
