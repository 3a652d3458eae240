-- ===== src/Sync/Runs.antt =====
-- internal/store/sync.go and internal/library/sync.go: every order of edits, parts of pushes, merges and
-- removals of one show.
use kuro.Base.{ℕ, ◌≡◌, ◌≢◌, ◌⊎◌, Bool, true, false, Option, none}
use kuro.Base.Int.{ℤ}
use kuro.Sync.Remote.{Entry, push_failed}
use kuro.Sync.Push.{
  World, idle, push_begin, push_answer, push_end, pull, Deletion, deleted, remove, Edit, run_edit,
  is_quiet,
}

pub data Step : World → World → Type 0 where
  -- While a push is in flight, no call of `MarkWatched` completes the entry in its second statement alone,
  -- and no push reads the row between the two statements.
  edits :
      {w : World} (edit : Edit)
      → (w.push ≡ idle) ⊎ (is_quiet edit w.row ≡ false)
      → Step w (record w { row = run_edit edit w.row })
  pushes : {w : World} (force : Bool) → w.push ≡ idle → Step w (push_begin force w)
  answers : {w : World} (saved : Option (Option ℤ × ℕ)) → Step w (push_answer saved w)
  ends : {w : World} → Step w (push_end w)
  fails : {w : World} (now : ℕ) → Step w (record w { row = push_failed now w.row })
  merges : {w : World} (v : Entry) (now : ℕ) → w.push ≡ idle → Step w (pull v now w)
  -- `Remove` holds the lock of the pushes. AniList does not delete where MyAnimeList then fails.
  removes :
      {w : World} (deletion : Deletion) (mal : Bool)
      → w.push ≡ idle
      → (mal ≡ true) ⊎ (deletion ≢ deleted)
      → Step w (remove deletion mal w)
  -- The program stops in the middle of a push, and starts again.
  restarts : {w : World} → Step w (record w { push = idle })

-- The show is not on the list.
abbrev pub unlisted : World
unlisted = record { row = none; push = idle; told = none }

pub data Reached : World → Type 0 where
  begins : Reached unlisted
  steps : {w w' : World} → Reached w → Step w w' → Reached w'
