-- ===== src/Sync/Settled.antt =====
-- internal/store/sync.go and internal/library/sync.go: an entry that is not flagged for a push is one that the
-- tracker knows, in every order of edits, pushes, merges and removals.
use mathlib.Core.Bool.{true≢false}
use mathlib.Core.Path.{subst}
use kuro.Base.{
  ◌||◌, ◌==◌, ltb, ℕ, ◌≡◌, ◌≢◌, refl, sym, ◌∙◌, ◌⊎◌, inl, inr, Bool, true, false, not, ◌&&◌, Option,
  none, some, leb, Bool-cases, if◌then◌else◌, arith,
}
use kuro.Base.Int.{ℤ}
use kuro.Sync.Entry.{ListEntry}
use kuro.Sync.Remote.{Entry, clear_dirty_at, push_failed, takes_remote, merge_entry, merge_row}
use kuro.Sync.Push.{
  set_progress, Message, message_of, Phase, idle, reading, answered, World, begin, push_begin,
  answer, push_answer, clear, push_end, pull, Deletion, unasked, deleted, refused, remove, Edit,
  run_edit, is_quiet,
}
use kuro.Sync.Runs.{
  Step, edits, pushes, answers, ends, fails, merges, removes, restarts, Reached, begins, steps,
}
use kuro.Sync.Edits.{if-P, Edited, run_edit-Edited}
use kuro.Sync.Agreement.{Sent, Says, Clean, Since, InFlight, Settled, Edited-Clean, Edited-Since}

run_edit-Settled :
    (edit : Edit) (w : World)
    → (w.push ≡ idle) ⊎ (is_quiet edit w.row ≡ false)
    → Settled w
    → Settled (record w { row = run_edit edit w.row })
run_edit-Settled edit w apart s = record {
  clean =
      Edited-Clean (is_quiet edit w.row) w.told w.row (run_edit edit w.row)
        (run_edit-Edited edit w.row) s.clean;
  flight = edited_flight w.push apart s.flight;
}
  where
    edited_flight :
        (phase : Phase)
        → (phase ≡ idle) ⊎ (is_quiet edit w.row ≡ false)
        → InFlight phase w.row w.told
        → InFlight phase (run_edit edit w.row) w.told
    edited_flight idle apart f = tt
    edited_flight (reading d) (inl e) f = cc
    edited_flight (reading d) (inr q) f =
        Edited-Since d w.row (run_edit edit w.row)
          (subst (λ x. Edited x w.row (run_edit edit w.row)) q (run_edit-Edited edit w.row)) f
    edited_flight (answered d id at) (inl e) f = cc
    edited_flight (answered d id at) (inr q) (f, t) = (
      Edited-Since d w.row (run_edit edit w.row)
          (subst (λ x. Edited x w.row (run_edit edit w.row)) q (run_edit-Edited edit w.row)) f,
      t,
    )

message_of-Says : (e : ListEntry) → Says (message_of e) e
unfolding message_of set_progress
message_of-Says e = (
  refl,
  sent e.repeat_count (ltb 0 e.repeat_count) refl,
  if-P (λ o. Sent o e.score) (ltb 0 e.score || (e.score_cleared && e.score == 0)) (some e.score)
      none (λ c. refl) (λ c. ground arith),
  inl refl,
)
  where
    sent : (n : ℕ) (b : Bool) → ltb 0 n ≡ b → Sent (if b then some n else none) n
    sent n true h = refl
    sent n false h = ground arith

begin-InFlight :
    (force : Bool) (row : Option ListEntry) (told : Option Message)
    → InFlight (begin force row) row told
unfolding begin
begin-InFlight force none told = tt
begin-InFlight force (some e) told =
    if-P (λ p. InFlight p (some e) told) (not e.dirty && not force) idle (reading e) (λ c. tt)
      (λ c. (omega arith, λ x. message_of-Says e))

push_begin-Settled : (force : Bool) (w : World) → Settled w → Settled (push_begin force w)
unfolding push_begin
push_begin-Settled force w s = record {
  clean = s.clean;
  flight = begin-InFlight force w.row w.told;
}

answered-Clean :
    (d : ListEntry) (row : Option ListEntry) → Since d row → Clean (some (message_of d)) row
answered-Clean d none s = tt
answered-Clean d (some e) s = λ c. (message_of d, refl, s.1 (inr c))

answer-Settled :
    (saved : Option (Option ℤ × ℕ)) (phase : Phase) (w : World)
    → w.push ≡ phase
    → InFlight phase w.row w.told
    → Settled w
    → Settled (answer saved phase w)
unfolding answer
answer-Settled saved idle w e f s = s
answer-Settled saved (answered d id at) w e f s = s
answer-Settled none (reading d) w e f s = record { clean = s.clean; flight = tt }
answer-Settled (some (id, at)) (reading d) w e f s = record {
  clean = answered-Clean d w.row f;
  flight = (f, refl);
}

clear_dirty_at-Clean :
    (id : Option ℤ) (at : ℕ) (d : ListEntry) (told : Option Message) (row : Option ListEntry)
    → Since d row
    → told ≡ some (message_of d)
    → Clean told (clear_dirty_at id at d.local_updated_at row)
unfolding clear_dirty_at
clear_dirty_at-Clean id at d told none s t = tt
clear_dirty_at-Clean id at d told (some e) (l, k) t = λ c. (
  message_of d,
  t,
  (elim (Bool-cases (leb e.local_updated_at d.local_updated_at)) [
    | inl b ↦ k (inl (ground arith))
    | inr b ↦ k (inr (kept_flag (leb e.local_updated_at d.local_updated_at) e.dirty b c))
  ]),
)
  where
    kept_flag : (b dirty : Bool) → b ≡ false → (if b then false else dirty) ≡ false → dirty ≡ false
    kept_flag true dirty h k = absurd (true≢false h)
    kept_flag false dirty h k = k

clear-Settled :
    (phase : Phase) (w : World) → InFlight phase w.row w.told → Settled w → Settled (clear phase w)
unfolding clear
clear-Settled idle w f s = s
clear-Settled (reading d) w f s = s
clear-Settled (answered d id at) w (f, t) s = record {
  clean = clear_dirty_at-Clean id at d w.told w.row f t;
  flight = tt;
}

push_failed-Clean :
    (now : ℕ) (told : Option Message) (row : Option ListEntry)
    → Clean told row
    → Clean told (push_failed now row)
unfolding push_failed
push_failed-Clean now told none c = c
push_failed-Clean now told (some e) c = c

push_failed-InFlight :
    (now : ℕ) (phase : Phase) (row : Option ListEntry) (told : Option Message)
    → InFlight phase row told
    → InFlight phase (push_failed now row) told
unfolding push_failed
push_failed-InFlight now phase none told f = f
push_failed-InFlight now idle (some e) told f = f
push_failed-InFlight now (reading d) (some e) told f = f
push_failed-InFlight now (answered d id at) (some e) told f = f

at_rest :
    (phase : Phase) (row : Option ListEntry) (told : Option Message)
    → phase ≡ idle
    → InFlight phase row told
at_rest idle row told h = tt
at_rest (reading d) row told h = cc
at_rest (answered d id at) row told h = cc

pull-Clean :
    (v : Entry) (now : ℕ) (row : Option ListEntry) (m : Message)
    → m.progress ≡ v.progress
    → Sent m.repeat v.repeat
    → Sent m.score v.score
    → m.status ≡ v.status
    → takes_remote v row ≡ true
    → Clean (some m) (merge_entry v now row)
unfolding merge_entry merge_row
pull-Clean v now none m p r s t h = λ c. (m, refl, (p, r, s, inl t))
pull-Clean v now (some e) m p r s t h =
    if-P (Clean (some m)) (takes_remote v (some e)) (some (merge_row v e)) (some e)
      (λ x c. (m, refl, (p, r, s, inl t))) (λ x. absurd (true≢false (sym h ∙ x)))

pull-Settled :
    (v : Entry) (now : ℕ) (w : World) → w.push ≡ idle → Settled w → Settled (pull v now w)
unfolding pull
pull-Settled v now w rest s =
    if-P Settled (takes_remote v w.row) _ w
      (λ h. record {
        clean = pull-Clean v now w.row _ refl refl refl refl h;
        flight = at_rest w.push _ _ rest;
      })
      (λ h. s)

remove-Settled :
    (deletion : Deletion) (mal : Bool) (w : World)
    → w.push ≡ idle
    → (mal ≡ true) ⊎ (deletion ≢ deleted)
    → Settled w
    → Settled (remove deletion mal w)
unfolding remove
remove-Settled refused mal w rest h s = s
remove-Settled unasked true w rest h s = record {
  clean = tt;
  flight = at_rest w.push none w.told rest;
}
remove-Settled unasked false w rest h s = s
remove-Settled deleted true w rest h s = record {
  clean = tt;
  flight = at_rest w.push none none rest;
}
remove-Settled deleted false w rest (inl e) s = absurd (true≢false (sym e))
remove-Settled deleted false w rest (inr n) s = absurd (n refl)

Step-Settled : {w w' : World} → Step w w' → Settled w → Settled w'
unfolding push_answer push_end
Step-Settled {w} (edits edit apart) s = run_edit-Settled edit w apart s
Step-Settled {w} (pushes force rest) s = push_begin-Settled force w s
Step-Settled {w} (answers saved) s = answer-Settled saved w.push w refl s.flight s
Step-Settled {w} ends s = clear-Settled w.push w s.flight s
Step-Settled {w} (fails now) s = record {
  clean = push_failed-Clean now w.told w.row s.clean;
  flight = push_failed-InFlight now w.push w.row w.told s.flight;
}
Step-Settled {w} (merges v now rest) s = pull-Settled v now w rest s
Step-Settled {w} (removes deletion mal rest h) s = remove-Settled deletion mal w rest h s
Step-Settled {w} restarts s = record { clean = s.clean; flight = tt }

-- However edits (also those that MyAnimeList brings), the three parts of pushes, merges, removals and
-- restarts follow one another: when the row of the show is not flagged for a push, the progress on it is the
-- one in the last request that AniList took or the last entry merged from it; so are the score and the
-- number of rewatches, except that a request may have left out one that is 0; and so is the status,
-- unless that was none and has become current since. So an edit made while a push is in flight stays
-- flagged. Left out are, while a push is in flight, a merge and a call of `MarkWatched` whose first
-- statement changes nothing, a push that reads the row between the two statements of `MarkWatched`, and a
-- removal that AniList grants and MyAnimeList does not.
pub Reached-Settled : {w : World} → Reached w → Clean w.told w.row
Reached-Settled r = (settled r).clean
  where
    settled : {w : World} → Reached w → Settled w
    settled begins = record { clean = tt; flight = tt }
    settled (steps r step) = Step-Settled step (settled r)
