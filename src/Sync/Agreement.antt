-- ===== src/Sync/Agreement.antt =====
-- internal/store/sync.go and internal/library/sync.go: an entry against what the tracker was told, and against
-- the row that a push has read.
use mathlib.Core.Bool.{true≢false}
use mathlib.Core.Path.{subst}
use kuro.Base.{ℕ, ◌≤◌, ◌≡◌, sym, ◌∙◌, ◌⊎◌, inl, inr, Bool, false, Option, none, some, arith}
use kuro.Sync.Entry.{current, ListEntry}
use kuro.Sync.Push.{Message, message_of, Phase, idle, reading, answered, World}
use kuro.Sync.Edits.{Touch, Edited}

-- A number as it was sent; 0 may be left out.
abbrev pub Sent : Option ℕ → ℕ → Type 0
Sent none n = n ≡ 0
Sent (some k) n = k ≡ n

-- The last message between the two is what the entry says, where a score or a number of rewatches of 0 may have
-- been left out of it; where it had no status, the entry may have become current since.
abbrev pub Says : Message → ListEntry → Type 0
Says m e =
    (m.progress ≡ e.progress)
    × Sent m.repeat e.repeat_count
    × Sent m.score e.score
    × ((m.status ≡ e.status) ⊎ ((m.status ≡ none) × (e.status ≡ some current)))

abbrev pub Told : Option Message → ListEntry → Type 0
Told told e = (m : Message) × (told ≡ some m) × Says m e

abbrev pub Clean : Option Message → Option ListEntry → Type 0
Clean told none = Unit
Clean told (some e) = e.dirty ≡ false → Told told e

-- The row since a push read it.
abbrev pub Since : ListEntry → Option ListEntry → Type 0
Since d none = ⊥
Since d (some e) =
    (d.local_updated_at ≤ e.local_updated_at)
    × (((e.local_updated_at ≡ d.local_updated_at) ⊎ (e.dirty ≡ false)) → Says (message_of d) e)

abbrev pub InFlight : Phase → Option ListEntry → Option Message → Type 0
InFlight idle row told = Unit
InFlight (reading d) row told = Since d row
InFlight (answered d id at) row told = Since d row × (told ≡ some (message_of d))

pub record Settled (w : World) : Type 0 where
  pub clean : Clean w.told w.row
  pub flight : InFlight w.push w.row w.told

pub Touch-Says : (m : Message) (e e' : ListEntry) → Touch e e' → Says m e → Says m e'
Touch-Says m e e' (d, p, r, s, n, c) (a, b, f, inl g) =
    (a ∙ sym p, subst (Sent m.repeat) (sym r) b, subst (Sent m.score) (sym s) f, inr (g ∙ n, c))
Touch-Says m e e' (d, p, r, s, n, c) (a, b, f, inr (g, g')) =
    (a ∙ sym p, subst (Sent m.repeat) (sym r) b, subst (Sent m.score) (sym s) f, inr (g, c))

pub Touch-Told :
    (told : Option Message) (e e' : ListEntry) → Touch e e' → Told told e → Told told e'
Touch-Told told e e' t (m, h, says) = (m, h, Touch-Says m e e' t says)

pub Edited-Clean :
    (quiet : Bool) (told : Option Message) (row row' : Option ListEntry)
    → Edited quiet row row'
    → Clean told row
    → Clean told row'
Edited-Clean quiet told none none h c = tt
Edited-Clean quiet told none (some e') h c = λ d. absurd (true≢false (sym h ∙ d))
Edited-Clean quiet told (some e) none h c = absurd h
Edited-Clean quiet told (some e) (some e') (inl same) c =
    subst (λ x. Clean told (some x)) (sym same) c
Edited-Clean quiet told (some e) (some e') (inr (l, inl f)) c = λ d. absurd (true≢false (sym f ∙ d))
Edited-Clean quiet told (some e) (some e') (inr (l, inr t)) c =
    λ d. Touch-Told told e e' t (c (sym t.0 ∙ d))

pub Edited-Since :
    (d : ListEntry) (row row' : Option ListEntry)
    → Edited false row row'
    → Since d row
    → Since d row'
Edited-Since d none row' h s = absurd s
Edited-Since d (some e) none h s = absurd h
Edited-Since d (some e) (some e') (inl same) s = subst (λ x. Since d (some x)) (sym same) s
Edited-Since d (some e) (some e') (inr (inr q, t)) s = absurd (true≢false (sym q))
Edited-Since d (some e) (some e') (inr (inl later, inl f)) (l, k) = (
  omega arith,
  λ x. elim x [ inl same ↦ absurd (omega arith) | inr c ↦ absurd (true≢false (sym f ∙ c)) ],
)
Edited-Since d (some e) (some e') (inr (inl later, inr t)) (l, k) = (
  omega arith,
  λ x. elim x [
    | inl same ↦ absurd (omega arith)
    | inr c ↦ Touch-Says (message_of d) e e' t (k (inr (sym t.0 ∙ c)))
  ],
)
