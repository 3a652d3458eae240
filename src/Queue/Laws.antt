-- ===== src/Queue/Laws.antt =====
-- What updates and deletions keep of the rows of the queue, and that a key stands once.

use kuro.Base.{
  ℕ, ◌≡◌, refl, sym, inl, inr, Bool, true, false, List, [], ◌∷◌, ◌++◌, All, Text, text_eq_iff, keep,
  any, Bool-cases, arith,
}
use kuro.Queue.Rows.{QueuedDownload, is_row, update_rows}

module _ {ℓ κ} (P : QueuedDownload → Type ℓ) (Q : QueuedDownload → Type κ) where
  pub update_rows-All :
      (p : QueuedDownload → Bool) (f : QueuedDownload → QueuedDownload)
      → ((q : QueuedDownload) → P q → p q ≡ true → Q (f q))
      → ((q : QueuedDownload) → P q → p q ≡ false → Q q)
      → (rows : List QueuedDownload) → All P rows
      → All Q (update_rows p f rows)
  unfolding update_rows
  update_rows-All p f changed same [] h = tt
  update_rows-All p f changed same (q ∷ rows) h = elim (Bool-cases (p q)) [
    | inl e ↦ rw e (changed q h.0 e, update_rows-All p f changed same rows h.1)
    | inr e ↦ rw e (same q h.0 e, update_rows-All p f changed same rows h.1)
  ]

  pub keep-All :
      (p : QueuedDownload → Bool)
      → ((q : QueuedDownload) → P q → p q ≡ true → Q q)
      → (rows : List QueuedDownload) → All P rows
      → All Q (keep p rows)
  keep-All p kept [] h = tt
  keep-All p kept (q ∷ rows) h = elim (Bool-cases (p q)) [
    | inl e ↦ rw e (kept q h.0 e, keep-All p kept rows h.1)
    | inr e ↦ rw e (keep-All p kept rows h.1)
  ]

-- The rows of one show and episode, by equations.
pub is_row→eq :
    (anime : ℕ) (key : Text) (q : QueuedDownload)
    → is_row anime key q ≡ true
    → (q.anime_id ≡ anime) × (q.ep_key ≡ key)
unfolding is_row
is_row→eq anime key q h = ground (arith, text_eq_iff q.ep_key key)

pub eq→is_row :
    (anime : ℕ) (key : Text) (q : QueuedDownload)
    → q.anime_id ≡ anime
    → q.ep_key ≡ key
    → is_row anime key q ≡ true
unfolding is_row
eq→is_row anime key q h k = ground (arith, text_eq_iff q.ep_key key)

-- PRIMARY KEY (anime_id, ep_key)
abbrev pub Unique : List QueuedDownload → Type 0
Unique [] = Unit
Unique (q ∷ rows) = (any (is_row q.anime_id q.ep_key) rows ≡ false) × Unique rows

-- An update that leaves the key alone.
abbrev pub KeepsKey : (QueuedDownload → QueuedDownload) → Type 0
KeepsKey f = (q : QueuedDownload) → ((f q).anime_id ≡ q.anime_id) × ((f q).ep_key ≡ q.ep_key)

module _ (f : QueuedDownload → QueuedDownload) (same : KeepsKey f) where
  is_row-same :
      (anime : ℕ) (key : Text) (q : QueuedDownload) → is_row anime key (f q) ≡ is_row anime key q
  unfolding is_row
  is_row-same anime key q = rw ((same q).0, (same q).1) refl

  pub any-update_rows :
      (p : QueuedDownload → Bool) (anime : ℕ) (key : Text) (rows : List QueuedDownload)
      → any (is_row anime key) (update_rows p f rows) ≡ any (is_row anime key) rows
  unfolding update_rows
  any-update_rows p anime key [] = refl
  any-update_rows p anime key (q ∷ rows) = elim (Bool-cases (p q)) [
    | inl e ↦ rw (e, is_row-same anime key q, any-update_rows p anime key rows) refl
    | inr e ↦ rw (e, any-update_rows p anime key rows) refl
  ]

  pub update_rows-Unique :
      (p : QueuedDownload → Bool) (rows : List QueuedDownload)
      → Unique rows
      → Unique (update_rows p f rows)
  unfolding update_rows
  update_rows-Unique p [] u = tt
  update_rows-Unique p (q ∷ rows) u = elim (Bool-cases (p q)) [
    | inl e ↦
        rw (e, (same q).0, (same q).1, any-update_rows p q.anime_id q.ep_key rows)
          (u.0, update_rows-Unique p rows u.1)
    | inr e ↦
        rw (e, any-update_rows p q.anime_id q.ep_key rows) (u.0, update_rows-Unique p rows u.1)
  ]

any-keep :
    (p t : QueuedDownload → Bool) (rows : List QueuedDownload)
    → any t rows ≡ false
    → any t (keep p rows) ≡ false
any-keep p t [] h = refl
any-keep p t (q ∷ rows) h = ground (arith, any-keep p t rows)

pub keep-Unique :
    (p : QueuedDownload → Bool) (rows : List QueuedDownload) → Unique rows → Unique (keep p rows)
keep-Unique p [] u = tt
keep-Unique p (q ∷ rows) u = elim (Bool-cases (p q)) [
  | inl e ↦ rw e (any-keep p _ rows u.0, keep-Unique p rows u.1)
  | inr e ↦ rw e (keep-Unique p rows u.1)
]

any-append_one :
    (t : QueuedDownload → Bool) (q : QueuedDownload) (rows : List QueuedDownload)
    → any t rows ≡ false
    → t q ≡ false
    → any t (rows ++ q ∷ []) ≡ false
any-append_one t q [] h k = ground arith
any-append_one t q (r ∷ rows) h k = ground (arith, any-append_one t q rows)

is_row_comm :
    (q r : QueuedDownload)
    → is_row q.anime_id q.ep_key r ≡ true
    → is_row r.anime_id r.ep_key q ≡ true
is_row_comm q r h =
    let (a, k) = is_row→eq q.anime_id q.ep_key r h in eq→is_row _ _ q (sym a) (sym k)

pub append_one-Unique :
    (q : QueuedDownload) (rows : List QueuedDownload)
    → any (is_row q.anime_id q.ep_key) rows ≡ false
    → Unique rows
    → Unique (rows ++ q ∷ [])
append_one-Unique q [] h u = (refl, tt)
append_one-Unique q (r ∷ rows) h u = elim (Bool-cases (is_row r.anime_id r.ep_key q)) [
  | inl e ↦ ground (arith, is_row_comm r q e)
  | inr e ↦ (any-append_one _ q rows u.0 e, append_one-Unique q rows (ground arith) u.1)
]

pub All-append_one {ℓ} :
    (P : QueuedDownload → Type ℓ) (q : QueuedDownload) (rows : List QueuedDownload)
    → All P rows
    → P q
    → All P (rows ++ q ∷ [])
All-append_one P q [] h p = (p, tt)
All-append_one P q (r ∷ rows) h p = (h.0, All-append_one P q rows h.1 p)
