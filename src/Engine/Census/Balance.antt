-- ===== src/Engine/Census/Balance.antt =====
-- internal/engine/census.go: the lines of the log account for every peer.
use kuro.Base.{
  ℕ, suc, ◌+◌, ◌-◌, ◌≡◌, refl, sym, ap, ◌∙◌, inl, inr, Bool, true, false, not, ◌||◌, List, [], ◌∷◌,
  ◌++◌, Text, text_eq, text_eq_iff, has, keep, count, length, Bool-cases, ltb, ◌==◌, if◌then◌else◌,
  arith,
}
use kuro.Engine.Census.{
  Headcount, Line, census_every, set_of, insert_text, sort_texts, look, report, note,
}

abbrev pub one_if : Bool → ℕ
one_if b = if b then 1 else 0

count-append : (a : Text) (xs ys : List Text) → count a (xs ++ ys) ≡ count a xs + count a ys
count-append a [] ys = omega arith
count-append a (x ∷ xs) ys = ground (arith, count-append a xs ys)

-- The elements that pass a test that holds of the text, or does not.
count-keep :
    (p : Text → Bool) (a : Text) (xs : List Text)
    → count a (keep p xs) ≡ (if p a then count a xs else 0)
count-keep p a [] = ground arith
count-keep p a (x ∷ xs) = elim (Bool-cases (text_eq x a)) [
  | inl same ↦
      let equal = (text_eq_iff x a).0 same in
      elim (Bool-cases (p x)) [
        | inl px ↦
            let pa : p a ≡ true = ap p (sym equal) ∙ px in
            rw (px, pa, same) (ap suc (rw pa at (count-keep p a xs)))
        | inr px ↦
            let pa : p a ≡ false = ap p (sym equal) ∙ px in
            rw (px, pa) (rw pa at (count-keep p a xs))
      ]
  | inr other ↦ elim (Bool-cases (p x)) [
    | inl px ↦ rw (px, other) (count-keep p a xs)
    | inr px ↦ rw (px, other) (count-keep p a xs)
  ]
]

has-set_of : (a : Text) (xs : List Text) → has a (set_of xs) ≡ has a xs
unfolding has set_of
has-set_of a [] = refl
has-set_of a (x ∷ xs) = elim (Bool-cases (has x (set_of xs))) [
  | inr new' ↦ rw new' (ap (λ b. text_eq x a || b) (has-set_of a xs))
  | inl old ↦ rw old (elim (Bool-cases (text_eq x a)) [
    | inr other ↦ rw other (has-set_of a xs)
    | inl same ↦ rw same (ap (λ y. has y (set_of xs)) (sym ((text_eq_iff x a).0 same)) ∙ old)
  ])
]

count-set_of : (a : Text) (xs : List Text) → count a (set_of xs) ≡ one_if (has a xs)
unfolding has set_of
count-set_of a [] = refl
count-set_of a (x ∷ xs) = elim (Bool-cases (text_eq x a)) [
  | inr other ↦ elim (Bool-cases (has x (set_of xs))) [
    | inl old ↦ rw (old, other) (count-set_of a xs)
    | inr new' ↦ rw (new', other) (count-set_of a xs)
  ]
  | inl same ↦
      let equal = ap (λ y. has y (set_of xs)) (sym ((text_eq_iff x a).0 same)) in
      elim (Bool-cases (has x (set_of xs))) [
        | inl old ↦
            rw (old, same) (count-set_of a xs ∙ ap one_if (sym (has-set_of a xs) ∙ equal ∙ old))
        | inr new' ↦
            rw (new', same)
              (ap suc (count-set_of a xs ∙ ap one_if (sym (has-set_of a xs) ∙ equal ∙ new')))
      ]
]

count-insert_text : (a s : Text) (ts : List Text) → count a (insert_text s ts) ≡ count a (s ∷ ts)
unfolding insert_text
count-insert_text a s [] = refl
count-insert_text a s (t ∷ ts) = ground (arith, count-insert_text a s ts)

count-sort_texts : (a : Text) (ts : List Text) → count a (sort_texts ts) ≡ count a ts
unfolding sort_texts
count-sort_texts a [] = refl
count-sort_texts a (t ∷ ts) =
    count-insert_text a t (sort_texts ts)
    ∙ ap (λ n. if text_eq t a then suc n else n) (count-sort_texts a ts)

-- Every address is listed once.
abbrev pub IsOnce : List Text → Type 0
IsOnce xs = (a : Text) → count a xs ≡ one_if (has a xs)

-- Who was there at the last line and who came since are who is there and who went.
abbrev pub Balances : List Text → List Text → List Text → List Text → Type 0
Balances then' came now' went =
    (a : Text) → one_if (has a then') + count a came ≡ one_if (has a now') + count a went

look-Balances :
    (base current : List Text) (h : Headcount)
    → IsOnce h.peers
    → IsOnce current
    → Balances base h.joined h.peers h.left
    → Balances base (look current h).joined (look current h).peers (look current h).left
unfolding look
look-Balances base current h once fresh b a = ground (
  arith,
  count-append a h.joined (keep (λ x. not (has x h.peers)) current),
  count-keep (λ x. not (has x h.peers)) a current,
  count-append a h.left (keep (λ x. not (has x current)) h.peers),
  count-keep (λ x. not (has x current)) a h.peers,
  has-set_of a current,
  once a,
  fresh a,
  b a,
)

look-peers :
    (current : List Text) (h : Headcount) (a : Text)
    → count a (look current h).peers ≡ one_if (has a current)
unfolding look
look-peers current h a = count-set_of a current

-- What a look leads to: a line that says who came and went since the last one, or the account is kept
-- for the next.
abbrev pub Accounts : List Text → Headcount × Line → Type 0
Accounts base (h, line) =
    (line.due ≡ true → Balances base line.came h.peers line.went × (h.joined ≡ []) × (h.left ≡ []))
    × (line.due ≡ false → Balances base h.joined h.peers h.left)

report-Accounts :
    (now : ℕ) (base : List Text) (h : Headcount)
    → Balances base h.joined h.peers h.left
    → Accounts base (report now h)
unfolding report
report-Accounts now base h b =
    elim (Bool-cases
      (length h.joined + length h.left == 0 || ltb (now - h.logged_at) census_every)) [
        | inl quiet ↦ rw (quiet, report) (λ e. cc, λ e. b)
        | inr due ↦
            rw (due, report)
              (
                λ e. (
                  λ a. omega (arith, b a, count-sort_texts a h.joined, count-sort_texts a h.left),
                  refl,
                  refl,
                ),
                λ e. cc,
              )
      ]

report-peers : (now : ℕ) (h : Headcount) → (report now h).0.peers ≡ h.peers
unfolding report
report-peers now h =
    elim (Bool-cases
      (length h.joined + length h.left == 0 || ltb (now - h.logged_at) census_every)) [
        | inl quiet ↦ rw (quiet, report) refl
        | inr due ↦ rw (due, report) refl
      ]

note-Accounts :
    (now : ℕ) (base current : List Text) (h : Headcount)
    → IsOnce h.peers
    → IsOnce current
    → Balances base h.joined h.peers h.left
    → Accounts base (note now current h)
unfolding note
note-Accounts now base current h once fresh b =
    report-Accounts now base (look current h) (look-Balances base current h once fresh b)

note-peers :
    (now : ℕ) (current : List Text) (h : Headcount) (a : Text)
    → count a (note now current h).0.peers ≡ one_if (has a current)
unfolding note
note-peers now current h a =
    ap (count a) (report-peers now (look current h)) ∙ look-peers current h a

-- A download that was not looked at yet: `headcount{}`.
abbrev pub unseen : Headcount
unseen = record { peers = []; joined = []; left = []; logged_at = 0 }

-- The looks at a download so far, with who was connected at the last line of the log. No look lists a
-- peer twice.
pub data Looked : List Text → Headcount → Type 0 where
  starts : Looked [] unseen
  looks :
      {base : List Text} {h : Headcount} (now : ℕ) (current : List Text)
      → Looked base h
      → IsOnce current
      → Looked (if (note now current h).1.due then current else base) (note now current h).0

unseen-IsOnce : IsOnce []
unfolding has
unseen-IsOnce a = refl

-- What holds between two looks.
abbrev Steady : List Text → Headcount → Type 0
Steady base h = IsOnce h.peers × Balances base h.joined h.peers h.left

peers-note :
    (now : ℕ) (current : List Text) (h : Headcount) (a : Text)
    → has a (note now current h).0.peers ≡ has a current
unfolding note look
peers-note now current h a = ap (has a) (report-peers now (look current h)) ∙ has-set_of a current

-- The account starts again after a line.
fresh-Balances :
    (current : List Text) (h : Headcount)
    → h.joined ≡ []
    → h.left ≡ []
    → ((a : Text) → has a h.peers ≡ has a current)
    → Balances current h.joined h.peers h.left
fresh-Balances current h j l same a = rw (j, l) (ap (λ b. one_if b + 0) (sym (same a)))

next-Balances :
    (base current : List Text) (h : Headcount) (line : Line) (due : Bool)
    → line.due ≡ due
    → Accounts base (h, line)
    → ((a : Text) → has a h.peers ≡ has a current)
    → Balances (if due then current else base) h.joined h.peers h.left
next-Balances base current h line true e (told, kept) same =
    let (b, j, l) = told e in fresh-Balances current h j l same
next-Balances base current h line false e (told, kept) same = kept e

Looked-Steady : {base : List Text} {h : Headcount} → Looked base h → Steady base h
Looked-Steady starts = (unseen-IsOnce, λ a. refl)
Looked-Steady (looks {base} {h} now current before fresh) =
    let (once, b) = Looked-Steady before in
    let x = note now current h in
    (
      λ a. note-peers now current h a ∙ ap one_if (sym (peers-note now current h a)),
      next-Balances base current x.0 x.1 x.1.due refl
          (note-Accounts now base current h once fresh b) (peers-note now current h),
    )

-- After any looks at a download, of which none lists a peer twice: each line of the log, and what is kept
-- for the next, accounts for every peer since the last line, one that came and went in between being
-- told as both; and the peers on record afterwards are those that are connected, each once.
pub Looked-Accounts :
    {base : List Text} {h : Headcount} (now : ℕ) (current : List Text)
    → Looked base h
    → IsOnce current
    → Accounts base (note now current h)
      × ((a : Text) → count a (note now current h).0.peers ≡ one_if (has a current))
Looked-Accounts {base} {h} now current before fresh =
    let (once, b) = Looked-Steady before in
    (note-Accounts now base current h once fresh b, note-peers now current h)
