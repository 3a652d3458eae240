-- ===== src/Cache/Stall/History.antt =====
-- internal/library/cache.go: the marks of `watch` against the history of what was reported.
use kuro.Base.{
  ℕ, ◌-◌, ◌≡◌, ◌≢◌, refl, sym, ap, ◌∙◌, inl, inr, Bool, true, false, List, [], ◌∷◌, Option, none,
  some, Text, text_eq, text_eq_iff, to_lower, has, leb, ◌==◌, ==_iff, Bool-cases, if◌then◌else◌,
}
use kuro.Base.Maps.{
  lookup, lookup-erase_same, lookup-erase_other, lookup-put_same, lookup-put_other, HasOnce,
  erase-HasOnce, put-HasOnce,
}
use kuro.Cache.Stall.{Mark, stalled_after, watch, watch_running, unwatch, stalled}

-- What was seen of a download.
pub data Seen : Type 0 where
  running : (bytes time : ℕ) → Seen
  finished : Seen
  dropped : Seen

pub record Event : Type 0 where
  pub hash : Text
  pub seen : Seen

abbrev pub about : Text → Event → Bool
about h e = text_eq (to_lower e.hash) h

abbrev apply : Text → Seen → List (Text × Mark) → List (Text × Mark)
apply hash (running bytes time) m = watch hash bytes false time m
apply hash finished m = watch hash 0 true 0 m
apply hash dropped m = unwatch hash m

-- The marks after a history, its latest event first.
abbrev pub marks : List Event → List (Text × Mark)
marks [] = []
marks (e ∷ past) = apply e.hash e.seen (marks past)

-- When a run of reports of the same bytes began that goes on until a time: at the oldest of the reports
-- before it that say the same, up to the first that does not.
abbrev pub began : Text → ℕ → ℕ → List Event → ℕ
began h bytes time [] = time
began h bytes time (e ∷ past) =
    if about h e
    then elim e.seen [
      | running b t ↦ if b == bytes then began h bytes t past else time
      | finished ↦ time
      | dropped ↦ time
    ]
    else began h bytes time past

-- The bytes of an unfinished download and since when it has had them.
abbrev pub holding : Text → List Event → Option Mark
holding h [] = none
holding h (e ∷ past) =
    if about h e
    then elim e.seen [
      | running b t ↦ some (record { bytes = b; since = began h b t past })
      | finished ↦ none
      | dropped ↦ none
    ]
    else holding h past

abbrev merge : Option Mark → ℕ → ℕ → ℕ
merge none bytes time = time
merge (some m) bytes time = if m.bytes == bytes then m.since else time

began-holding :
    (h : Text) (bytes time : ℕ) (past : List Event)
    → began h bytes time past ≡ merge (holding h past) bytes time
began-holding h bytes time [] = refl
began-holding h bytes time (e ∷ past) = elim (Bool-cases (about h e)) [
  | inr other ↦ rw other (began-holding h bytes time past)
  | inl here ↦ rw here (same e.seen)
]
  where
    same :
        (s : Seen)
        → (elim s [
          | running b t ↦ if b == bytes then began h bytes t past else time
          | finished ↦ time
          | dropped ↦ time
        ])
          ≡ merge
              (elim s [
                | running b t ↦ some (record { bytes = b; since = began h b t past })
                | finished ↦ none
                | dropped ↦ none
              ])
              bytes
              time
    same (running b t) = elim (Bool-cases (b == bytes)) [
      | inl e ↦ rw e (ap (λ x. began h x t past) (sym ((==_iff b bytes).0 e)))
      | inr e ↦ rw e refl
    ]
    same finished = refl
    same dropped = refl

watch_running-same :
    (k : Text) (bytes now : ℕ) (m : List (Text × Mark)) (o : Option Mark)
    → lookup k m ≡ o
    → lookup k (watch_running k bytes now m)
      ≡ some (record { bytes = bytes; since = merge o bytes now })
unfolding watch_running
watch_running-same k bytes now m none h = rw (h, watch_running) (lookup-put_same k _ m)
watch_running-same k bytes now m (some old) h = elim (Bool-cases (old.bytes == bytes)) [
  | inl e ↦
      rw (h, watch_running)
        (rw e (
          h
          ∙ ap (λ (x : ℕ). some (record { bytes = x; since = old.since }))
              ((==_iff old.bytes bytes).0 e)))
  | inr e ↦ rw (h, watch_running) (rw e (lookup-put_same k _ m))
]

watch_running-other :
    (k other : Text) (bytes now : ℕ) (m : List (Text × Mark)) (o : Option Mark)
    → lookup k m ≡ o
    → text_eq k other ≡ false
    → lookup other (watch_running k bytes now m) ≡ lookup other m
unfolding watch_running
watch_running-other k other bytes now m none h d =
    rw (h, watch_running) (lookup-put_other k other _ m d)
watch_running-other k other bytes now m (some old) h d = elim (Bool-cases (old.bytes == bytes)) [
  | inl e ↦ rw (h, watch_running) (rw e refl)
  | inr e ↦ rw (h, watch_running) (rw e (lookup-put_other k other _ m d))
]

lookup-apply_other :
    (hash h : Text) (s : Seen) (m : List (Text × Mark))
    → text_eq (to_lower hash) h ≡ false
    → lookup h (apply hash s m) ≡ lookup h m
unfolding watch unwatch
lookup-apply_other hash h (running b t) m d = watch_running-other (to_lower hash) h b t m _ refl d
lookup-apply_other hash h finished m d = lookup-erase_other (to_lower hash) h m d
lookup-apply_other hash h dropped m d = lookup-erase_other (to_lower hash) h m d

lookup-apply_same :
    (h : Text) (hash : Text) (s : Seen) (past : List Event)
    → to_lower hash ≡ h
    → lookup h (marks past) ≡ holding h past
    → lookup h (apply hash s (marks past)) ≡ (elim s [
      | running b t ↦ some (record { bytes = b; since = began h b t past })
      | finished ↦ none
      | dropped ↦ none
    ])
unfolding watch unwatch
lookup-apply_same h hash (running b t) past e ih =
    rw (e, began-holding h b t past) (watch_running-same h b t (marks past) _ ih)
lookup-apply_same h hash finished past e ih = rw e (lookup-erase_same h (marks past))
lookup-apply_same h hash dropped past e ih = rw e (lookup-erase_same h (marks past))

lookup-marks : (h : Text) (past : List Event) → lookup h (marks past) ≡ holding h past
unfolding lookup
lookup-marks h [] = refl
lookup-marks h (e ∷ past) = elim (Bool-cases (about h e)) [
  | inl here ↦ rw here (
      lookup-apply_same h e.hash e.seen past ((text_eq_iff (to_lower e.hash) h).0 here)
        (lookup-marks h past))
  | inr other ↦
      rw other (lookup-apply_other e.hash h e.seen (marks past) other ∙ lookup-marks h past)
]

watch_running-HasOnce :
    (k : Text) (bytes now : ℕ) (m : List (Text × Mark)) (o : Option Mark)
    → lookup k m ≡ o
    → HasOnce m
    → HasOnce (watch_running k bytes now m)
unfolding watch_running
watch_running-HasOnce k bytes now m none h once = rw (h, watch_running) (put-HasOnce k _ m once)
watch_running-HasOnce k bytes now m (some old) h once = elim (Bool-cases (old.bytes == bytes)) [
  | inl e ↦ rw (h, watch_running) (rw e once)
  | inr e ↦ rw (h, watch_running) (rw e (put-HasOnce k _ m once))
]

apply-HasOnce :
    (hash : Text) (s : Seen) (m : List (Text × Mark)) → HasOnce m → HasOnce (apply hash s m)
unfolding watch unwatch
apply-HasOnce hash (running b t) m once = watch_running-HasOnce (to_lower hash) b t m _ refl once
apply-HasOnce hash finished m once = erase-HasOnce (to_lower hash) m once
apply-HasOnce hash dropped m once = erase-HasOnce (to_lower hash) m once

marks-HasOnce : (past : List Event) → HasOnce (marks past)
marks-HasOnce [] = tt
marks-HasOnce (e ∷ past) = apply-HasOnce e.hash e.seen (marks past) (marks-HasOnce past)

-- Whether a mark is old enough.
abbrev pub is_stale : ℕ → Option Mark → Bool
is_stale now none = false
is_stale now (some m) = leb stalled_after (now - m.since)

some_not_none : (a : Mark) → some a ≢ none
some_not_none a h = cc

not_stalled :
    (now : ℕ) (h : Text) (m : List (Text × Mark))
    → lookup h m ≡ none
    → has h (stalled now m) ≡ false
unfolding lookup stalled has
not_stalled now h [] e = refl
not_stalled now h ((k, a) ∷ m) e = elim (Bool-cases (text_eq k h)) [
  | inl same ↦ absurd (some_not_none a (rw (same, lookup) at e))
  | inr other ↦ elim (Bool-cases (leb stalled_after (now - a.since))) [
    | inl t ↦ rw t (rw other (not_stalled now h m (rw (other, lookup) at e)))
    | inr t ↦ rw t (not_stalled now h m (rw (other, lookup) at e))
  ]
]

has-stalled :
    (now : ℕ) (h : Text) (m : List (Text × Mark))
    → HasOnce m
    → has h (stalled now m) ≡ is_stale now (lookup h m)
unfolding lookup stalled has
has-stalled now h [] once = refl
has-stalled now h ((k, a) ∷ m) once = elim (Bool-cases (text_eq k h)) [
  | inl same ↦ elim (Bool-cases (leb stalled_after (now - a.since))) [
    | inl t ↦ rw (t, same) (sym t)
    | inr t ↦ rw (t, same) (not_stalled now h m (rw ((text_eq_iff k h).0 same) at once.0) ∙ sym t)
  ]
  | inr other ↦ elim (Bool-cases (leb stalled_after (now - a.since))) [
    | inl t ↦ rw (t, other) (has-stalled now h m once.1)
    | inr t ↦ rw (t, other) (has-stalled now h m once.1)
  ]
]

-- After any reports of any downloads, a download counts as stalled exactly when its latest report is
-- of an unfinished download and the run of reports of the same bytes that this one ends began twelve
-- hours ago or earlier. Hashes count as the same whatever their case.
pub stalled-history :
    (now : ℕ) (h : Text) (past : List Event)
    → has (to_lower h) (stalled now (marks past)) ≡ is_stale now (holding (to_lower h) past)
stalled-history now h past =
    has-stalled now (to_lower h) (marks past) (marks-HasOnce past)
    ∙ ap (is_stale now) (lookup-marks (to_lower h) past)
