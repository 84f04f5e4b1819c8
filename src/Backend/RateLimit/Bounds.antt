-- ===== src/Backend/RateLimit/Bounds.antt =====
-- The bounds of the limiter: its memory, and the attempts that one window lets through.
use bosun.Prelude.{
  ℕ, ◌+◌, ◌-◌, ◌≤◌, ◌<◌, ◌≡◌, refl, sym, ◌∙◌, subst, ◌⊎◌, inl, inr, max, String, Bool, true, false,
  ◌&&◌, Option, none, some, List, [], ◌∷◌, arith, eq_iff, leb, str_eq, if◌then◌else◌, length, All,
  Bool-cases, Option-cases, le→leb,
}
use bosun.Prelude.Dict.{Dict, lookup, insert, lookup-insert, length-insert, length-insert_present}
use bosun.Backend.RateLimit.{
  Window, Limiter, evict_expired, open_window, allow_entry, allow_new, allow,
}

-- The number of keys stays within the capacity, and no count passes the limit (a new window counts
-- its first attempt, so that the limit is taken as 1 at least).
pub record IsBounded (l : Limiter) : Type 0 where
  pub keys : length l.entries ≤ l.capacity
  pub counts : All (λ e. e.1.count ≤ max 1 l.limit) l.entries

All-insert :
    (n : ℕ) (key : String) (v : Window) (m : Dict Window)
    → v.count ≤ n
    → All (λ e. e.1.count ≤ n) m
    → All (λ e. e.1.count ≤ n) (insert key v m)
unfolding insert
All-insert n key v [] p h = (p, tt)
All-insert n key v ((j, w) ∷ m) p h = elim (Bool-cases (str_eq j key)) [
  | inl e ↦ rw e (p, h.1)
  | inr e ↦ rw e (h.0, All-insert n key v m p h.1)
]

All-evict :
    (n now : ℕ) (m : Dict Window)
    → All (λ e. e.1.count ≤ n) m
    → All (λ e. e.1.count ≤ n) (evict_expired now m)
unfolding evict_expired
All-evict n now [] h = tt
All-evict n now ((j, w) ∷ m) h = elim (Bool-cases (leb w.reset_at now)) [
  | inl e ↦ rw e (All-evict n now m h.1)
  | inr e ↦ rw e (h.0, All-evict n now m h.1)
]

length-evict-le : (now : ℕ) (m : Dict Window) → length (evict_expired now m) ≤ length m
unfolding evict_expired
length-evict-le now [] = omega arith
length-evict-le now ((j, w) ∷ m) = ground (arith, length-evict-le now m)

allow_entry-IsBounded :
    (key : String) (now : ℕ) (entry : Window) (l : Limiter)
    → lookup key l.entries ≡ some entry
    → IsBounded l
    → IsBounded (allow_entry key now entry l).0
unfolding allow_entry
allow_entry-IsBounded key now entry l found v =
    let fresh : Window = record { count = 1; reset_at = now + l.window } in
    let next : Window = record { count = entry.count + 1; reset_at = entry.reset_at } in
    elim (Bool-cases (leb entry.reset_at now)) [
      | inl e ↦ rw e (record {
        keys = omega (arith, v.keys, length-insert_present key fresh entry l.entries found);
        counts = All-insert (max 1 l.limit) key fresh l.entries (omega arith) v.counts;
      })
      | inr e ↦ rw e (elim (Bool-cases (leb l.limit entry.count)) [
        | inl full ↦ rw full v
        | inr less ↦ rw less (record {
          keys = omega (arith, v.keys, length-insert_present key next entry l.entries found);
          counts = All-insert (max 1 l.limit) key next l.entries (ground arith) v.counts;
        })
      ])
    ]

allow_new-IsBounded :
    (key : String) (now : ℕ) (l : Limiter) → IsBounded l → IsBounded (allow_new key now l).0
unfolding allow_new
allow_new-IsBounded key now l v =
    let fresh : Window = record { count = 1; reset_at = now + l.window } in
    let kept = evict_expired now l.entries in
    let few = length-evict-le now l.entries in
    let counts = All-evict (max 1 l.limit) now l.entries v.counts in
    elim (Bool-cases (leb l.capacity (length l.entries))) [
      | inr e ↦ rw e (record {
        keys = ground (arith, e, length-insert key fresh l.entries);
        counts = All-insert (max 1 l.limit) key fresh l.entries (omega arith) v.counts;
      })
      | inl e ↦ rw e (elim (Bool-cases (leb l.capacity (length kept))) [
        | inl full ↦ rw full (record { keys = omega (arith, v.keys, few); counts = counts })
        | inr less ↦ rw less (record {
          keys = ground (arith, less, length-insert key fresh kept);
          counts = All-insert (max 1 l.limit) key fresh kept (omega arith) counts;
        })
      ])
    ]

-- An attempt, allowed or refused, keeps the number of keys and the counts within their bounds.
pub allow-IsBounded :
    (key : String) (now : ℕ) (l : Limiter) → IsBounded l → IsBounded (allow key now l).0
unfolding allow
allow-IsBounded key now l v = elim (Option-cases (lookup key l.entries)) [
  | inl e ↦ rw e (allow_new-IsBounded key now l v)
  | inr (entry, e) ↦ rw e (allow_entry-IsBounded key now entry l e v)
]

le→leb_false : (a b : ℕ) → a < b → leb b a ≡ false
le→leb_false a b h = ground arith

lookup-evict_some :
    (key : String) (now : ℕ) (entry : Window) (m : Dict Window)
    → lookup key m ≡ some entry
    → now < entry.reset_at
    → lookup key (evict_expired now m) ≡ some entry
unfolding evict_expired lookup
lookup-evict_some key now entry [] h k = ground arith
lookup-evict_some key now entry ((j, w) ∷ m) h k = ground (arith, lookup-evict_some key now entry m)

lookup-evict_none :
    (key : String) (now : ℕ) (m : Dict Window)
    → lookup key m ≡ none
    → lookup key (evict_expired now m) ≡ none
unfolding evict_expired lookup
lookup-evict_none key now [] h = refl
lookup-evict_none key now ((j, w) ∷ m) h = ground (arith, lookup-evict_none key now m)

-- What a key has used of its window, which lasts until `end` at least.
abbrev pub Used : ℕ → ℕ → Option Window → Type 0
Used end n none = n ≡ 0
Used end n (some entry) = (end ≤ entry.reset_at) × (entry.count ≡ n)

-- How many of the attempts of `key` are allowed among the attempts (of any key, each with its time).
abbrev pub allowed_of : String → List (String × ℕ) → Limiter → ℕ
allowed_of key [] l = 0
allowed_of key ((other, now) ∷ rest) l =
    (if str_eq other key && (allow other now l).1 then 1 else 0)
    + allowed_of key rest (allow other now l).0

allow-config :
    (key : String) (now : ℕ) (l : Limiter)
    → ((allow key now l).0.limit ≡ l.limit) × ((allow key now l).0.window ≡ l.window)
unfolding allow allow_entry allow_new
allow-config key now l = elim (Option-cases (lookup key l.entries)) [
  | inl e ↦ rw e (ground arith, ground arith)
  | inr (entry, e) ↦ rw e (ground arith, ground arith)
]

-- The eviction leaves a window that is not over, and adds none.
lookup-evict :
    (key : String) (now end n : ℕ) (m : Dict Window)
    → now < end
    → Used end n (lookup key m)
    → lookup key (evict_expired now m) ≡ lookup key m
lookup-evict key now end n m h used = elim (Option-cases (lookup key m)) [
  | inl e ↦ lookup-evict_none key now m e ∙ sym e
  | inr (entry, e) ↦
      let (lasts, _) = subst (Used end n) e used in
      lookup-evict_some key now entry m e (omega arith) ∙ sym e
]

-- An attempt of another key while the window lasts.
allow-other :
    (key other : String) (now end n : ℕ) (l : Limiter)
    → str_eq other key ≡ false
    → now < end
    → Used end n (lookup key l.entries)
    → lookup key (allow other now l).0.entries ≡ lookup key l.entries
unfolding allow allow_entry allow_new
allow-other key other now end n l other_key h used =
    let kept = evict_expired now l.entries in
    let same = lookup-evict key now end n l.entries h used in
    let fresh : Window = record { count = 1; reset_at = now + l.window } in
    elim (Option-cases (lookup other l.entries)) [
      | inl e ↦ rw e (
          ground (
            arith,
            same,
            other_key,
            lookup-insert other key fresh kept,
            lookup-insert other key fresh l.entries,
          ))
      | inr (entry, e) ↦
          let next : Window = record { count = entry.count + 1; reset_at = entry.reset_at } in
          rw e (
            ground (
              arith,
              other_key,
              lookup-insert other key fresh l.entries,
              lookup-insert other key next l.entries,
            ))
    ]

-- The outcomes of an attempt of the key itself.
abbrev Spent : String → ℕ → ℕ → ℕ → Limiter × Bool → Type 0
Spent key end n limit r =
    ((r.1 ≡ true) × (n < limit) × Used end (n + 1) (lookup key r.0.entries))
    ⊎ ((r.1 ≡ false) × Used end n (lookup key r.0.entries))

lookup-open :
    (key : String) (now end : ℕ) (l : Limiter)
    → end ≤ now + l.window
    → Used end 1 (lookup key (open_window key now l).entries)
lookup-open key now end l h =
    let fresh : Window = record { count = 1; reset_at = now + l.window } in
    let e : lookup key (insert key fresh l.entries) ≡ some fresh =
      ground (arith, eq_iff key key, lookup-insert key key fresh l.entries) in
    rw e (h, refl)

allow-own :
    (key : String) (now end n : ℕ) (l : Limiter)
    → 0 < l.limit
    → now < end
    → end ≤ now + l.window
    → Used end n (lookup key l.entries)
    → Spent key end n l.limit (allow key now l)
unfolding allow allow_entry allow_new
allow-own key now end n l positive h long used = elim (Option-cases (lookup key l.entries)) [
  | inl e ↦
      let unused : n ≡ 0 = subst (Used end n) e used in
      let kept : Limiter = record l { entries = evict_expired now l.entries } in
      let opened : (l' : Limiter)
          → end ≤ now + l'.window
          → Used end (n + 1) (lookup key (open_window key now l').entries) =
        λ l' long'.
          subst (λ m. Used end (m + 1) (lookup key (open_window key now l').entries)) (sym unused)
            (lookup-open key now end l' long') in
      rw e (elim (Bool-cases (leb l.capacity (length l.entries))) [
        | inr less ↦ rw less (inl (refl, omega arith, opened l long))
        | inl full ↦ rw full (elim (Bool-cases (leb l.capacity (length kept.entries))) [
          | inl still ↦ rw still (inr (refl, rw (lookup-evict key now end n l.entries h used) used))
          | inr less ↦ rw less (inl (refl, omega arith, opened kept long))
        ])
      ])
  | inr (entry, e) ↦
      let (lasts, counted) = subst (Used end n) e used in
      let next : Window = record { count = entry.count + 1; reset_at = entry.reset_at } in
      let stored : lookup key (insert key next l.entries) ≡ some next =
        ground (arith, eq_iff key key, lookup-insert key key next l.entries) in
      rw (e, le→leb_false now entry.reset_at (omega arith))
        (elim (Bool-cases (leb l.limit entry.count)) [
          | inl full ↦ rw full (inr (refl, used))
          | inr less ↦ rw less (inl (refl, ground arith, rw stored (lasts, omega arith)))
        ])
]

-- The attempts lie between the start and the end of the window that starts then.
abbrev pub Within : ℕ → ℕ → List (String × ℕ) → Type 0
Within start window = All λ a. (start ≤ a.1) × (a.1 < start + window)

allowed_of-le_rest :
    (key : String) (start n limit window : ℕ) (attempts : List (String × ℕ)) (l : Limiter)
    → l.limit ≡ limit
    → l.window ≡ window
    → 0 < limit
    → Within start window attempts
    → Used (start + window) n (lookup key l.entries)
    → allowed_of key attempts l ≤ limit - n
allowed_of-le_rest key start n limit window [] l c d positive h used = omega arith
allowed_of-le_rest key start n limit window ((other, now) ∷ rest) l c d positive h used =
    let l' = (allow other now l).0 in
    let config = allow-config other now l in
    let next : (m : ℕ)
        → Used (start + window) m (lookup key l'.entries)
        → allowed_of key rest l' ≤ limit - m =
      λ m u.
        allowed_of-le_rest key start m limit window rest l' (config.0 ∙ c) (config.1 ∙ d) positive
          h.1 u in
    elim (Bool-cases (str_eq other key)) [
      | inr e ↦
          let same = allow-other key other now (start + window) n l e h.0.1 used in
          rw e (omega (arith, next n (rw same used)))
      | inl e ↦
          let own = allow-own other now (start + window) n l (omega arith) h.0.1 (omega arith) (
            subst (λ k. Used (start + window) n (lookup k l.entries)) (sym ((eq_iff other key).0 e))
              used) in
          let back : (m : ℕ)
              → Used (start + window) m (lookup other l'.entries)
              → allowed_of key rest l' ≤ limit - m =
            λ m u. next m (
              subst (λ k. Used (start + window) m (lookup k l'.entries)) ((eq_iff other key).0 e)
                u) in
          elim own [
            | inl (let_through, room, u) ↦ rw (e, let_through) (omega (arith, back (n + 1) u))
            | inr (refused, u) ↦ rw (e, refused) (omega (arith, back n u))
          ]
    ]

-- With a positive limit and window, and no running window of the key at the start: of all attempts
-- from then until one window later, whichever keys they are of, at most `limit` attempts of the key
-- are allowed.
pub allowed_of-le :
    (key : String) (start : ℕ) (attempts : List (String × ℕ)) (l : Limiter)
    → 0 < l.limit
    → 0 < l.window
    → Within start l.window attempts
    → (lookup key l.entries ≡ none)
      ⊎ ((entry : Window) × (lookup key l.entries ≡ some entry) × (entry.reset_at ≤ start))
    → allowed_of key ((key, start) ∷ attempts) l ≤ l.limit
unfolding allow allow_entry
allowed_of-le key start attempts l positive long h fresh = elim fresh [
  | inl e ↦
      let attempts' = (key, start) ∷ attempts in
      omega (
        arith,
        allowed_of-le_rest key start 0 l.limit l.window attempts' l refl refl positive
            ((omega arith, omega arith), h) (subst (Used (start + l.window) 0) (sym e) refl),
      )
  | inr (entry, e, past) ↦
      let rest =
        allowed_of-le_rest key start 1 l.limit l.window attempts (open_window key start l) refl refl
          positive h (lookup-open key start (start + l.window) l (omega arith)) in
      rw (e, (eq_iff key key).1 refl, le→leb entry.reset_at start past) (omega (arith, rest))
]
