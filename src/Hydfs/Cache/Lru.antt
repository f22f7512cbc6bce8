-- ===== src/Hydfs/Cache/Lru.antt =====
-- The cache stays within its size, gives up the entry that was not used for the longest time, and
-- keeps the one that is put.
use text.Mathlib.TextEquality.{eq_iff}
use rain_strom_distributed_s.Prelude.{
  ℕ, suc, ◌≤◌, ◌<◌, ◌≡◌, ◌≢◌, refl, sym, ap, ◌∙◌, arith, true, none, some, List, [], ◌∷◌, String,
  Map, lookup, insert, erase, string_eq, if◌then◌else◌, length, ltb, leb, str_eq, subst, Has, All,
  Has-All, get_elem?_lt, get_elem?-Has, All-Has, inl, inr, ◌⊎◌, Bool-cases, lookup-erase,
  lookup-insert_self, lookup-insert_ne,
}
use rain_strom_distributed_s.Hydfs.Cache.{CacheEntry, Cache, oldest, evict, put}

abbrev IsChosen : String → ℕ → List (String × CacheEntry) → ℕ → String → Type 0
IsChosen key time es e r =
    ((r ≡ key) × (e ≡ time)) ⊎ (x : CacheEntry) × Has (r, x) es × (x.last_access ≡ e)

-- Any entry that the loop has chosen is kept, or is replaced by one that is older.
oldest-least :
    (es : List (String × CacheEntry)) (key : String) (time : ℕ)
    → key ≢ ""
    → All (λ p. p.0 ≢ "") es
    → (e : ℕ) × (e ≤ time)
      × All (λ p. e ≤ p.1.last_access) es
      × IsChosen key time es e (oldest es key time)
unfolding oldest
oldest-least [] key time h a = (time, omega arith, tt, inl (refl, refl))
oldest-least ((k, e) ∷ es) key time h a = elim (Bool-cases (str_eq key "")) [
  | inl q ↦ absurd (h ((eq_iff key "").0 q))
  | inr q ↦ elim (Bool-cases (ltb e.last_access time)) [
    | inl l ↦
        let step : oldest ((k, e) ∷ es) key time ≡ oldest es k e.last_access =
          rw (q, l, oldest) refl in
        let (t, b, c, d) = oldest-least es k e.last_access a.0 a.1 in
        (
          t,
          ground arith,
          (b, c),
          subst (IsChosen key time ((k, e) ∷ es) t) (sym step) (elim d [
            | inl (u, v) ↦ inr (e, inl (ap (λ z. (z, e)) u), sym v)
            | inr (x, u, v) ↦ inr (x, inr u, v)
          ]),
        )
    | inr l ↦
        let step : oldest ((k, e) ∷ es) key time ≡ oldest es key time = rw (q, l, oldest) refl in
        let (t, b, c, d) = oldest-least es key time h a.1 in
        (
          t,
          b,
          (ground arith, c),
          subst (IsChosen key time ((k, e) ∷ es) t) (sym step)
              (elim d [ inl u ↦ inl u | inr (x, u, v) ↦ inr (x, inr u, v) ]),
        )
  ]
]

-- The chosen key of a cache that is not empty: it stands there with an access time that no entry
-- is below.
pub IsOldest : String → List (String × CacheEntry) → Type 0
IsOldest key es = (x : CacheEntry) × Has (key, x) es × All (λ p. x.last_access ≤ p.1.last_access) es

oldest-IsOldest :
    (p : String × CacheEntry) (es : List (String × CacheEntry))
    → All (λ q. q.0 ≢ "") (p ∷ es)
    → IsOldest (oldest (p ∷ es) "" 0) (p ∷ es)
unfolding oldest IsOldest
oldest-IsOldest (k, e) es a =
    let (t, b, c, d) = oldest-least es k e.last_access a.0 a.1 in
    elim d [
      | inl (u, v) ↦ (
        e,
        inl (ap (λ z. (z, e)) u),
        (omega arith, subst (λ z. All (λ p. z ≤ p.1.last_access) es) v c),
      )
      | inr (x, u, v) ↦
          (x, inr u, (omega arith, subst (λ z. All (λ p. z ≤ p.1.last_access) es) (sym v) c))
    ]

length-insert_le :
    {V : Type 0} (k : String) (v : V) (m : Map String V) → length (insert k v m) ≤ suc (length m)
unfolding insert
length-insert_le k v [] = omega arith
length-insert_le k v ((j, w) ∷ m) = elim (Bool-cases (str_eq j k)) [
  | inl q ↦ rw (q, insert) (omega arith)
  | inr q ↦ rw (q, insert) (omega (arith, length-insert_le k v m))
]

length-erase_le : {V : Type 0} (k : String) (m : Map String V) → length (erase k m) ≤ length m
unfolding erase
length-erase_le k [] = omega arith
length-erase_le k ((j, w) ∷ m) = elim (Bool-cases (str_eq j k)) [
  | inl q ↦ rw (q, erase) (omega (arith, length-erase_le k m))
  | inr q ↦ rw (q, erase) (omega (arith, length-erase_le k m))
]

length-erase_lt :
    {V : Type 0} (k : String) (v : V) (m : Map String V)
    → Has (k, v) m
    → length (erase k m) < length m
unfolding erase
length-erase_lt k v [] h = absurd h
length-erase_lt k v ((j, w) ∷ m) h = elim (Bool-cases (str_eq j k)) [
  | inl q ↦ rw (q, erase) (omega (arith, length-erase_le k m))
  | inr q ↦ elim h [
    | inl e ↦ let z : k ≡ j = ap (λ p. p.0) e in absurd (cc (q, (eq_iff j k).1 (sym z)))
    | inr r ↦ rw (q, erase) (omega (arith, length-erase_lt k v m r))
  ]
]

evicted :
    (order : List (String × CacheEntry)) (c : Cache)
    → 1 ≤ c.max_size
    → leb c.max_size (length c.entries) ≡ true
    → All (λ p. p.0 ≢ "") order
    → ((p : String × CacheEntry) → Has p order → Has p c.entries)
    → ((p : String × CacheEntry) → Has p c.entries → Has p order)
    → IsOldest (oldest order "" 0) c.entries
unfolding IsOldest
evicted [] c m q a f g =
    let (x, e) = get_elem?_lt c.entries 0 (ground arith) in
    absurd (g x (get_elem?-Has c.entries 0 x e))
evicted (o ∷ os) c m q a f g =
    let (x, h, l) = oldest-IsOldest o os a in
    (x, f _ h, Has-All _ c.entries (λ p h. All-Has _ (o ∷ os) p l (g p h)))

-- A cache after `Put`: within its size, with the content under the key, and with each other entry
-- it had, but for the one not used for the longest time, which is gone exactly if it was full.
pub AfterPut : ℕ → String → List ℕ → Cache → Cache → Type 0
AfterPut now key content c w =
    (length w.entries ≤ c.max_size)
    × (lookup key w.entries ≡ some (record { content = content; last_access = now }))
    × (((length c.entries < c.max_size)
          × ((j : String) → j ≢ key → lookup j w.entries ≡ lookup j c.entries))
        ⊎ (length c.entries ≡ c.max_size)
          × (old : String) × IsOldest old c.entries
          × ((j : String)
              → j ≢ key
              → lookup j w.entries ≡ (if str_eq old j then none else lookup j c.entries)))

-- `Put` on a cache within its size of at least 1, whatever the order of the map's iteration: the
-- cache stays within its size; it has the new content under the key; every other key keeps its
-- entry, but for one that is given up exactly when the cache was full, and that one had not been
-- used for the longest time. Keys are not empty.
pub put-lru :
    (order : List (String × CacheEntry)) (now : ℕ) (key : String) (content : List ℕ) (c : Cache)
    → 1 ≤ c.max_size
    → length c.entries ≤ c.max_size
    → All (λ p. p.0 ≢ "") order
    → ((p : String × CacheEntry) → Has p order → Has p c.entries)
    → ((p : String × CacheEntry) → Has p c.entries → Has p order)
    → AfterPut now key content c (put order now key content c)
unfolding put evict AfterPut IsOldest
put-lru order now key content c m b a f g = elim (Bool-cases (leb c.max_size (length c.entries))) [
  | inr q ↦
      let entry : CacheEntry = record { content = content; last_access = now } in
      let e : put order now key content c ≡ record c { entries = insert key entry c.entries } =
        rw (q, put) refl in
      let room : length c.entries < c.max_size = ground arith in
      subst (AfterPut now key content c) (sym e) (
        omega (arith, length-insert_le key entry c.entries),
        lookup-insert_self key entry c.entries,
        inl (room, λ j n. lookup-insert_ne key j entry c.entries (λ z. n (sym z))),
      )
  | inl q ↦
      let old = oldest order "" 0 in
      let rest = erase old c.entries in
      let entry : CacheEntry = record { content = content; last_access = now } in
      let e : put order now key content c ≡ record c { entries = insert key entry rest } =
        rw (q, put) refl in
      let full : length c.entries ≡ c.max_size = ground arith in
      let (x, h, l) = evicted order c m q a f g in
      subst (AfterPut now key content c) (sym e) (
        omega (arith, length-insert_le key entry rest, length-erase_lt old x c.entries h),
        lookup-insert_self key entry rest,
        inr (
          full,
          old,
          (x, h, l),
          λ j n. lookup-insert_ne key j entry rest (λ z. n (sym z)) ∙ lookup-erase old j c.entries,
        ),
      )
]
