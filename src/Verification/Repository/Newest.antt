-- ===== src/Verification/Repository/Newest.antt =====
-- The row that ORDER BY created_at DESC, id DESC LIMIT 1 selects (internal/verification/repository.go).
use mathlib.Core.List.{Memᴰ}
use mathlib.Core.List.Memᴰ.{head, tail}
use aera_cloud.Prelude.{
  ◌≡◌, ◌⊎◌, refl, sym, subst, List, Option, ltb, bytes_eq_iff, Bool, true, false, inl, inr, none,
  some, [], ◌∷◌, Bytes, All, All-map, ok, arith, Option-cases, Bool-cases,
}
use aera_cloud.Verification.Model.{Purpose, Challenge}
use aera_cloud.Verification.Repository.{
  Rows, for_target, latest_for_target, keep_later, latest_loop, latest, is_newer, newer, newest,
}

-- The selected row passes, and is a row of the table.
pub newest-passes :
    (p : Challenge → Bool) (rows : Rows) (c : Challenge) → newest p rows ≡ some c → p c ≡ true
unfolding newest
newest-passes p [] c e = absurd (cc e)
newest-passes p (d ∷ ds) c e = elim (Bool-cases (p d)) [
  | inr miss ↦ newest-passes p ds c (ground (arith, miss))
  | inl hit ↦ elim (Option-cases (newest p ds)) [
    | inl f ↦ ground (arith, hit, f)
    | inr (x, f) ↦ ground (arith, hit, f, newest-passes p ds x f)
  ]
]

older_trans :
    (a b c : Challenge) → is_newer a b ≡ false → is_newer b c ≡ false → is_newer a c ≡ false
unfolding is_newer
older_trans a b c h k = ground arith

newer_asym : (a b : Challenge) → is_newer a b ≡ true → is_newer b a ≡ false
unfolding is_newer
newer_asym a b h = ground arith

newer_self : (a : Challenge) → is_newer a a ≡ false
unfolding is_newer
newer_self a = ground arith

abbrev pub NoneNewer : (Challenge → Bool) → Challenge → Rows → Type 0
NoneNewer p c rows = All (λ d. p d ≡ true → is_newer d c ≡ false) rows

nothing-NoneNewer :
    (p : Challenge → Bool) (c : Challenge) (rows : Rows) → newest p rows ≡ none → NoneNewer p c rows
unfolding newest
nothing-NoneNewer p c [] e = tt
nothing-NoneNewer p c (d ∷ ds) e = elim (Bool-cases (p d)) [
  | inl hit ↦ absurd (ground (arith, hit))
  | inr miss ↦ ((λ h. cc (h, miss)), nothing-NoneNewer p c ds (ground (arith, miss)))
]

weaken-NoneNewer :
    (p : Challenge → Bool) (x c : Challenge) (rows : Rows)
    → is_newer x c ≡ false
    → NoneNewer p x rows
    → NoneNewer p c rows
weaken-NoneNewer p x c rows h a = All-map (λ d f g. older_trans d x c (f g) h) rows a

-- No passing row is newer than the selected one.
pub newest-NoneNewer :
    (p : Challenge → Bool) (rows : Rows) (c : Challenge)
    → newest p rows ≡ some c
    → NoneNewer p c rows
unfolding newest newer
newest-NoneNewer p [] c e = tt
newest-NoneNewer p (d ∷ ds) c e = elim (Bool-cases (p d)) [
  | inr miss ↦ ((λ h. cc (h, miss)), newest-NoneNewer p ds c (ground (arith, miss)))
  | inl hit ↦ elim (Option-cases (newest p ds)) [
    | inl f ↦
        let same : d ≡ c = ground (arith, hit, f) in
        ((λ h. ground (arith, same, newer_self d)), nothing-NoneNewer p c ds f)
    | inr (x, f) ↦ elim (Bool-cases (is_newer x d)) [
      | inl later ↦
          let same : x ≡ c = ground (arith, hit, f, later) in
          (
            (λ h. ground (arith, same, newer_asym x d later)),
            newest-NoneNewer p ds c (cc (f, same)),
          )
      | inr earlier ↦
          let same : d ≡ c = ground (arith, hit, f, earlier) in
          (
            (λ h. ground (arith, same, newer_self d)),
            weaken-NoneNewer p x c ds (ground (arith, same, earlier)) (newest-NoneNewer p ds x f),
          )
    ]
  ]
]

-- The selected row is one of the table.
pub newest-Mem :
    (p : Challenge → Bool) (rows : Rows) (c : Challenge) → newest p rows ≡ some c → Memᴰ c rows
unfolding newest newer
newest-Mem p [] c e = absurd (cc e)
newest-Mem p (d ∷ ds) c e = elim (Bool-cases (p d)) [
  | inr miss ↦ tail (newest-Mem p ds c (ground (arith, miss)))
  | inl hit ↦ elim (Option-cases (newest p ds)) [
    | inl f ↦ let same : d ≡ c = ground (arith, hit, f) in head (sym same)
    | inr (x, f) ↦ elim (Bool-cases (is_newer x d)) [
      | inl later ↦
          let same : x ≡ c = ground (arith, hit, f, later) in
          tail (newest-Mem p ds c (cc (f, same)))
      | inr earlier ↦ let same : d ≡ c = ground (arith, hit, f, earlier) in head (sym same)
    ]
  ]
]

NoneNewer-Mem :
    (p : Challenge → Bool) (c d : Challenge) (rows : Rows)
    → NoneNewer p c rows
    → Memᴰ d rows
    → p d ≡ true
    → is_newer d c ≡ false
NoneNewer-Mem p c d [] a m h = elim m [ ]
NoneNewer-Mem p c d (x ∷ xs) a (head e) h = rw e (a.0 (rw e at (h)))
NoneNewer-Mem p c d (x ∷ xs) a (tail m) h = NoneNewer-Mem p c d xs a.1 m h

module _ (p q : Challenge → Bool) (within : (c : Challenge) → q c ≡ true → p c ≡ true) where
  newest-none-narrow : (rows : Rows) → newest p rows ≡ none → newest q rows ≡ none
  unfolding newest
  newest-none-narrow [] e = refl
  newest-none-narrow (d ∷ ds) e = elim (Bool-cases (p d)) [
    | inl hit ↦ absurd (ground (arith, hit, e))
    | inr miss ↦ ground (arith, e, miss, within d, newest-none-narrow ds)
  ]

  -- A narrower selection gives the same row, if the row passes it.
  pub newest-narrow :
      (rows : Rows) (c : Challenge) → newest p rows ≡ some c → q c ≡ true → newest q rows ≡ some c
  unfolding newest newer
  newest-narrow [] c e k = absurd (cc e)
  newest-narrow (d ∷ ds) c e k = elim (Bool-cases (p d)) [
    | inr miss ↦ ground (arith, miss, within d, e, k, newest-narrow ds c)
    | inl hit ↦ elim (Option-cases (newest p ds)) [
      | inl f ↦
          let same : d ≡ c = ground (arith, hit, f) in
          ground (arith, same, k, newest-none-narrow ds f)
      | inr (x, f) ↦ elim (Bool-cases (is_newer x d)) [
        | inl later ↦
            let same : x ≡ c = ground (arith, hit, f, later) in
            let rest = newest-narrow ds c (cc (f, same)) k in ground (arith, same, later, rest)
        | inr earlier ↦
            let same : d ≡ c = ground (arith, hit, f, earlier) in
            let passes : q d ≡ true = cc (same, k) in
            elim (Option-cases (newest q ds)) [
              | inl g ↦ ground (arith, same, passes, g)
              | inr (y, g) ↦
                  let below =
                    NoneNewer-Mem p x y ds (newest-NoneNewer p ds x f) (newest-Mem q ds y g)
                      (within y (newest-passes q ds y g)) in
                  ground (arith, same, passes, g, older_trans y x d below earlier)
            ]
      ]
    ]
  ]

either-keep_later :
    (a b : Option Challenge) (c : Challenge) → keep_later a b ≡ some c → (a ≡ some c) ⊎ (b ≡ some c)
unfolding keep_later
either-keep_later none none c e = inl e
either-keep_later (some x) none c e = inl e
either-keep_later none (some y) c e = inr e
either-keep_later (some x) (some y) c e = elim (Bool-cases (ltb x.created_at y.created_at)) [
  | inl h ↦ inr (ground (arith, e, h))
  | inr h ↦ inl (ground (arith, e, h))
]

-- What Latest finds is, for one of the targets, the newest challenge of that target and purpose.
abbrev pub IsLatest : List Bytes → Purpose → Rows → Challenge → Type 0
IsLatest ts purpose rows c =
    Memᴰ c.target_lookup_hmac ts × (newest (for_target c.target_lookup_hmac purpose) rows ≡ some c)

latest_for_target-IsLatest :
    (ts : List Bytes) (t : Bytes) (purpose : Purpose) (rows : Rows) (c : Challenge)
    → Memᴰ t ts
    → latest_for_target t purpose rows ≡ some c
    → IsLatest ts purpose rows c
unfolding latest_for_target
latest_for_target-IsLatest ts t purpose rows c m e =
    let own : c.target_lookup_hmac ≡ t =
      (bytes_eq_iff c.target_lookup_hmac t).0
        (ground (arith, newest-passes (for_target t purpose) rows c e)) in
    subst (λ u. Memᴰ u ts × (newest (for_target u purpose) rows ≡ some c)) (sym own) (m, e)

module _ (ts : List Bytes) (purpose : Purpose) (rows : Rows) (c : Challenge) where
  latest_loop-IsLatest :
      (rest : List Bytes) (found : Option Challenge)
      → ((t : Bytes) → Memᴰ t rest → Memᴰ t ts)
      → (found ≡ some c → IsLatest ts purpose rows c)
      → latest_loop rest purpose rows found ≡ some c
      → IsLatest ts purpose rows c
  unfolding latest_loop
  latest_loop-IsLatest [] found within so_far e = so_far e
  latest_loop-IsLatest (t ∷ rest) found within so_far e =
      latest_loop-IsLatest rest (keep_later found (latest_for_target t purpose rows))
        (λ u m. within u (tail m)) now e
    where
      now :
          keep_later found (latest_for_target t purpose rows) ≡ some c → IsLatest ts purpose rows c
      now k = elim (either-keep_later found (latest_for_target t purpose rows) c k) [
        | inl old ↦ so_far old
        | inr new ↦ latest_for_target-IsLatest ts t purpose rows c (within t (head refl)) new
      ]

  pub latest-IsLatest :
      (fails : Bool) → latest fails ts purpose rows ≡ ok (some c) → IsLatest ts purpose rows c
  unfolding latest
  latest-IsLatest fails e =
      latest_loop-IsLatest ts none (λ t m. m) (λ n. absurd (cc n)) (ground (arith, e))
