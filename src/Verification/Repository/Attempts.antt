-- ===== src/Verification/Repository/Attempts.antt =====
-- Guessing a code (internal/verification/repository.go): what wrong codes cost.
use aera_cloud.Prelude.{
  ℕ, ◌+◌, ◌-◌, ◌≤◌, ◌≡◌, refl, Bool, true, false, inl, inr, ◌⊎◌, subst, Option, none, some, [], ◌∷◌,
  Bytes, update_where, All, All-update, All-map, All-written, count_where, count_zero-All,
  count-update_le, ◌||◌, Result, ok, err, arith, Option-cases, Bool-cases, ◌&&◌, if◌then◌else◌,
}
use aera_cloud.Postgres.{Faults, Commit, committed, aborted, unacknowledged, settle}
use aera_cloud.Verification.Repository.Newest.{newest-passes}
use aera_cloud.Verification.Model.{Purpose, Challenge}
use aera_cloud.Verification.Repository.{
  Rows, RepositoryError, code_mismatch, store_failed, is_newer, newer, newest, is_candidate,
  is_open, codes_match, fail_attempt, mark_consumed, has_challenge_id, consume, consume_selected,
  for_target,
}

-- The column's check, and an open challenge has an attempt left.
abbrev pub IsCounted : Challenge → Type 0
IsCounted c = (c.failed_attempts ≤ 5) × (is_open c ≡ true → c.failed_attempts ≤ 4)

fail-IsCounted : (now : ℕ) (c : Challenge) → c.failed_attempts ≤ 4 → IsCounted (fail_attempt now c)
unfolding fail_attempt
fail-IsCounted now c a = ground (arith, a)

consumed-IsCounted : (now : ℕ) (c : Challenge) → IsCounted c → IsCounted (mark_consumed now c)
unfolding mark_consumed
consumed-IsCounted now c (a, b) = ground (arith, a)

-- What one challenge still allows for a target and purpose.
abbrev pub allowance : Bytes → Purpose → Challenge → ℕ
allowance target purpose c =
    if for_target target purpose c && is_open c then 5 - c.failed_attempts else 0

-- The guesses that the challenges of a target and purpose still allow.
unfoldable pub guesses_left : Bytes → Purpose → Rows → ℕ
guesses_left target purpose [] = 0
guesses_left target purpose (c ∷ cs) =
    let rest = guesses_left target purpose cs in allowance target purpose c + rest

newest-cases :
    (p : Challenge → Bool) (d : Challenge) (ds : Rows) (c : Challenge)
    → newest p (d ∷ ds) ≡ some c
    → (d ≡ c) ⊎ (newest p ds ≡ some c)
unfolding newest newer
newest-cases p d ds c e = elim (Bool-cases (p d)) [
  | inr miss ↦ inr (ground (arith, miss))
  | inl hit ↦ elim (Option-cases (newest p ds)) [
    | inl f ↦ inl (ground (arith, hit, f))
    | inr (x, f) ↦ elim (Bool-cases (is_newer x d)) [
      | inl later ↦ inr (ground (arith, hit, f, later))
      | inr earlier ↦ inl (ground (arith, hit, f, earlier))
    ]
  ]
]

module _ (target : Bytes) (purpose : Purpose) where
  pub fail-allowance_le :
      (now : ℕ) (c : Challenge)
      → allowance target purpose (fail_attempt now c) ≤ allowance target purpose c
  unfolding fail_attempt
  fail-allowance_le now c = ground arith

  pub fail-allowance_lt :
      (now : ℕ) (c : Challenge)
      → for_target target purpose c ≡ true
      → is_open c ≡ true
      → c.failed_attempts ≤ 4
      → allowance target purpose (fail_attempt now c) + 1 ≤ allowance target purpose c
  unfolding fail_attempt
  fail-allowance_lt now c f o a = ground (arith, f, o, a)

  pub consumed-allowance_le :
      (now : ℕ) (c : Challenge)
      → allowance target purpose (mark_consumed now c) ≤ allowance target purpose c
  unfolding mark_consumed
  consumed-allowance_le now c = ground arith

  pub left-update_le :
      (q : Challenge → Bool) (f : Challenge → Challenge)
      → ((c : Challenge) → allowance target purpose (f c) ≤ allowance target purpose c)
      → (rows : Rows)
      → guesses_left target purpose (update_where q f rows) ≤ guesses_left target purpose rows
  unfolding guesses_left
  left-update_le q f le [] = omega arith
  left-update_le q f le (c ∷ cs) = elim (Bool-cases (q c)) [
    | inl e ↦ rw e (omega (arith, le c, left-update_le q f le cs))
    | inr e ↦ rw e (omega (arith, left-update_le q f le cs))
  ]

  pub left-update_lt :
      (p q : Challenge → Bool) (f : Challenge → Challenge)
      → ((c : Challenge) → allowance target purpose (f c) ≤ allowance target purpose c)
      → (rows : Rows) (c : Challenge) → newest p rows ≡ some c
      → q c ≡ true
      → allowance target purpose (f c) + 1 ≤ allowance target purpose c
      → guesses_left target purpose (update_where q f rows) + 1 ≤ guesses_left target purpose rows
  unfolding guesses_left
  left-update_lt p q f le [] c e hit lt = absurd (unfold newest in cc e)
  left-update_lt p q f le (d ∷ ds) c e hit lt = elim (newest-cases p d ds c e) [
    | inl same ↦ let rest = left-update_le q f le ds in rw (same, hit) (omega (arith, rest, lt))
    | inr later ↦
        let ih = left-update_lt p q f le ds c later hit lt in
        elim (Bool-cases (q d)) [
          | inl e' ↦ rw e' (omega (arith, le d, ih))
          | inr e' ↦ rw e' (omega (arith, ih))
        ]
  ]

-- One call of Consume, by whoever makes it.
pub record Attempt : Type 0 where
  pub db : Faults
  pub target : Bytes
  pub purpose : Purpose
  pub code : Bytes
  pub now : ℕ

abbrev pub attempt : Attempt → Rows → Result RepositoryError (Unit {0}) × Rows
attempt a rows = consume a.db a.target a.purpose a.code a.now rows

abbrev pub is_mismatch : Result RepositoryError (Unit {0}) → Bool
is_mismatch (err code_mismatch) = true
is_mismatch _ = false

-- No two rows have one id, the counts are in range, and an open challenge has an attempt left.
pub record IsSound (rows : Rows) : Type 0 where
  pub unique : (i : ℕ) → count_where (has_challenge_id i) rows ≤ 1
  pub counted : All IsCounted rows

newest-count :
    (p : Challenge → Bool) (rows : Rows) (c : Challenge)
    → newest p rows ≡ some c
    → 1 ≤ count_where (has_challenge_id c.id) rows
newest-count p [] c e = absurd (unfold newest in cc e)
newest-count p (d ∷ ds) c e = elim (newest-cases p d ds c e) [
  | inl same ↦ ground (arith, same)
  | inr later ↦ ground (arith, newest-count p ds c later)
]

pub newest-IsCounted :
    (p : Challenge → Bool) (rows : Rows) (c : Challenge)
    → newest p rows ≡ some c
    → All IsCounted rows
    → IsCounted c
newest-IsCounted p [] c e k = absurd (unfold newest in cc e)
newest-IsCounted p (d ∷ ds) c e k = elim (newest-cases p d ds c e) [
  | inl same ↦ subst IsCounted same k.0
  | inr later ↦ newest-IsCounted p ds c later k.1
]

-- By the unique id, every row that the update writes is the selected one.
selected_alone :
    (p : Challenge → Bool) (rows : Rows) (c : Challenge)
    → newest p rows ≡ some c
    → count_where (has_challenge_id c.id) rows ≤ 1
    → c.failed_attempts ≤ 4
    → All (λ x. has_challenge_id c.id x ≡ true → x.failed_attempts ≤ 4) rows
selected_alone p [] c e one few = tt
selected_alone p (d ∷ ds) c e one few = elim (newest-cases p d ds c e) [
  | inl same ↦
      let none_left : count_where (has_challenge_id c.id) ds ≡ 0 = ground (arith, same, one) in
      (
        (λ h. ground (arith, same, few)),
        All-map (λ x no_id h. absurd (cc (no_id, h))) ds
            (count_zero-All (has_challenge_id c.id) ds none_left),
      )
  | inr later ↦
      let some_left = newest-count p ds c later in
      (
        (λ h. absurd (ground (arith, some_left, one, h))),
        selected_alone p ds c later (ground (arith, some_left, one)) few,
      )
]

module _ (rows : Rows) (s : IsSound rows) (i now : ℕ) where
  mark-IsSound : IsSound (update_where (has_challenge_id i) (mark_consumed now) rows)
  unfolding mark_consumed
  mark-IsSound = record {
    unique = λ j. omega (
      arith,
      s.unique j,
      count-update_le (has_challenge_id j) (has_challenge_id i) (mark_consumed now) (λ x h. h) rows,
    );
    counted =
        All-update IsCounted (has_challenge_id i) (mark_consumed now)
          (λ x k. consumed-IsCounted now x k) rows s.counted;
  }

  fail-IsSound :
      All (λ x. has_challenge_id i x ≡ true → x.failed_attempts ≤ 4) rows
      → IsSound (update_where (has_challenge_id i) (fail_attempt now) rows)
  fail-IsSound few = record {
    unique = λ j. omega (
      arith,
      s.unique j,
      count-update_le (has_challenge_id j) (has_challenge_id i) (fail_attempt now)
          (λ x h. unfold fail_attempt in ground (arith, h)) rows,
    );
    counted =
        All-written IsCounted (has_challenge_id i) (fail_attempt now) rows
          (All-map (λ x f h. fail-IsCounted now x (f h)) rows few) s.counted;
  }

pub newest-open :
    (target : Bytes) (purpose : Purpose) (now : ℕ) (rows : Rows) (c : Challenge)
    → newest (is_candidate target purpose now) rows ≡ some c
    → (for_target target purpose c ≡ true) × (is_open c ≡ true)
newest-open target purpose now rows c e =
    ground (arith, newest-passes (is_candidate target purpose now) rows c e)

settled-IsSound :
    (x : Commit) (old new : Rows) (r : Result RepositoryError (Unit {0}))
    → IsSound old
    → IsSound new
    → IsSound (settle x store_failed old new r).1
settled-IsSound committed old new r a b = b
settled-IsSound aborted old new r a b = a
settled-IsSound unacknowledged old new r a b = b

selected-IsSound :
    (a : Attempt) (rows : Rows)
    → IsSound rows
    → (o : Option Challenge) → newest (is_candidate a.target a.purpose a.now) rows ≡ o
    → IsSound (consume_selected a.db o a.code a.now rows).1
unfolding consume_selected
selected-IsSound a rows s none e = s
selected-IsSound a rows s (some c) e = elim (Bool-cases a.db.write) [
  | inl down ↦ rw down s
  | inr up ↦ elim (Bool-cases (codes_match c.code_hmac a.code)) [
    | inl right ↦
        rw (up, right)
          (settled-IsSound a.db.commit rows _ (ok tt) s (mark-IsSound rows s c.id a.now))
    | inr wrong ↦
        let is_candidate_c = newest-open a.target a.purpose a.now rows c e in
        let few : c.failed_attempts ≤ 4 =
          (newest-IsCounted (is_candidate a.target a.purpose a.now) rows c e s.counted).1
            is_candidate_c.1 in
        rw (up, wrong)
          (settled-IsSound a.db.commit rows _ (err code_mismatch) s (
            fail-IsSound rows s c.id a.now (
              selected_alone (is_candidate a.target a.purpose a.now) rows c e (s.unique c.id) few)))
  ]
]

-- Consume keeps the table sound (ids unique, at most five failed attempts, an open challenge
-- with one left), whatever it answers and whatever fails.
pub consume-IsSound : (a : Attempt) (rows : Rows) → IsSound rows → IsSound (attempt a rows).1
unfolding consume
consume-IsSound a rows s = elim (Bool-cases (a.db.begin || a.db.read)) [
  | inl down ↦ rw down s
  | inr up ↦
      rw up (selected-IsSound a rows s (newest (is_candidate a.target a.purpose a.now) rows) refl)
]
