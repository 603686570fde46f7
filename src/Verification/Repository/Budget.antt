-- ===== src/Verification/Repository/Budget.antt =====
-- Brute force against a code (internal/verification/repository.go).
use aera_cloud.Prelude.{
  ℕ, ◌+◌, ◌*◌, ◌≤◌, ◌≡◌, Bool, true, false, inl, inr, none, List, [], ◌∷◌, Bytes, bytes_eq,
  bytes_eq_iff, count_where, is_ok, arith, Option-cases, Bool-cases, ◌&&◌, if◌then◌else◌, eq_iff,
}
use aera_cloud.Verification.Model.{Purpose, purpose_eq, purpose_text, Challenge}
use aera_cloud.Verification.Repository.{
  Rows, newest, is_candidate, is_open, fail_attempt, mark_consumed, has_challenge_id, consume,
  consume_selected, for_target,
}
use aera_cloud.Verification.Repository.Attempts.{
  IsSound, Attempt, attempt, is_mismatch, guesses_left, fail-allowance_le, fail-allowance_lt,
  consumed-allowance_le, left-update_le, left-update_lt, consume-IsSound, newest-open,
  newest-IsCounted,
}

-- A wrong code for this target and purpose.
unfoldable pub counts_for : Bytes → Purpose → Attempt → Rows → Bool
counts_for target purpose a rows =
    bytes_eq a.target target && purpose_eq a.purpose purpose && is_mismatch (attempt a rows).0

same_target :
    (target : Bytes) (purpose : Purpose) (a : Attempt) (c : Challenge)
    → bytes_eq a.target target ≡ true
    → purpose_eq a.purpose purpose ≡ true
    → for_target a.target a.purpose c ≡ true
    → for_target target purpose c ≡ true
same_target target purpose a c t p f = ground (
  arith,
  t,
  p,
  f,
  bytes_eq_iff a.target target,
  bytes_eq_iff c.target_lookup_hmac a.target,
  bytes_eq_iff c.target_lookup_hmac target,
  eq_iff (purpose_text a.purpose) (purpose_text purpose),
  eq_iff (purpose_text c.purpose) (purpose_text a.purpose),
  eq_iff (purpose_text c.purpose) (purpose_text purpose),
)

attempt-left_le :
    (target : Bytes) (purpose : Purpose) (a : Attempt) (rows : Rows)
    → guesses_left target purpose (attempt a rows).1 ≤ guesses_left target purpose rows
unfolding consume consume_selected
attempt-left_le target purpose a rows =
    elim (Option-cases (newest (is_candidate a.target a.purpose a.now) rows)) [
      | inl e ↦ ground (arith, e)
      | inr (c, e) ↦ ground (
        arith,
        e,
        left-update_le target purpose (has_challenge_id c.id) (fail_attempt a.now)
            (fail-allowance_le target purpose a.now) rows,
        left-update_le target purpose (has_challenge_id c.id) (mark_consumed a.now)
            (consumed-allowance_le target purpose a.now) rows,
      )
    ]

attempt-left_lt :
    (target : Bytes) (purpose : Purpose) (a : Attempt) (rows : Rows)
    → IsSound rows
    → counts_for target purpose a rows ≡ true
    → guesses_left target purpose (attempt a rows).1 + 1 ≤ guesses_left target purpose rows
unfolding counts_for consume consume_selected
attempt-left_lt target purpose a rows s m =
    elim (Option-cases (newest (is_candidate a.target a.purpose a.now) rows)) [
      | inl e ↦ absurd (ground (arith, e, m))
      | inr (c, e) ↦
          let (own, open_c) = newest-open a.target a.purpose a.now rows c e in
          let own' = same_target target purpose a c (ground (arith, m)) (ground (arith, m)) own in
          let few =
            (newest-IsCounted (is_candidate a.target a.purpose a.now) rows c e s.counted).1
              open_c in
          ground (
            arith,
            e,
            m,
            left-update_lt target purpose (is_candidate a.target a.purpose a.now)
                (has_challenge_id c.id) (fail_attempt a.now)
                (fail-allowance_le target purpose a.now) rows c e (ground arith)
                (fail-allowance_lt target purpose a.now c own' open_c few),
          )
    ]

-- The table after the attempts.
unfoldable pub attempts : List Attempt → Rows → Rows
attempts [] rows = rows
attempts (a ∷ tries) rows = attempts tries (attempt a rows).1

-- How many of the attempts were wrong codes for this target and purpose.
unfoldable pub wrong_codes : Bytes → Purpose → List Attempt → Rows → ℕ
wrong_codes target purpose [] rows = 0
wrong_codes target purpose (a ∷ tries) rows =
    let rest = wrong_codes target purpose tries (attempt a rows).1 in
    (if counts_for target purpose a rows then 1 else 0) + rest

attempts-IsSound :
    (tries : List Attempt) (rows : Rows) → IsSound rows → IsSound (attempts tries rows)
unfolding attempts
attempts-IsSound [] rows s = s
attempts-IsSound (a ∷ tries) rows s =
    attempts-IsSound tries (attempt a rows).1 (consume-IsSound a rows s)

wrong_codes_left :
    (target : Bytes) (purpose : Purpose) (tries : List Attempt) (rows : Rows)
    → IsSound rows
    → wrong_codes target purpose tries rows + guesses_left target purpose (attempts tries rows)
      ≤ guesses_left target purpose rows
unfolding wrong_codes attempts
wrong_codes_left target purpose [] rows s = omega arith
wrong_codes_left target purpose (a ∷ tries) rows s =
    let ih = wrong_codes_left target purpose tries (attempt a rows).1 (consume-IsSound a rows s) in
    elim (Bool-cases (counts_for target purpose a rows)) [
      | inl m ↦ rw m (omega (arith, ih, attempt-left_lt target purpose a rows s m))
      | inr m ↦ rw m (omega (arith, ih, attempt-left_le target purpose a rows))
    ]

left-le-open :
    (target : Bytes) (purpose : Purpose) (rows : Rows)
    → guesses_left target purpose rows
      ≤ 5 * count_where (λ c. for_target target purpose c && is_open c) rows
unfolding guesses_left
left-le-open target purpose [] = omega arith
left-le-open target purpose (c ∷ cs) = ground (arith, left-le-open target purpose cs)

-- In a sound table, however many codes are tried, by any number of callers, in any order with
-- attempts on other targets and under any faults: at most five are answered as wrong for each
-- challenge of the target and purpose that is open at the start.
pub wrong_codes_bounded :
    (target : Bytes) (purpose : Purpose) (tries : List Attempt) (rows : Rows)
    → IsSound rows
    → wrong_codes target purpose tries rows
      ≤ 5 * count_where (λ c. for_target target purpose c && is_open c) rows
wrong_codes_bounded target purpose tries rows s =
    omega (arith, wrong_codes_left target purpose tries rows s, left-le-open target purpose rows)

-- With no guess left there is no challenge to check a code against.
exhausted :
    (target : Bytes) (purpose : Purpose) (now : ℕ) (rows : Rows)
    → IsSound rows
    → guesses_left target purpose rows ≡ 0
    → newest (is_candidate target purpose now) rows ≡ none
exhausted target purpose now rows s z =
    elim (Option-cases (newest (is_candidate target purpose now) rows)) [
      | inl e ↦ e
      | inr (c, e) ↦
          let (own, open_c) = newest-open target purpose now rows c e in
          let few =
            (newest-IsCounted (is_candidate target purpose now) rows c e s.counted).1 open_c in
          absurd (
            omega (
              arith,
              z,
              left-update_lt target purpose (is_candidate target purpose now)
                  (has_challenge_id c.id) (fail_attempt now) (fail-allowance_le target purpose now)
                  rows c e (ground arith) (fail-allowance_lt target purpose now c own open_c few),
            ))
    ]

-- In a sound table, after five wrong codes for a target and purpose that had one open challenge,
-- Consume does not accept any code for them, the right one included, at any time and under any
-- faults.
pub five_wrong_codes_lock :
    (target : Bytes) (purpose : Purpose) (tries : List Attempt) (rows : Rows) (last : Attempt)
    → IsSound rows
    → count_where (λ c. for_target target purpose c && is_open c) rows ≡ 1
    → wrong_codes target purpose tries rows ≡ 5
    → last.target ≡ target
    → last.purpose ≡ purpose
    → is_ok (attempt last (attempts tries rows)).0 ≡ false
five_wrong_codes_lock target purpose tries rows last s one five t p =
    refused (attempts tries rows) (attempts-IsSound tries rows s) (
      omega (arith, wrong_codes_left target purpose tries rows s, left-le-open target purpose rows))
  where
    refused :
        (rows : Rows)
        → IsSound rows
        → guesses_left target purpose rows ≡ 0
        → is_ok (attempt last rows).0 ≡ false
    refused rows s z =
        let none_left = exhausted target purpose last.now rows s z in
        unfold consume consume_selected in ground (arith, none_left, t, p)
