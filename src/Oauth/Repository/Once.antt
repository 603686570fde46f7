-- ===== src/Oauth/Repository/Once.antt =====
-- An authorization is approved once and exchanged once (internal/oauth/repository.go).
use aera_cloud.Prelude.{
  ℕ, ◌≡◌, find-update, refl, Bool, true, false, inl, inr, Option, none, some, List, [], ◌∷◌, Text,
  Bytes, bytes_eq, bytes_eq_iff, any, find, is_some, Result, ok, err, is_ok, arith, Option-cases,
  Bool-cases, find-any,
}
use aera_cloud.Postgres.{Faults}
use aera_cloud.Oauth.Model.{OauthError, AuthorizationRecord, ApprovalRecord, Grant, Url}
use aera_cloud.Oauth.Repository.{
  RequestRow, CodeRow, Tables, Spaces, Selected, is_request, is_code, has_code_hash, save, approve,
  approve_selected, code_conflicts, select_grant, select_code, select_request, select_user,
  select_space, consume_code, exchange, exchange_selected, exchange_finalized, consumed_tables,
}

-- The code is known, and was exchanged.
abbrev pub is_spent : Option CodeRow → Bool
is_spent none = false
is_spent (some c) = is_some c.consumed_at

abbrev pub IsSpent : Bytes → Tables → Type 0
IsSpent h t = is_spent (find (has_code_hash h) t.codes) ≡ true

spent-any : (h : Bytes) (t : Tables) → IsSpent h t → any (has_code_hash h) t.codes ≡ true
spent-any h t s = elim (Option-cases (find (has_code_hash h) t.codes)) [
  | inl e ↦ absurd (ground (arith, e, s))
  | inr (c, e) ↦ find-any (has_code_hash h) t.codes c e
]

pub save-IsSpent :
    (h : Bytes) (db : Faults) (parse_url : Text → Option Url) (r : AuthorizationRecord) (t : Tables)
    → IsSpent h t
    → IsSpent h (save db parse_url r t).1
unfolding save
save-IsSpent h db parse_url r t s = ground (arith, s)

conflict_free :
    (h : Bytes) (a : ApprovalRecord) (cs : List CodeRow)
    → code_conflicts a cs ≡ false
    → any (has_code_hash h) cs ≡ true
    → bytes_eq a.code_hash h ≡ false
unfolding code_conflicts
conflict_free h a [] f k = absurd (cc k)
conflict_free h a (c ∷ cs) f k = ground (
  arith,
  f,
  k,
  conflict_free h a cs,
  bytes_eq_iff c.code_hash h,
  bytes_eq_iff c.code_hash a.code_hash,
  bytes_eq_iff a.code_hash h,
)

selected-IsSpent :
    (h : Bytes) (db : Faults) (spaces : Spaces) (a : ApprovalRecord) (t : Tables)
    (x : Option RequestRow)
    → IsSpent h t
    → IsSpent h (approve_selected db spaces a t x).1
unfolding approve_selected
selected-IsSpent h db spaces a t none s = s
selected-IsSpent h db spaces a t (some r) s = elim (Bool-cases (code_conflicts a t.codes)) [
  | inl e ↦ ground (arith, s, e)
  | inr e ↦ ground (arith, s, e, conflict_free h a t.codes e (spent-any h t s))
]

pub approve-IsSpent :
    (h : Bytes) (db : Faults) (spaces : Spaces) (a : ApprovalRecord) (t : Tables)
    → IsSpent h t
    → IsSpent h (approve db spaces a t).1
unfolding approve
approve-IsSpent h db spaces a t s =
    ground
      (arith, s, selected-IsSpent h db spaces a t (find (is_request a.request_id) t.requests) s)

consumed-IsSpent :
    (h : Bytes) (x : Selected) (now : ℕ) (t : Tables)
    → IsSpent h t
    → IsSpent h (consumed_tables x now t)
consumed-IsSpent h x now t s = elim (Option-cases (find (has_code_hash h) t.codes)) [
  | inl e ↦ absurd (ground (arith, e, s))
  | inr (c, e) ↦ ground (
    arith,
    s,
    e,
    find-update (has_code_hash h) (is_code x.code.id) (consume_code now) (λ _. refl) t.codes c e,
  )
]

module _ {A D : Type 0} (h : Bytes) (db : Faults) (now : ℕ) (t : Tables) (d : D) where
  finalized-IsSpent :
      (x : Selected) (y : Result OauthError A × D)
      → IsSpent h t
      → IsSpent h (exchange_finalized db x now (t, d) y).1.0
  unfolding exchange_finalized
  finalized-IsSpent x (err e, d') s = s
  finalized-IsSpent x (ok a, d') s = ground (arith, s, consumed-IsSpent h x now t s)

  found-IsSpent :
      (finalize : Grant → D → Result OauthError A × D) (x : Option Selected)
      → IsSpent h t
      → IsSpent h (exchange_selected db now finalize (t, d) x).1.0
  unfolding exchange_selected
  found-IsSpent finalize none s = s
  found-IsSpent finalize (some x) s = ground (arith, s, finalized-IsSpent x (finalize x.grant d) s)

  pub exchange-IsSpent :
      (k : Bytes) (spaces : Spaces) (finalize : Grant → D → Result OauthError A × D)
      → IsSpent h t
      → IsSpent h (exchange db spaces k now finalize (t, d)).1.0
  unfolding exchange
  exchange-IsSpent k spaces finalize s =
      ground (arith, s, found-IsSpent finalize (select_grant spaces k t) s)

space-code :
    (spaces : Spaces) (c : CodeRow) (r : RequestRow) (s : Selected)
    → select_request spaces c (some r) ≡ some s
    → (s.code ≡ c)
      × (s.grant.authorization ≡ r.authorization)
      × (s.request_consumed_at ≡ r.consumed_at)
      × (r.approved_user_id ≡ some s.grant.user_id)
      × (spaces s.grant.user_id ≡ some s.grant.personal_space_id)
unfolding select_request select_user select_space
space-code spaces c r s e = elim (Option-cases r.approved_user_id) [
  | inl f ↦ absurd (ground (arith, e, f))
  | inr (user, f) ↦ elim (Option-cases (spaces user)) [
    | inl g ↦ absurd (ground (arith, e, f, g))
    | inr (space, g) ↦ ground (arith, e, f, g)
  ]
]

-- What the query of Exchange has found.
pub select_grant-found :
    (spaces : Spaces) (h : Bytes) (t : Tables) (s : Selected)
    → select_grant spaces h t ≡ some s
    → (r : RequestRow) × (find (has_code_hash h) t.codes ≡ some s.code)
      × (find (is_request s.code.oauth_request_id) t.requests ≡ some r)
      × (s.grant.authorization ≡ r.authorization)
      × (s.request_consumed_at ≡ r.consumed_at)
      × (r.approved_user_id ≡ some s.grant.user_id)
      × (spaces s.grant.user_id ≡ some s.grant.personal_space_id)
unfolding select_grant select_code select_request
select_grant-found spaces h t s e = elim (Option-cases (find (has_code_hash h) t.codes)) [
  | inl f ↦ absurd (ground (arith, e, f))
  | inr (c, f) ↦ elim (Option-cases (find (is_request c.oauth_request_id) t.requests)) [
    | inl g ↦ absurd (ground (arith, e, f, g))
    | inr (r, g) ↦
        let p = space-code spaces c r s (ground (arith, e, f, g)) in
        (r, rw (p.0) f, rw (p.0) g, p.1, p.2, p.3, p.4)
  ]
]

refused-selected :
    {A : Type 0} {D : Type 0}
    → (db : Faults) (now : ℕ) (finalize : Grant → D → Result OauthError A × D) (t : Tables) (d : D)
      (x : Option Selected)
    → ((s : Selected) → x ≡ some s → is_some s.code.consumed_at ≡ true)
    → is_ok (exchange_selected db now finalize (t, d) x).0 ≡ false
unfolding exchange_selected
refused-selected db now finalize t d none gone = refl
refused-selected db now finalize t d (some s) gone = rw (gone s refl) refl

-- A spent code is not exchanged.
pub spent_refused :
    {A D : Type 0} (db : Faults) (spaces : Spaces) (h : Bytes) (now : ℕ)
    (finalize : Grant → D → Result OauthError A × D) (t : Tables) (d : D)
    → IsSpent h t
    → is_ok (exchange db spaces h now finalize (t, d)).0 ≡ false
unfolding exchange
spent_refused db spaces h now finalize t d s = ground (
  arith,
  refused-selected db now finalize t d (select_grant spaces h t)
      (λ x e. let f = (select_grant-found spaces h t x e).1 in ground (arith, f, s)),
)
