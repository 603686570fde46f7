-- ===== src/Oauth/Repository/Approved.antt =====
-- A request is approved once (internal/oauth/repository.go).
use aera_cloud.Prelude.{
  ℕ, ◌≡◌, refl, Bool, true, false, inl, inr, Option, none, some, Text, Bytes, find, find-update,
  find-any, find-passes, update_where, is_some, Result, ok, err, is_ok, ◌==◌, arith, Option-cases,
  Bool-cases,
}
use aera_cloud.Postgres.{Faults}
use aera_cloud.Oauth.Model.{OauthError, AuthorizationRecord, ApprovalRecord, Grant, Url}
use aera_cloud.Oauth.Repository.{
  RequestRow, Tables, Spaces, Selected, is_request, save, approve, approve_selected, approve_row,
  consume_request, select_grant, exchange, exchange_selected, exchange_finalized,
}
use aera_cloud.Oauth.Repository.Exchanged.{Step, Steps, saves, approves, exchanges, here, next}

-- The request is known, and a user approved it.
abbrev pub is_approved : Option RequestRow → Bool
is_approved none = false
is_approved (some r) = is_some r.approved_user_id

abbrev pub IsApproved : ℕ → Tables → Type 0
IsApproved i t = is_approved (find (is_request i) t.requests) ≡ true

save-IsApproved :
    (i : ℕ) (db : Faults) (parse_url : Text → Option Url) (r : AuthorizationRecord) (t : Tables)
    → IsApproved i t
    → IsApproved i (save db parse_url r t).1
unfolding save
save-IsApproved i db parse_url r t s = elim (Option-cases (find (is_request i) t.requests)) [
  | inl e ↦ absurd (ground (arith, e, s))
  | inr (x, e) ↦ elim (Bool-cases (r.id == i)) [
    | inr n ↦ ground (arith, e, s, n)
    | inl n ↦
        let same : r.id ≡ i = ground (arith, n) in
        ground (arith, e, s, rw (← same) at (find-any (is_request i) t.requests x e), n)
  ]
]

update-IsApproved :
    (i j : ℕ) (f : RequestRow → RequestRow)
    → ((r : RequestRow) → is_request i (f r) ≡ is_request i r)
    → ((r : RequestRow) → is_some r.approved_user_id ≡ true → is_some (f r).approved_user_id ≡ true)
    → (t : Tables) → IsApproved i t
    → is_approved (find (is_request i) (update_where (is_request j) f t.requests)) ≡ true
update-IsApproved i j f key keep t s = elim (Option-cases (find (is_request i) t.requests)) [
  | inl e ↦ absurd (ground (arith, e, s))
  | inr (x, e) ↦
      ground (arith, e, s, find-update (is_request i) (is_request j) f key t.requests x e, keep x)
]

approve-IsApproved :
    (i : ℕ) (db : Faults) (spaces : Spaces) (a : ApprovalRecord) (t : Tables)
    → IsApproved i t
    → IsApproved i (approve db spaces a t).1
unfolding approve approve_selected
approve-IsApproved i db spaces a t s =
    elim (Option-cases (find (is_request a.request_id) t.requests)) [
      | inl e ↦ ground (arith, e, s)
      | inr (r, e) ↦ ground (
        arith,
        e,
        s,
        update-IsApproved i a.request_id (approve_row a) (λ _. refl) (λ _ _. refl) t s,
      )
    ]

module _ {A D : Type 0} (i : ℕ) (db : Faults) (now : ℕ) (t : Tables) (d : D) where
  finalized-IsApproved :
      (x : Selected) (y : Result OauthError A × D)
      → IsApproved i t
      → IsApproved i (exchange_finalized db x now (t, d) y).1.0
  unfolding exchange_finalized
  finalized-IsApproved x (err e, d') s = s
  finalized-IsApproved x (ok a, d') s = ground (
    arith,
    s,
    update-IsApproved i x.grant.authorization.id (consume_request now) (λ _. refl) (λ _ h. h) t s,
  )

  found-IsApproved :
      (finalize : Grant → D → Result OauthError A × D) (x : Option Selected)
      → IsApproved i t
      → IsApproved i (exchange_selected db now finalize (t, d) x).1.0
  unfolding exchange_selected
  found-IsApproved finalize none s = s
  found-IsApproved finalize (some x) s =
      ground (arith, s, finalized-IsApproved x (finalize x.grant d) s)

  exchange-IsApproved :
      (k : Bytes) (spaces : Spaces) (finalize : Grant → D → Result OauthError A × D)
      → IsApproved i t
      → IsApproved i (exchange db spaces k now finalize (t, d)).1.0
  unfolding exchange
  exchange-IsApproved k spaces finalize s =
      ground (arith, s, found-IsApproved finalize (select_grant spaces k t) s)

Step-IsApproved : (i : ℕ) {t u : Tables} → Step t u → IsApproved i t → IsApproved i u
Step-IsApproved i {t} (saves db parse_url r) s = save-IsApproved i db parse_url r t s
Step-IsApproved i {t} (approves db spaces a) s = approve-IsApproved i db spaces a t s
Step-IsApproved i {t} (exchanges db spaces k now finalize d) s =
    exchange-IsApproved i db now t d k spaces finalize s

Steps-IsApproved : (i : ℕ) {t u : Tables} → Steps t u → IsApproved i t → IsApproved i u
Steps-IsApproved i here s = s
Steps-IsApproved i (next path step) s = Step-IsApproved i step (Steps-IsApproved i path s)

approve_ok-IsApproved :
    (db : Faults) (spaces : Spaces) (a : ApprovalRecord) (t : Tables)
    → is_ok (approve db spaces a t).0 ≡ true
    → IsApproved a.request_id (approve db spaces a t).1
unfolding approve approve_selected
approve_ok-IsApproved db spaces a t o =
    elim (Option-cases (find (is_request a.request_id) t.requests)) [
      | inl e ↦ absurd (ground (arith, e, o))
      | inr (r, e) ↦ ground (
        arith,
        e,
        o,
        find-passes (is_request a.request_id) t.requests r e,
        find-update (is_request a.request_id) (is_request a.request_id) (approve_row a) (λ _. refl)
            t.requests r e,
      )
    ]

-- A request is approved once: after a successful Approve no Approve of the same request succeeds,
-- by whichever user, whatever transactions ran in between and under any faults.
pub approve_once :
    (db db' : Faults) (spaces spaces' : Spaces) (a b : ApprovalRecord) (t u : Tables)
    → b.request_id ≡ a.request_id
    → is_ok (approve db spaces a t).0 ≡ true
    → Steps (approve db spaces a t).1 u
    → is_ok (approve db' spaces' b u).0 ≡ false
unfolding approve approve_selected
approve_once db db' spaces spaces' a b t u same o path =
    let s = Steps-IsApproved a.request_id path (approve_ok-IsApproved db spaces a t o) in
    elim (Option-cases (find (is_request a.request_id) u.requests)) [
      | inl e ↦ absurd (ground (arith, e, s))
      | inr (r, e) ↦ rw same (ground (arith, e, s))
    ]
