-- ===== src/Oauth/Repository/Exchanged.antt =====
-- What a successful Exchange has checked and written, and any order of the transactions on the two
-- tables (internal/oauth/repository.go).
use aera_cloud.Prelude.{
  ℕ, ◌<◌, ◌∙◌, ap, find, bytes_eq, update_where, ◌≡◌, refl, true, false, inl, inr, Option, none,
  some, Text, Bytes, find-update, is_some, Result, ok, err, is_ok, ltb, ◌==◌, ◌||◌, arith,
  Bool-cases, length,
}
use aera_cloud.Postgres.{Faults, committed}
use aera_cloud.Oauth.Model.{OauthError, AuthorizationRecord, ApprovalRecord, Grant, Url}
use aera_cloud.Oauth.Repository.{
  Tables, Spaces, Selected, RequestRow, CodeRow, is_request, consume_request, is_code,
  has_code_hash, save, approve, select_grant, consume_code, exchange, exchange_selected,
  exchange_finalized, consumed_tables,
}
use aera_cloud.Oauth.Repository.Once.{
  IsSpent, save-IsSpent, approve-IsSpent, exchange-IsSpent, select_grant-found, spent_refused,
}

-- What a successful Exchange has selected, and what it wrote for that.
pub record IsSelected {A D : Type 0} (spaces : Spaces) (h : Bytes) (now : ℕ)
    (finalize : Grant → D → Result OauthError A × D) (t : Tables) (d : D)
    (a : Result OauthError A × (Tables × D)) : Type 0 where
  pub selected : Selected
  pub found : select_grant spaces h t ≡ some selected
  pub code_open : is_some selected.code.consumed_at ≡ false
  pub request_open : is_some selected.request_consumed_at ≡ false
  pub code_live : ltb now selected.code.expires_at ≡ true
  pub request_live : ltb now selected.grant.authorization.expires_at ≡ true
  pub finalized : a.0 ≡ (finalize selected.grant d).0
  pub writes : a.1 ≡ (consumed_tables selected now t, (finalize selected.grant d).1)

module _ {A D : Type 0} (db : Faults) (spaces : Spaces) (h : Bytes) (now : ℕ)
    (finalize : Grant → D → Result OauthError A × D) (t : Tables) (d : D) where
  finalized_ok :
      (s : Selected) (y : Result OauthError A × D)
      → is_ok (exchange_finalized db s now (t, d) y).0 ≡ true
      → ((exchange_finalized db s now (t, d) y).0 ≡ y.0)
        × ((exchange_finalized db s now (t, d) y).1 ≡ (consumed_tables s now t, y.1))
  unfolding exchange_finalized
  finalized_ok s (err e, d') o = absurd (ground (arith, o))
  finalized_ok s (ok a, d') o = (ground (arith, o), ground (arith, o))

  selected_ok :
      (x : Option Selected)
      → select_grant spaces h t ≡ x
      → is_ok (exchange_selected db now finalize (t, d) x).0 ≡ true
      → IsSelected spaces h now finalize t d (exchange_selected db now finalize (t, d) x)
  unfolding exchange_selected
  selected_ok none f o = absurd (ground (arith, o))
  selected_ok (some s) f o =
      let fin = finalized_ok s (finalize s.grant d) in
      record {
        selected = s;
        found = f;
        code_open = ground (arith, o);
        request_open = ground (arith, o);
        code_live = ground (arith, o);
        request_live = ground (arith, o);
        finalized = ground (arith, o, fin);
        writes = ground (arith, o, fin);
      }

pub exchange-IsSelected :
    {A D : Type 0} (db : Faults) (spaces : Spaces) (h : Bytes) (now : ℕ)
    (finalize : Grant → D → Result OauthError A × D) (t : Tables) (d : D)
    → is_ok (exchange db spaces h now finalize (t, d)).0 ≡ true
    → IsSelected spaces h now finalize t d (exchange db spaces h now finalize (t, d))
unfolding exchange
exchange-IsSelected db spaces h now finalize t d o = elim (Bool-cases (length h == 32)) [
  | inr e ↦ absurd (ground (arith, o, e))
  | inl e ↦ elim (Bool-cases (db.begin || db.read)) [
    | inl f ↦ absurd (ground (arith, o, e, f))
    | inr f ↦
        rw (e, f)
          (selected_ok db spaces h now finalize t d (select_grant spaces h t) refl
            (ground (arith, o, e, f)))
  ]
]

abbrev pub grant_of : RequestRow → ℕ → ℕ → Grant
grant_of q user space = record {
  authorization = q.authorization;
  user_id = user;
  personal_space_id = space;
}

-- The rows before a successful Exchange, its answer `a.0`, and the tables and the rest after it.
pub record IsExchange {A D : Type 0} (spaces : Spaces) (h : Bytes) (now : ℕ)
    (finalize : Grant → D → Result OauthError A × D) (t : Tables) (d : D)
    (a : Result OauthError A × (Tables × D)) : Type 0 where
  pub code : CodeRow
  pub request : RequestRow
  pub user : ℕ
  pub space : ℕ
  pub code_found : find (λ (x : CodeRow). bytes_eq x.code_hash h) t.codes ≡ some code
  pub request_found :
      find (λ (x : RequestRow). x.authorization.id == code.oauth_request_id) t.requests
      ≡ some request
  pub approved : request.approved_user_id ≡ some user
  pub active : spaces user ≡ some space
  pub code_open : code.consumed_at ≡ none
  pub request_open : request.consumed_at ≡ none
  pub code_live : now < code.expires_at
  pub request_live : now < request.authorization.expires_at
  pub answer : a.0 ≡ (finalize (grant_of request user space) d).0
  pub rest : a.1.1 ≡ (finalize (grant_of request user space) d).1
  pub codes :
      a.1.0.codes
      ≡ update_where (λ x. x.id == code.id) (λ x. record x { consumed_at = some now }) t.codes
  pub requests :
      a.1.0.requests
      ≡ update_where
          (λ x. x.authorization.id == request.authorization.id)
          (λ x. record x { consumed_at = some now })
          t.requests

-- A successful Exchange, under any faults, found a code with this hash whose request a now active
-- user had approved, neither of them consumed or expired; it answers with what `finalize` answers
-- for that grant, writes that both are consumed now and changes no other row, together with what
-- `finalize` wrote.
pub exchange_ok_effect :
    {A D : Type 0} (db : Faults) (spaces : Spaces) (h : Bytes) (now : ℕ)
    (finalize : Grant → D → Result OauthError A × D) (t : Tables) (d : D)
    → is_ok (exchange db spaces h now finalize (t, d)).0 ≡ true
    → IsExchange spaces h now finalize t d (exchange db spaces h now finalize (t, d))
exchange_ok_effect db spaces h now finalize t d o =
    let x = exchange-IsSelected db spaces h now finalize t d o in
    let s = x.selected in
    let (q, code, request, authorization, consumed, approved, active) =
      select_grant-found spaces h t s x.found in
    let same : s.grant ≡ grant_of q s.grant.user_id s.grant.personal_space_id =
      ap
        (λ r. record {
          authorization = r;
          user_id = s.grant.user_id;
          personal_space_id = s.grant.personal_space_id;
        })
        authorization in
    record {
      code = s.code;
      request = q;
      user = s.grant.user_id;
      space = s.grant.personal_space_id;
      code_found = code;
      request_found = request;
      approved = approved;
      active = active;
      code_open = ground (arith, x.code_open);
      request_open = ground (arith, x.request_open, consumed);
      code_live = ground (arith, x.code_live);
      request_live = ground (arith, x.request_live, ap (λ r. r.expires_at) authorization);
      answer = x.finalized ∙ ap (λ g. (finalize g d).0) same;
      rest = ap (λ y. y.1) x.writes ∙ ap (λ g. (finalize g d).1) same;
      codes = ap (λ y. y.0.codes) x.writes;
      requests =
          ap (λ y. y.0.requests) x.writes
          ∙ ap (λ r. update_where (is_request r.id) (consume_request now) t.requests) authorization;
    }

module _ {A D : Type 0} (db : Faults) (now : ℕ) (finalize : Grant → D → Result OauthError A × D)
    (t : Tables) (d : D) where
  finalized_err :
      (s : Selected) (y : Result OauthError A × D)
      → db.commit ≡ committed
      → is_ok (exchange_finalized db s now (t, d) y).0 ≡ false
      → (exchange_finalized db s now (t, d) y).1 ≡ (t, d)
  unfolding exchange_finalized
  finalized_err s (err e, d') c o = refl
  finalized_err s (ok a, d') c o = ground (arith, c, o)

  selected_err :
      (x : Option Selected)
      → db.commit ≡ committed
      → is_ok (exchange_selected db now finalize (t, d) x).0 ≡ false
      → (exchange_selected db now finalize (t, d) x).1 ≡ (t, d)
  unfolding exchange_selected
  selected_err none c o = refl
  selected_err (some s) c o = ground (arith, o, finalized_err s (finalize s.grant d) c)

-- An Exchange that fails, its commit working, writes nothing, also nothing of what `finalize`
-- wrote: the code is not used up.
pub exchange_rolls_back :
    {A D : Type 0} (db : Faults) (spaces : Spaces) (h : Bytes) (now : ℕ)
    (finalize : Grant → D → Result OauthError A × D) (t : Tables) (d : D)
    → db.commit ≡ committed
    → is_ok (exchange db spaces h now finalize (t, d)).0 ≡ false
    → (exchange db spaces h now finalize (t, d)).1 ≡ (t, d)
unfolding exchange
exchange_rolls_back db spaces h now finalize t d c o =
    ground (arith, o, selected_err db now finalize t d (select_grant spaces h t) c)

-- One transaction on the two tables, by whoever makes it, under any faults.
pub data Step (t : Tables) : Tables → Type 1 where
  saves :
      (db : Faults) (parse_url : Text → Option Url) (r : AuthorizationRecord)
      → Step t (save db parse_url r t).1
  approves : (db : Faults) (spaces : Spaces) (a : ApprovalRecord) → Step t (approve db spaces a t).1
  exchanges :
      {A D : Type 0} (db : Faults) (spaces : Spaces) (h : Bytes) (now : ℕ)
      (finalize : Grant → D → Result OauthError A × D) (d : D)
      → Step t (exchange db spaces h now finalize (t, d)).1.0

pub data Steps (t : Tables) : Tables → Type 1 where
  here : Steps t t
  next : {u v : Tables} → Steps t u → Step u v → Steps t v

Step-IsSpent : (h : Bytes) {t u : Tables} → Step t u → IsSpent h t → IsSpent h u
Step-IsSpent h {t} (saves db parse_url r) s = save-IsSpent h db parse_url r t s
Step-IsSpent h {t} (approves db spaces a) s = approve-IsSpent h db spaces a t s
Step-IsSpent h {t} (exchanges db spaces k now finalize d) s =
    exchange-IsSpent h db now t d k spaces finalize s

Steps-IsSpent : (h : Bytes) {t u : Tables} → Steps t u → IsSpent h t → IsSpent h u
Steps-IsSpent h here s = s
Steps-IsSpent h (next path step) s = Step-IsSpent h step (Steps-IsSpent h path s)

exchange_ok-IsSpent :
    {A D : Type 0} (db : Faults) (spaces : Spaces) (h : Bytes) (now : ℕ)
    (finalize : Grant → D → Result OauthError A × D) (t : Tables) (d : D)
    → is_ok (exchange db spaces h now finalize (t, d)).0 ≡ true
    → IsSpent h (exchange db spaces h now finalize (t, d)).1.0
exchange_ok-IsSpent db spaces h now finalize t d o =
    let x = exchange-IsSelected db spaces h now finalize t d o in
    let f = (select_grant-found spaces h t x.selected (x.found)).1 in
    let u =
      find-update (has_code_hash h) (is_code x.selected.code.id) (consume_code now) (λ _. refl)
        t.codes x.selected.code f in
    rw (x.writes) (ground (arith, u))

-- An authorization code is exchanged once: after a successful Exchange no Exchange of the same
-- hash succeeds, whatever transactions ran in between, at whatever time and under any faults.
pub exchange_once :
    {A B D E : Type 0} (db db' : Faults) (spaces spaces' : Spaces) (h : Bytes) (now now' : ℕ)
    (finalize : Grant → D → Result OauthError A × D)
    (finalize' : Grant → E → Result OauthError B × E) (t u : Tables) (d : D) (e : E)
    → is_ok (exchange db spaces h now finalize (t, d)).0 ≡ true
    → Steps (exchange db spaces h now finalize (t, d)).1.0 u
    → is_ok (exchange db' spaces' h now' finalize' (u, e)).0 ≡ false
exchange_once db db' spaces spaces' h now now' finalize finalize' t u d e o path =
    spent_refused db' spaces' h now' finalize' u e
      (Steps-IsSpent h path (exchange_ok-IsSpent db spaces h now finalize t d o))
