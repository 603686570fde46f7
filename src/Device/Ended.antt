-- ===== src/Device/Ended.antt =====
-- What no later transaction undoes: an ended session, a nonce that was used, the identity of an
-- installation (internal/device/repository.go with internal/session/repository.go).
use aera_cloud.Prelude.{
  ℕ, ◌≡◌, refl, ap, Bool, true, false, ◌&&◌, not, [], ◌∷◌, String, Bytes, arith, inl, inr, any,
  find, update_where, is_some, any-update, any-or, Bool-cases, Option-cases, ◌==◌, ltb,
}
use aera_cloud.Postgres.{Faults as SessionFaults}
use aera_cloud.Session.Table.{
  Session, Rows, Directory, in_family, has_hash, has_id as has_session_id, insert_conflicts,
  revoke as revoke_session, revoke_replayed, replace,
}
use aera_cloud.Session.Repository.{
  CreateRecord, SuccessorRecord, Source, AccessBinding, created_row, successor_row, create_session,
  is_seen_in, select_source, rotate_source, rotate_selected, rotate, revoke_family, revoke_selected,
  revoke_by_token, access_row_active,
}

-- The session id is taken, and no row of it on the device is unrevoked.
abbrev pub IsEnded : ℕ → ℕ → Rows → Type 0
IsEnded i device rows =
    (any (has_session_id i) rows ≡ true)
    × (any (λ s. has_session_id i s && s.device_id == device && not (is_some s.revoked_at)) rows
        ≡ false)

module _ (i device : ℕ) where
  abbrev is_open : Session → Bool
  is_open s = has_session_id i s && s.device_id == device && not (is_some s.revoked_at)

  any-update_le :
      (p : Session → Bool) (f : Session → Session)
      → ((s : Session) → is_open s ≡ false → is_open (f s) ≡ false)
      → (rows : Rows) → any is_open rows ≡ false
      → any is_open (update_where p f rows) ≡ false
  any-update_le p f keep [] h = refl
  any-update_le p f keep (s ∷ rows) h = ground (arith, h, keep s, any-update_le p f keep rows)

  -- A write that ends what it finds open leaves nothing open.
  ended-any :
      (p : Session → Bool) (f : Session → Session)
      → ((s : Session) → p s ≡ true → is_open (f s) ≡ false)
      → ((s : Session) → p s ≡ false → is_open s ≡ false)
      → (rows : Rows) → any is_open (update_where p f rows) ≡ false
  ended-any p f ends left [] = refl
  ended-any p f ends left (s ∷ rows) = elim (Bool-cases (p s)) [
    | inl hit ↦ ground (arith, hit, ends s hit, ended-any p f ends left rows)
    | inr miss ↦ ground (arith, miss, left s miss, ended-any p f ends left rows)
  ]

  pub IsEnded-all :
      (p : Session → Bool) (f : Session → Session)
      → ((s : Session) → (f s).id ≡ s.id)
      → ((s : Session) → p s ≡ true → is_open (f s) ≡ false)
      → ((s : Session) → p s ≡ false → is_open s ≡ false)
      → (rows : Rows) → any (has_session_id i) rows ≡ true
      → IsEnded i device (update_where p f rows)
  IsEnded-all p f key ends left rows there = (
    rw (any-update (has_session_id i) p f (λ s. ap (λ k. k == i) (key s)) rows) there,
    ended-any p f ends left rows,
  )

  pub IsEnded-update :
      (p : Session → Bool) (f : Session → Session)
      → ((s : Session) → (f s).id ≡ s.id)
      → ((s : Session) → is_open s ≡ false → is_open (f s) ≡ false)
      → (rows : Rows) → IsEnded i device rows
      → IsEnded i device (update_where p f rows)
  IsEnded-update p f key keep rows h = (
    rw (any-update (has_session_id i) p f (λ s. ap (λ k. k == i) (key s)) rows) h.0,
    any-update_le p f keep rows h.1,
  )

  IsEnded-insert :
      (s : Session) (rows : Rows)
      → insert_conflicts s rows ≡ false
      → IsEnded i device rows
      → IsEnded i device (s ∷ rows)
  unfolding insert_conflicts
  IsEnded-insert s rows free h = elim (Bool-cases (has_session_id i s)) [
    | inl clash ↦
        let same : s.id ≡ i = ground (arith, clash) in
        let taken = (any-or (has_session_id s.id) (has_hash s.refresh_token_hash) rows free).0 in
        absurd (cc (h.0, rw same at taken))
    | inr other ↦ ground (arith, other, h)
  ]

  module _ (p : Session → Bool) (now : ℕ) (rows : Rows) (h : IsEnded i device rows) where
    pub IsEnded-revoke :
        (reason : String) → IsEnded i device (update_where p (revoke_session now reason) rows)
    unfolding revoke_session
    IsEnded-revoke reason =
        IsEnded-update p (revoke_session now reason) (λ s. refl) (λ s e. ground (arith, e)) rows h

    IsEnded-revoke_replayed :
        (source : ℕ) → IsEnded i device (update_where p (revoke_replayed now source) rows)
    unfolding revoke_replayed
    IsEnded-revoke_replayed source =
        IsEnded-update p (revoke_replayed now source) (λ s. refl) (λ s e. ground (arith, e)) rows h

    IsEnded-replace : IsEnded i device (update_where p (replace now) rows)
    unfolding replace
    IsEnded-replace = IsEnded-update p (replace now) (λ s. refl) (λ s e. ground (arith, e)) rows h

  module _ (db : SessionFaults) (rows : Rows) (h : IsEnded i device rows) where
    abbrev Kept {ℓ} : {A : Type ℓ} → A × Rows → Type 0
    Kept o = IsEnded i device o.1

    pub create_session-IsEnded :
        (dir : Directory) (c : CreateRecord) → IsEnded i device (create_session db dir c rows).1
    unfolding create_session
    create_session-IsEnded dir c = ground (arith, IsEnded-insert (created_row c) rows, h)

    rotate_source-IsEnded :
        (src : Source) (n : SuccessorRecord) (now : ℕ)
        → IsEnded i device (rotate_source db src n now rows).1
    unfolding rotate_source
    rotate_source-IsEnded src n now =
        let s = src.session in
        ground (
          arith,
          h,
          IsEnded-revoke_replayed (is_seen_in db s.family_id) now rows h s.id,
          IsEnded-revoke (is_seen_in db s.family_id) now rows h "session_invalid",
          IsEnded-insert (successor_row s n) rows,
          IsEnded-replace (has_session_id s.id) now (successor_row s n ∷ rows),
        )

    pub rotate-IsEnded :
        (dir : Directory) (k : Bytes) (n : SuccessorRecord) (now : ℕ)
        → IsEnded i device (rotate db dir k n now rows).1
    unfolding rotate rotate_selected
    rotate-IsEnded dir k n now = elim (Option-cases (select_source dir k rows)) [
      | inl e ↦ ground (arith, e, h)
      | inr (src, e) ↦ ground (arith, e, h, rotate_source-IsEnded src n now)
    ]

    pub revoke_family-IsEnded :
        (family : ℕ) (reason : String) (now : ℕ)
        → IsEnded i device (revoke_family db family reason now rows).1
    unfolding revoke_family
    revoke_family-IsEnded family reason now =
        ground (arith, h, IsEnded-revoke (in_family family) now rows h reason)

    pub revoke_by_token-IsEnded :
        (k : Bytes) (now : ℕ) → IsEnded i device (revoke_by_token db k now rows).1
    unfolding revoke_by_token revoke_selected
    revoke_by_token-IsEnded k now = elim (Option-cases (find (has_hash k) rows)) [
      | inl e ↦ ground (arith, e, h)
      | inr (s, e) ↦
          ground (arith, e, h, IsEnded-revoke (is_seen_in db s.family_id) now rows h "user_logout")
    ]

-- An ended session does not pass AccessActive.
pub IsEnded-refused :
    (dir : Directory) (rows : Rows) (b : AccessBinding) (now : ℕ)
    → IsEnded b.session_id b.device_id rows
    → access_row_active dir rows b now ≡ false
unfolding access_row_active
IsEnded-refused dir rows b now h = ground (arith, no_row rows h.1)
  where
    no_row :
        (rows : Rows)
        → any
            (λ s.
              has_session_id b.session_id s
              && s.device_id == b.device_id
              && not (is_some s.revoked_at))
            rows
          ≡ false
        → any
            (λ s.
              has_session_id b.session_id s
              && s.user_id == b.user_id
              && s.device_id == b.device_id
              && not (is_some s.revoked_at)
              && ltb now s.expires_at)
            rows
          ≡ false
    no_row [] e = refl
    no_row (s ∷ rows) e = ground (arith, e, no_row rows)
