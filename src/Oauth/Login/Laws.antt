-- ===== src/Oauth/Login/Laws.antt =====
-- A login: what Exchange leaves behind, with the devices and the sessions of the repository.
use aera_cloud.Prelude.{
  ℕ, ◌≡◌, refl, sym, subst, ap, true, ◌||◌, not, Option, ◌∙◌, none, some, ◌∷◌, Bytes, arith, is_ok,
  Result, ok, err, ◌==◌, if-cases, utf8, length,
}
use aera_cloud.Postgres.{Faults}
use aera_cloud.Secure.Base64.{decode_canonical}
use aera_cloud.Session.Table.{Binding, Error as SessionError, Rows}
use aera_cloud.Session.Service.{TokenSet, start_in_tx}
use aera_cloud.Device.Model.{Device, DeviceError, AuthorizeCommand, AuthorizationRecord}
use aera_cloud.Device.Table.{World, directory}
use aera_cloud.Device.Repository.{authorize_in_tx}
use aera_cloud.Device.Repository.Cases.{Authorized, Change, authorize_in_tx-Authorized}
use aera_cloud.Prelude.{IsKeyed}
use aera_cloud.Device.Table.{device_key}
use aera_cloud.Device.Service.{authorize_command, recorded, authorization_record}
use aera_cloud.Device.Capacity.{IsWithin, Change-IsWithin}
use aera_cloud.Device.Sound.{IsSound, Change-IsSound}
use aera_cloud.Device.Bound.{AllBound, IsBound}
use aera_cloud.Device.Trace.{with_sessions}
use aera_cloud.Oauth.Model.{ExchangeRequest, Grant, OauthError}
use aera_cloud.Oauth.Platform.{Service, authorization_code_hash}
use aera_cloud.Oauth.Repository.{exchange, Tables, Spaces, Selected, select_grant}
use aera_cloud.Oauth.Repository.Exchanged.{exchange-IsSelected}
use aera_cloud.Oauth.Service.{
  is_proven, finalize, authorized, started, exchange_request, exchange_decoded,
}
use aera_cloud.Oauth.Login.{Parts, login_service, IsLoggedIn, device_answer, world_answer}
use aera_cloud.Oauth.Login.Opened.{recorded_fields, Authorized-stored, start_in_tx-IsStarted}

module _ (p : Parts) (g : Grant) (w : World) (keyed : IsKeyed device_key w.devices) where
  abbrev binding_for : ℕ → Binding
  binding_for device = record {
    user_id = g.user_id;
    device_id = device;
    installation_id = g.authorization.installation_id;
    personal_space_id = g.personal_space_id;
  }

  started-IsLoggedIn :
      (c : AuthorizeCommand) (r : AuthorizationRecord) (d : Device) (v : World)
      → (r.user_id ≡ g.user_id)
        × (r.installation_id ≡ g.authorization.installation_id)
        × (r.public_key ≡ g.authorization.device_public_key)
      → Authorized p.accounts r p.devices.active_limit w (ok d, v)
      → is_ok
          (start_in_tx p.sessions p.session_faults
            (directory p.accounts v.devices)
            p.session_draws
            (binding_for d.id)
            v.sessions).0
        ≡ true
      → IsLoggedIn p g w (
          with_sessions v
            (start_in_tx p.sessions p.session_faults
              (directory p.accounts v.devices)
              p.session_draws
              (binding_for d.id)
              v.sessions).1)
  started-IsLoggedIn c r d v (user, installation, key) auth o =
      let (there, own, on, at, pk, same, change) = Authorized-stored _ r _ w d v keyed auth in
      let (x, opened, xu, xd, unrevoked) =
        start_in_tx-IsStarted p.sessions p.session_faults (directory p.accounts v.devices)
          p.session_draws (binding_for d.id) v.sessions o in
      record {
        device = d;
        session = x;
        stored = there;
        owner = own ∙ user;
        status = on;
        installation = at ∙ installation;
        key = pk ∙ key;
        opened = opened ∙ ap (λ rows. x ∷ rows) same;
        session_user = xu;
        session_device = xd;
        unrevoked = unrevoked;
        change = (v, change, same, refl);
      }

  abbrev s : Service World TokenSet
  s = login_service p

  started-answer :
      (v : World) (z : Result SessionError TokenSet × Rows)
      → (is_ok z.0 ≡ true → IsLoggedIn p g w (with_sessions v z.1))
      → is_ok (started s (world_answer v z)).0 ≡ true
      → IsLoggedIn p g w (started s (world_answer v z)).1
  unfolding started world_answer
  started-answer v (err e, rows) h o = absurd (cc o)
  started-answer v (ok tokens, rows) h o = h refl

  authorized-answer :
      (c : AuthorizeCommand) (r : AuthorizationRecord) (y : Result DeviceError Device × World)
      → (r.user_id ≡ g.user_id)
        × (r.installation_id ≡ g.authorization.installation_id)
        × (r.public_key ≡ g.authorization.device_public_key)
      → Authorized p.accounts r p.devices.active_limit w y
      → is_ok (authorized s g (device_answer y)).0 ≡ true
      → IsLoggedIn p g w (authorized s g (device_answer y)).1
  unfolding authorized device_answer login_service
  authorized-answer c r (err e, v) fields auth o = absurd (cc o)
  authorized-answer c r (ok d, v) fields auth o =
      started-answer v
        (start_in_tx p.sessions p.session_faults (directory p.accounts v.devices) p.session_draws
          (binding_for d.id) v.sessions)
        (started-IsLoggedIn c r d v fields auth) o

  abbrev command_answer :
      AuthorizeCommand → Result DeviceError AuthorizationRecord → Result DeviceError Device × World
  command_answer c x =
      recorded (λ r. authorize_in_tx p.device_faults p.accounts r p.devices.active_limit) w x

  recorded-answer :
      (c : AuthorizeCommand) (x : Result DeviceError AuthorizationRecord)
      → authorization_record c p.device_draws ≡ x
      → c.user_id ≡ g.user_id
      → c.installation_id ≡ g.authorization.installation_id
      → c.public_key ≡ g.authorization.device_public_key
      → is_ok (authorized s g (device_answer (command_answer c x))).0 ≡ true
      → IsLoggedIn p g w (authorized s g (device_answer (command_answer c x))).1
  recorded-answer c (err e) eq user installation key o =
      absurd (unfold authorized device_answer in cc o)
  recorded-answer c (ok r) eq user installation key o =
      let (ru, ri, rk) = recorded_fields c p.device_draws r eq in
      authorized-answer c r _ (ru ∙ user, ri ∙ installation, rk ∙ key)
        (authorize_in_tx-Authorized p.device_faults p.accounts r p.devices.active_limit w) o

  finalize-IsLoggedIn :
      (r : ExchangeRequest)
      → is_ok (finalize s r g w).0 ≡ true
      → IsLoggedIn p g w (finalize s r g w).1
  unfolding finalize login_service authorize_command
  finalize-IsLoggedIn r =
      if-cases (λ (o : Result OauthError TokenSet × World). is_ok o.0 ≡ true → IsLoggedIn p g w o.1)
        (not (is_proven s r g.authorization)) (λ _ o. absurd (cc o))
        (λ _ o. recorded-answer _ _ refl refl refl refl o)

-- A login keeps what every transaction on devices and sessions keeps.
IsLoggedIn-IsSound :
    (p : Parts) (g : Grant) (w v : World) → IsLoggedIn p g w v → IsSound w → IsSound v
IsLoggedIn-IsSound p g w v l h = go l.change
  where
    first : IsBound v.devices l.session
    first free = rw (l.session_user, l.session_device, l.stored) (ground (arith, l.owner, l.status))

    go :
        (u : World) × Change p.accounts p.devices.active_limit w u
          × (u.sessions ≡ w.sessions)
          × (v ≡ with_sessions u v.sessions)
        → IsSound v
    go (u, change, same, e) =
        let hu = Change-IsSound change h in
        let devices : v.devices ≡ u.devices = ap (λ x. x.devices) e in
        record {
          keyed = rw devices (hu.keyed);
          bound = rw (l.opened) (
            first,
            subst (λ ds. AllBound ds w.sessions) (sym devices)
                (subst (AllBound u.devices) same hu.bound),
          );
        }

IsLoggedIn-IsWithin :
    (p : Parts) (g : Grant) (w v : World)
    → IsLoggedIn p g w v
    → IsWithin p.devices.active_limit w
    → IsWithin p.devices.active_limit v
IsLoggedIn-IsWithin p g w v l h = go l.change
  where
    go :
        (u : World) × Change p.accounts p.devices.active_limit w u
          × (u.sessions ≡ w.sessions)
          × (v ≡ with_sessions u v.sessions)
        → IsWithin p.devices.active_limit v
    go (u, change, same, e) =
        let hu = Change-IsWithin change h in
        let devices : v.devices ≡ u.devices = ap (λ x. x.devices) e in
        record { keyed = rw devices (hu.keyed); within = λ user. rw devices (hu.within user) }

decoded-IsLoggedIn :
    (p : Parts) (db : Faults) (spaces : Spaces) (now : ℕ) (r : ExchangeRequest) (t : Tables)
    (w : World) (x : Option Bytes)
    → IsKeyed device_key w.devices
    → is_ok (exchange_decoded (login_service p) db spaces now r (t, w) x).0 ≡ true
    → (secret : Bytes) × (g : Selected) × (x ≡ some secret)
      × (select_grant spaces (authorization_code_hash p.platform secret) t ≡ some g)
      × IsLoggedIn p g.grant w (exchange_decoded (login_service p) db spaces now r (t, w) x).1.1
unfolding exchange_decoded exchange authorization_code_hash login_service
decoded-IsLoggedIn p db spaces now r t w none k = λ o. absurd (cc o)
decoded-IsLoggedIn p db spaces now r t w (some secret) k =
    if-cases Done (not (length secret == 32) || r.installation_id == 0) (λ _ o. absurd (cc o))
      (λ _ o.
        let x = exchange-IsSelected db spaces h now f t w o in
        let done = finalize-IsLoggedIn p x.selected.grant w k r (rw (x.finalized) at o) in
        (
          secret,
          x.selected,
          refl,
          x.found,
          subst (IsLoggedIn p x.selected.grant w) (sym (ap (λ td. td.1) x.writes)) done,
        ))
  where
    f : Grant → World → Result OauthError TokenSet × World
    f = finalize (login_service p) r

    h : Bytes
    h = authorization_code_hash p.platform secret

    Done : Result OauthError TokenSet × (Tables × World) → Type 0
    Done o =
        is_ok o.0 ≡ true
        → (secret' : Bytes) × (g : Selected) × (some secret ≡ some secret')
          × (select_grant spaces (authorization_code_hash p.platform secret') t ≡ some g)
          × IsLoggedIn p g.grant w o.1.1

-- With the devices and the sessions of the repository behind it, an Exchange that answers ok logs
-- its caller in: the code is that of an approved request, and the world then has the device of the
-- request (its installation, its key), active and owned by the user who approved, and in front a
-- new session of that user on that device that is not revoked. It keeps the limit of active devices
-- and leaves every unrevoked session on an unrevoked device of its user, if that was so before.
pub login_opens :
    (p : Parts) (db : Faults) (spaces : Spaces) (now : ℕ) (r : ExchangeRequest) (t : Tables)
    (w : World)
    → IsSound w
    → IsWithin p.devices.active_limit w
    → is_ok (exchange_request (login_service p) db spaces now r (t, w)).0 ≡ true
    → let v = (exchange_request (login_service p) db spaces now r (t, w)).1.1 in
      (secret : Bytes) × (g : Selected) × (decode_canonical (utf8 r.authorization_code)
        ≡ some secret)
      × (select_grant spaces (authorization_code_hash p.platform secret) t ≡ some g)
      × IsLoggedIn p g.grant w v
      × IsSound v
      × IsWithin p.devices.active_limit v
unfolding exchange_request
login_opens p db spaces now r t w sound within o =
    let (secret, g, decoded, found, l) = decoded-IsLoggedIn p db spaces now r t w _ sound.keyed o in
    (
      secret,
      g,
      decoded,
      found,
      l,
      IsLoggedIn-IsSound p g.grant w _ l sound,
      IsLoggedIn-IsWithin p g.grant w _ l within,
    )
