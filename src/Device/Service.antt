-- ===== src/Device/Service.antt =====
-- internal/device/service.go. The random draws and the clock are arguments; the cryptography and
-- the text of a UUID are parameters.
pub mod Signed
use aera_cloud.Prelude.{
  ℕ, zero, suc, ◌+◌, ◌-◌, ◌*◌, ◌/◌, ◌%◌, Bool, ◌&&◌, ◌||◌, not, Option, none, some, List, [], ◌∷◌,
  ◌++◌, Text, codes, Bytes, length, Result, ok, err, ◌==◌, ltb, if◌then◌else◌,
}
use aera_cloud.Session.Table.{device_is_active}
use aera_cloud.Device.Model.{
  DeviceError, invalid_device, unavailable, Device, PublicDevice, SelfRevokeCommand,
  SelfRevocationRecord, AuthorizeCommand, AuthorizationRecord, clean_display_name, valid_platform,
  valid_version,
}
use aera_cloud.Device.Table.{World, Accounts, Faults}
use aera_cloud.Device.Repository
use aera_cloud.Device.Repository.{authorize_in_tx, find_for_self_revoke}

pub record Service : Type 0 where
  pub active_limit : ℕ
  pub sha256 : Bytes → Bytes
  pub verify : Bytes → Bytes → Bytes → Bool
  pub uuid_text : ℕ → Bytes

-- secure.RandomUUID twice, and the clock.
pub record Draws : Type 0 where
  pub device_id : Option ℕ
  pub audit_event_id : Option ℕ
  pub now : ℕ

-- The check of NewService.
unfoldable pub valid_config : ℕ → Bool
valid_config active_limit = not (active_limit == 0) && not (ltb 20 active_limit)

unfoldable pub record_drawn :
    AuthorizeCommand → Text → ℕ → Option ℕ → Option ℕ → Result DeviceError AuthorizationRecord
record_drawn c name now none audit = err unavailable
record_drawn c name now (some device_id) none = err unavailable
record_drawn c name now (some device_id) (some audit) = ok (record {
  device_id = device_id;
  audit_event_id = audit;
  user_id = c.user_id;
  installation_id = c.installation_id;
  public_key = c.public_key;
  display_name = name;
  platform = c.platform;
  app_version = c.app_version;
  authorized_at = now;
})

unfoldable pub record_named :
    AuthorizeCommand → Draws → Option Text → Result DeviceError AuthorizationRecord
record_named c draws none = err invalid_device
record_named c draws (some name) =
    if c.user_id == 0
      || c.installation_id == 0
      || not (length c.public_key == 32)
      || not (valid_platform c.platform)
      || not (valid_version c.app_version)
    then err invalid_device
    else record_drawn c name draws.now draws.device_id draws.audit_event_id

unfoldable pub authorization_record :
    AuthorizeCommand → Draws → Result DeviceError AuthorizationRecord
authorization_record c draws = record_named c draws (clean_display_name c.display_name)

abbrev pub recorded :
    (AuthorizationRecord → World → Result DeviceError Device × World)
    → World
    → Result DeviceError AuthorizationRecord
    → Result DeviceError Device × World
recorded run w (err e) = (err e, w)
recorded run w (ok r) = run r w

unfoldable pub authorize :
    Service
    → Faults
    → Accounts
    → Draws
    → AuthorizeCommand
    → World
    → Result DeviceError Device × World
authorize s db a draws c w =
    recorded (λ r. Repository.authorize db a r s.active_limit) w (authorization_record c draws)

-- AuthorizeInTx.
unfoldable pub authorize_command :
    Service
    → Faults
    → Accounts
    → Draws
    → AuthorizeCommand
    → World
    → Result DeviceError Device × World
authorize_command s db a draws c w =
    recorded (λ r. authorize_in_tx db a r s.active_limit) w (authorization_record c draws)

unfoldable pub revoke :
    Faults → Accounts → Draws → ℕ → ℕ → World → Result DeviceError (Unit {0}) × World
revoke db a draws user device w =
    if user == 0 || device == 0 then (err invalid_device, w) else drawn draws.audit_event_id
  where
    drawn : Option ℕ → Result DeviceError (Unit {0}) × World
    drawn none = (err unavailable, w)
    drawn (some audit) = Repository.revoke db a user device audit draws.now w

unfoldable pub public_devices : ℕ → List Device → List PublicDevice
public_devices current [] = []
public_devices current (d ∷ ds) =
    let rest = public_devices current ds in
    if not (device_is_active d.status)
    then rest
    else record {
      id = d.id;
      display_name = d.display_name;
      platform = d.platform;
      app_version = d.app_version;
      status = d.status;
      last_seen_at = d.last_seen_at;
      current = d.id == current;
    }
      ∷ rest

abbrev listed : ℕ → Result DeviceError (List Device) → Result DeviceError (List PublicDevice)
listed current (err e) = err e
listed current (ok ds) = ok (public_devices current ds)

unfoldable pub list : Faults → Accounts → ℕ → ℕ → World → Result DeviceError (List PublicDevice)
list db a user current w =
    if user == 0 then err invalid_device else listed current (Repository.list db a user w)

abbrev decimal_digit : ℕ → ℕ
decimal_digit n = n % 10 + b'0'

put_decimal : ℕ → ℕ → Text → Text
put_decimal zero n rest = rest
put_decimal (suc fuel) n rest =
    let more = put_decimal fuel (n / 10) (decimal_digit n ∷ rest) in
    if ltb n 10 then decimal_digit n ∷ rest else more

-- strconv.FormatInt of an int64 that is not negative: at most 19 digits.
unfoldable pub decimal : ℕ → Text
unfolding put_decimal
decimal n = put_decimal 19 n []

unfoldable pub self_revoke_digest : Service → SelfRevokeCommand → Bytes
self_revoke_digest s c = s.sha256 (
    codes "agentera-self-revoke"
    ++ (0 ∷ s.uuid_text c.device_id
        ++ (0 ∷ s.uuid_text c.installation_id ++ (0 ∷ decimal c.timestamp ++ (0 ∷ c.nonce)))))

unfoldable pub nonce_hash : Service → Bytes → Bytes
nonce_hash s nonce = s.sha256 (codes "agentera-self-revoke-nonce.v1" ++ (0 ∷ nonce))

-- delta < -2*time.Minute || delta > 2*time.Minute, where `timestamp` is in seconds.
unfoldable pub is_stale : ℕ → ℕ → Bool
is_stale now timestamp = ltb 120000 (timestamp * 1000 - now) || ltb 120000 (now - timestamp * 1000)

unfoldable pub is_signed : Service → SelfRevokeCommand → Device → Bool
is_signed s c d =
    d.id == c.device_id
    && d.installation_id == c.installation_id
    && length d.public_key == 32
    && s.verify d.public_key (self_revoke_digest s c) c.signature

unfoldable pub self_revocation : Service → SelfRevokeCommand → ℕ → Device → ℕ → SelfRevocationRecord
self_revocation s c now d audit = record {
  user_id = d.user_id;
  device_id = d.id;
  installation_id = d.installation_id;
  nonce_hash = nonce_hash s c.nonce;
  audit_event_id = audit;
  revoked_at = now;
}

unfoldable pub self_revoke_drawn :
    Service
    → Faults
    → SelfRevokeCommand
    → ℕ
    → Device
    → World
    → Option ℕ
    → Result DeviceError (Unit {0}) × World
self_revoke_drawn s db c now d w none = (err unavailable, w)
self_revoke_drawn s db c now d w (some audit) =
    Repository.self_revoke db (self_revocation s c now d audit) w

unfoldable pub self_revoke_selected :
    Service
    → Faults
    → Draws
    → SelfRevokeCommand
    → World
    → Result DeviceError Device
    → Result DeviceError (Unit {0}) × World
unfolding self_revoke_drawn
self_revoke_selected s db draws c w (err e) = (err e, w)
self_revoke_selected s db draws c w (ok d) =
    if not (is_signed s c d)
    then (err invalid_device, w)
    else self_revoke_drawn s db c draws.now d w draws.audit_event_id

-- SelfRevoke; `read` are the faults of FindForSelfRevoke.
unfoldable pub self_revoke :
    Service
    → Faults
    → Faults
    → Draws
    → SelfRevokeCommand
    → World
    → Result DeviceError (Unit {0}) × World
unfolding self_revoke_selected
self_revoke s read db draws c w =
    if c.device_id == 0
      || c.installation_id == 0
      || c.timestamp == 0
      || not (length c.nonce == 32)
      || not (length c.signature == 64)
    then (err invalid_device, w)
    else if is_stale draws.now c.timestamp
    then (err invalid_device, w)
    else self_revoke_selected s db draws c w (find_for_self_revoke read c.device_id w)
