-- ===== src/Desktop/Service.antt =====
-- internal/desktopcontrol/service.go. SHA-256, the random id and the clocks are arguments; `now` is
-- the repository's clock.
use aera_cloud.Prelude.{
  ℕ, Bool, false, ◌&&◌, ◌||◌, not, Option, List, [], ◌∷◌, Text, utf8, Bytes, length, any, map,
  Result, ok, err, ◌==◌, leb, if◌then◌else◌,
}
use aera_cloud.Session.Table.{Directory}
use aera_cloud.Desktop.Model.{
  DesktopError, invalid_input, rate_limited, unavailable, DevicePrincipal, Heartbeat, AdminActor,
  Instance, EffectiveStatus, effective_status, Command, CommandResult, QueueHealthCheckCommand,
  valid_principal, valid_heartbeat, valid_result, valid_queue,
}
use aera_cloud.Desktop.Table.{Tables, Faults}
use aera_cloud.Desktop.Repository
use aera_cloud.Desktop.Repository.{accept_heartbeat, claim_next_command}
use aera_cloud.Desktop.Advance
use aera_cloud.Desktop.Advance.{advance_command}
use aera_cloud.Desktop.Listing
use aera_cloud.Desktop.Listing.{InstanceFilter, InstancePage}

-- An instance with its EffectiveStatusValue.
pub record Decorated : Type 0 where
  pub instance : Instance
  pub effective_status_value : EffectiveStatus

pub record HeartbeatReceipt : Type 0 where
  pub instance : Decorated
  pub accepted_at : ℕ
  pub next_heartbeat_seconds : ℕ
  pub command : Option Command
  pub server_time : ℕ

pub record DecoratedPage : Type 0 where
  pub items : List Decorated
  pub total : ℕ
  pub server_time : ℕ

-- serviceError.
abbrev service_error : DesktopError → DesktopError
service_error rate_limited = unavailable
service_error e = e

abbrev answered {ℓ} : {A : Type ℓ} → Result DesktopError A × Tables → Result DesktopError A × Tables
answered (err e, t) = (err (service_error e), t)
answered (ok a, t) = (ok a, t)

abbrev pub decorate : ℕ → Instance → Decorated
decorate clock i = record { instance = i; effective_status_value = effective_status clock i }

receipt :
    ℕ
    → Instance
    → Result DesktopError (Option Command) × Tables
    → Result DesktopError HeartbeatReceipt × Tables
receipt clock i (err e, t) = (err (service_error e), t)
receipt clock i (ok c, t) = (
  ok (record {
    instance = decorate clock i;
    accepted_at = clock;
    next_heartbeat_seconds = 60;
    command = c;
    server_time = clock;
  }),
  t,
)

heartbeat_accepted :
    Faults
    → Directory
    → ℕ
    → ℕ
    → DevicePrincipal
    → Result DesktopError Instance × Tables
    → Result DesktopError HeartbeatReceipt × Tables
unfolding receipt
heartbeat_accepted db dir clock now p (err e, t) = (err (service_error e), t)
heartbeat_accepted db dir clock now p (ok i, t) =
    if not (i.row.device_id == p.device_id) || not (i.row.user_id == p.user_id)
    then (err unavailable, t)
    else receipt clock i (claim_next_command db dir now p t)

-- Heartbeat; `db` and `later` are the faults of its two transactions.
unfoldable pub heartbeat :
    Faults
    → Faults
    → Directory
    → ℕ
    → ℕ
    → ℕ
    → DevicePrincipal
    → Heartbeat
    → Tables
    → Result DesktopError HeartbeatReceipt × Tables
unfolding heartbeat_accepted
heartbeat db later dir clock now then_now p h t =
    if not (valid_principal p) || not (valid_heartbeat h)
    then (err invalid_input, t)
    else heartbeat_accepted later dir clock then_now p (accept_heartbeat db dir now p h t)

unfoldable pub submit_result :
    Faults
    → Directory
    → ℕ
    → DevicePrincipal
    → ℕ
    → CommandResult
    → Tables
    → Result DesktopError (Command × Bool) × Tables
submit_result db dir now p id r t =
    if not (valid_principal p) || id == 0
    then (err invalid_input, t)
    else if not (valid_result r)
    then (err invalid_input, t)
    else answered (advance_command db dir now p id r t)

abbrev decorate_page : ℕ → InstancePage → DecoratedPage
decorate_page clock page = record {
  items = map (decorate clock) page.items;
  total = page.total;
  server_time = clock;
}

abbrev pub decorated_page : ℕ → Result DesktopError InstancePage → Result DesktopError DecoratedPage
decorated_page clock (err e) = err (service_error e)
decorated_page clock (ok page) = ok (decorate_page clock page)

unfoldable pub list_instances :
    Bool → Directory → ℕ → ℕ → InstanceFilter → Tables → Result DesktopError DecoratedPage
list_instances fails dir clock now f t =
    decorated_page clock (Listing.list_instances fails dir now f t)

unfoldable pub list_user_instances :
    Bool → Directory → ℕ → ℕ → ℕ → InstanceFilter → Tables → Result DesktopError DecoratedPage
list_user_instances fails dir clock now user f t =
    if user == 0
    then err invalid_input
    else decorated_page clock (Listing.list_user_instances fails dir now user f t)

abbrev decorated : ℕ → Result DesktopError Instance → Result DesktopError Decorated
decorated clock (err e) = err (service_error e)
decorated clock (ok i) = ok (decorate clock i)

unfoldable pub get_instance : Bool → Directory → ℕ → ℕ → Tables → Result DesktopError Decorated
get_instance fails dir clock device t =
    if device == 0
    then err invalid_input
    else decorated clock (Listing.get_instance fails dir device t)

abbrev is_alphanumeric : ℕ → Bool
is_alphanumeric c = leb b'A' c && leb c b'Z' || leb b'a' c && leb c b'z' || leb b'0' c && leb c b'9'

abbrev is_key_rune : ℕ → Bool
is_key_rune c = is_alphanumeric c || c == b'.' || c == b'_' || c == b':' || c == b'-'

-- ^[A-Za-z0-9][A-Za-z0-9._:-]{0,127}$
unfoldable pub valid_idempotency_key : Text → Bool
valid_idempotency_key [] = false
valid_idempotency_key (c ∷ cs) =
    is_alphanumeric c && leb (length cs) 127 && not (any (λ r. not (is_key_rune r)) cs)

unfoldable pub queue_health_check :
    (Bytes → Bytes)
    → Faults
    → Directory
    → ℕ
    → ℕ
    → AdminActor
    → ℕ
    → Text
    → Tables
    → Result DesktopError (Command × Bool) × Tables
queue_health_check sha256 db dir id now actor device key t =
    if device == 0 || not (valid_idempotency_key key) || not (valid_queue q)
    then (err invalid_input, t)
    else answered (Repository.queue_health_check db dir id now q t)
  where
    q : QueueHealthCheckCommand
    q = record { device_id = device; idempotency_key_hash = sha256 (utf8 key); actor = actor }

unfoldable pub get_command : Faults → ℕ → ℕ → Tables → Result DesktopError Command × Tables
get_command db now id t =
    if id == 0 then (err invalid_input, t) else answered (Advance.get_command db now id t)
