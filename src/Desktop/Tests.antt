-- ===== src/Desktop/Tests.antt =====
-- Runs of internal/desktopcontrol: a desktop that is online, and one health check.
use aera_cloud.Prelude.{
  ◌≡◌, ◌≢◌, refl, true, false, none, some, [], ◌∷◌, replicate, codes, find, ok, is_space, is_blank,
  byte_length, utf8, put_rune,
}
use aera_cloud.Session.Table.{Directory, UserStatus, DeviceStatus}
use aera_cloud.Oauth.Model.{trim_space, trim_left, trim_right}
use aera_cloud.Desktop.Model.{
  unknown, DevicePrincipal, InstanceRow, Instance, QueueHealthCheckCommand, CommandResult, running,
  no_code, Command, effective_status, valid_principal, valid_queue, bounded_text,
  valid_service_subject,
}
use aera_cloud.Desktop.Table.{
  Tables, healthy_database, is_command, is_overdue, expiry_events, expired_tables, claim,
  new_command, select_statuses, join_instance, select_instance,
}
use aera_cloud.Desktop.Repository.{
  active_device, require_active_device, read_instance, read_command, finish, has_capability,
  is_ready, queued_tables, queue_inserted, queue_new, queue_read, queue_found, queue_health_check,
  is_claimable, select_next, claim_selected, claim_read, claim_checked, claim_next_command,
}
use aera_cloud.Desktop.Lifecycle.{Follows}
use aera_cloud.Desktop.Trace.{here, next, advances, claims, command-Follows}
use aera_cloud.Desktop.Advance.{advance_command}
use aera_cloud.Desktop.Once.{claim_once}
use aera_cloud.Desktop.Queueing.{queue_once}
use aera_cloud.Desktop.Model.{online}
use aera_cloud.Desktop.Service.{DecoratedPage, decorate}
use aera_cloud.Desktop.Listing as Listing
use aera_cloud.Desktop.Listing.{InstanceFilter}

abbrev sample_directory : Directory
sample_directory = record {
  users = record { id = 1; status = UserStatus.active } ∷ [];
  devices = record { id = 2; user_id = 1; installation_id = 3; status = DeviceStatus.active } ∷ [];
  spaces = [];
}

abbrev desktop : InstanceRow
desktop = record {
  device_id = 2;
  user_id = 1;
  organization_id = none;
  workspace_id = none;
  display_name = codes "desk";
  client_version = codes "1";
  platform = "linux";
  arch = "x64";
  capabilities = "diagnostics.health.read" ∷ [];
  last_heartbeat_at = some 1000;
  health_status = unknown;
  health_summary = none;
  created_at = 1000;
  updated_at = 1000;
}

abbrev principal : DevicePrincipal
principal = record { user_id = 1; device_id = 2; organization_id = none; workspace_id = none }

abbrev online_tables : Tables
online_tables = record { commands = []; instances = desktop ∷ []; audit_events = [] }

abbrev health_check : QueueHealthCheckCommand
health_check = record {
  device_id = 2;
  idempotency_key_hash = replicate 32 7;
  actor = record { admin_id = 5; service_subject = codes "ops"; request_id = codes "r1" };
}

abbrev queued_row : Command
queued_row = new_command 8 2000 health_check

queued_once :
    (queue_health_check healthy_database sample_directory 8 2000 health_check online_tables).0
    ≡ ok (queued_row, false)
unfolding queue_health_check queue_found queue_read queue_new queue_inserted queued_tables
    expired_tables expiry_events read_instance select_instance join_instance select_statuses
    is_ready has_capability effective_status valid_queue valid_service_subject bounded_text
    trim_space trim_left trim_right is_space is_blank byte_length utf8 put_rune
queued_once = refl

abbrev queued_state : Tables
queued_state =
    (queue_health_check healthy_database sample_directory 8 2000 health_check online_tables).1

queued_again :
    (queue_health_check healthy_database sample_directory 9 3000 health_check queued_state).0
    ≡ ok (queued_row, true)
unfolding queue_health_check queue_found queue_read queue_new queue_inserted queued_tables
    expired_tables expiry_events read_instance select_instance join_instance select_statuses
    is_ready has_capability effective_status valid_queue valid_service_subject bounded_text
    trim_space trim_left trim_right is_space is_blank byte_length utf8 put_rune new_command
    is_overdue
queued_again = refl

queue_once_example : (true ≡ true) × Follows queued_row queued_row
queue_once_example =
    queue_once healthy_database healthy_database sample_directory sample_directory 8 9 2000 3000
      health_check health_check online_tables queued_row queued_row false true tt refl refl
      queued_once here queued_again

abbrev waiting_tables : Tables
waiting_tables = record online_tables {
  commands = new_command 8 2000 health_check ∷ new_command 9 2500 health_check ∷ [];
}

claimed_first :
    (claim_next_command healthy_database sample_directory 3000 principal waiting_tables).0
    ≡ ok (some (claim 3000 queued_row))
unfolding claim_next_command claim_checked claim_read claim_selected select_next is_claimable
    expired_tables expiry_events read_instance select_instance join_instance select_statuses
    require_active_device active_device read_command finish has_capability valid_principal
    new_command is_overdue claim
claimed_first = refl

abbrev claimed_state : Tables
claimed_state =
    (claim_next_command healthy_database sample_directory 3000 principal waiting_tables).1

claimed_second :
    (claim_next_command healthy_database sample_directory 4000 principal claimed_state).0
    ≡ ok (some (claim 4000 (new_command 9 2500 health_check)))
unfolding claim_next_command claim_checked claim_read claim_selected select_next is_claimable
    expired_tables expiry_events read_instance select_instance join_instance select_statuses
    require_active_device active_device read_command finish has_capability valid_principal
    new_command is_overdue claim
claimed_second = refl

claim_once_example : (claim 4000 (new_command 9 2500 health_check)).id ≢ (claim 3000 queued_row).id
unfolding new_command claim
claim_once_example =
    claim_once healthy_database healthy_database sample_directory sample_directory 3000 4000
      principal principal waiting_tables (claim 3000 queued_row)
      (claim 4000 (new_command 9 2500 health_check)) (refl, (refl, tt)) claimed_first here
      claimed_second

abbrev started : CommandResult
started = record { state = running; code = no_code; summary = none }

command-Follows_example :
    (d : Command) × (find
        (is_command 8)
        (advance_command healthy_database sample_directory 5000 principal 8 started
          claimed_state).1.commands
      ≡ some d)
    × Follows queued_row d
unfolding new_command
command-Follows_example =
    command-Follows 8 queued_row (refl, (refl, tt))
      (next (next here (claims healthy_database sample_directory 3000 principal))
        (advances healthy_database sample_directory 5000 principal 8 started))
      refl

abbrev online_instance : Instance
online_instance = record {
  row = desktop;
  user_status = UserStatus.active;
  device_status = DeviceStatus.active;
}

abbrev only_online : InstanceFilter
only_online = record {
  device_id = none;
  user_id = none;
  organization_id = none;
  platform = [];
  client_version = [];
  effective_status = some online;
  limit = 0;
  offset = 0;
}

-- The desktop was online at 2000, and is offline by the time of the answer.
abbrev aged_page : DecoratedPage
aged_page = record { items = decorate 200000 online_instance ∷ []; total = 1; server_time = 200000 }
