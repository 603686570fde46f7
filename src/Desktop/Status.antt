-- ===== src/Desktop/Status.antt =====
-- The two ways to tell the status of a desktop: Instance.EffectiveStatus of
-- internal/desktopcontrol/model.go and the CASE in ListInstances of its repository.go.
use aera_cloud.Prelude.{ℕ, ◌≡◌, ◌⊎◌, true, ◌==◌, if◌then◌else◌}
use aera_cloud.Desktop.Model.{
  EffectiveStatus, pending, revoked, disabled, online, offline, Instance, effective_status,
}
use aera_cloud.Desktop.Listing.{InstanceFilter, passes_filter}
use aera_cloud.Desktop.Listing as Listing
use aera_cloud.Desktop.Service.{Decorated}

of_index : ℕ → EffectiveStatus
of_index n =
    if n == 0
    then pending
    else if n == 1
    then revoked
    else if n == 2
    then disabled
    else if n == 3
    then online
    else offline

-- A desktop that was shown as `s` is shown as `now_shown` later.
abbrev pub MayBecome : EffectiveStatus → EffectiveStatus → Type 0
MayBecome s now_shown = (now_shown ≡ s) ⊎ ((s ≡ online) × (now_shown ≡ offline))

abbrev Passes : ℕ → InstanceFilter → Instance → Type 0
Passes now f i = passes_filter now f i ≡ true

-- What an item of a page with the filter `s` shows.
abbrev pub IsShown : ℕ → EffectiveStatus → Decorated → Type 0
IsShown clock s d =
    (d.effective_status_value ≡ effective_status clock d.instance)
    × MayBecome s d.effective_status_value
