-- ===== src/Desktop/Listing.antt =====
-- ListInstances, ListUserInstances and GetInstance of internal/desktopcontrol/repository.go.
use aera_cloud.Prelude.{
  ℕ, zero, suc, Bool, true, false, ◌&&◌, ◌||◌, not, Option, none, some, List, [], ◌∷◌, Text, codes,
  bytes_eq, length, take, Result, ok, err, ◌==◌, ltb, leb, if◌then◌else◌,
}
use aera_cloud.Session.Table.{Directory}
use aera_cloud.Desktop.Model.{
  DesktopError, invalid_input, unavailable, InstanceRow, Instance, EffectiveStatus, is_status,
  bounded_text,
}
use aera_cloud.Desktop.Table.{Tables, join_instance, sql_effective_status}
use aera_cloud.Desktop.Repository.{read_instance}

-- `limit` and `offset` are not negative; one that is gets refused.
pub record InstanceFilter : Type 0 where
  pub device_id : Option ℕ
  pub user_id : Option ℕ
  pub organization_id : Option ℕ
  pub platform : Text
  pub client_version : Text
  pub effective_status : Option EffectiveStatus
  pub limit : ℕ
  pub offset : ℕ

pub record InstancePage : Type 0 where
  pub items : List Instance
  pub total : ℕ

unfoldable pub bounded_optional_text : Text → ℕ → Bool
bounded_optional_text value limit = length value == 0 || bounded_text value limit

unfoldable pub valid_instance_filter : InstanceFilter → Bool
valid_instance_filter f =
    leb f.limit 100
    && bounded_optional_text f.platform 16
    && bounded_optional_text f.client_version 64

-- $n IS NULL OR column = $n
abbrev wants : Option ℕ → ℕ → Bool
wants none n = true
wants (some m) n = n == m

abbrev wants_optional : Option ℕ → Option ℕ → Bool
wants_optional none n = true
wants_optional (some m) none = false
wants_optional (some m) (some n) = n == m

abbrev wants_text : Text → Text → Bool
wants_text f t = length f == 0 || bytes_eq t f

abbrev wants_status : Option EffectiveStatus → EffectiveStatus → Bool
wants_status none s = true
wants_status (some f) s = is_status s f

unfoldable pub passes_filter : ℕ → InstanceFilter → Instance → Bool
passes_filter now f i =
    wants f.device_id i.row.device_id
    && wants f.user_id i.row.user_id
    && wants_optional f.organization_id i.row.organization_id
    && wants_text f.platform (codes i.row.platform)
    && wants_text f.client_version i.row.client_version
    && wants_status f.effective_status (sql_effective_status now i)

-- ORDER BY updated_at DESC, device_id.
abbrev pub is_listed_before : Instance → Instance → Bool
is_listed_before i j =
    ltb j.row.updated_at i.row.updated_at
    || i.row.updated_at == j.row.updated_at && not (ltb j.row.device_id i.row.device_id)

unfoldable pub insert_listed : Instance → List Instance → List Instance
insert_listed i [] = i ∷ []
insert_listed i (j ∷ js) =
    let rest = insert_listed i js in if is_listed_before i j then i ∷ j ∷ js else j ∷ rest

abbrev pub keep_listed : (Instance → Bool) → Option Instance → List Instance → List Instance
keep_listed passes none rest = rest
keep_listed passes (some i) rest = if passes i then insert_listed i rest else rest

-- The rows of the query before LIMIT and OFFSET.
unfoldable pub select_instances : Directory → ℕ → InstanceFilter → List InstanceRow → List Instance
select_instances dir now f [] = []
select_instances dir now f (r ∷ rows) =
    let rest = select_instances dir now f rows in
    keep_listed (passes_filter now f) (join_instance dir r) rest

abbrev pub drop : ℕ → List Instance → List Instance
drop zero xs = xs
drop (suc n) [] = []
drop (suc n) (x ∷ xs) = drop n xs

abbrev pub page_size : ℕ → ℕ
page_size limit = if limit == 0 then 50 else limit

-- count(*) OVER() comes with a row: past the last one the total stays 0.
unfoldable pub page_of : InstanceFilter → List Instance → InstancePage
page_of f rows =
    let items = take (page_size f.limit) (drop f.offset rows) in
    record { items = items; total = if length items == 0 then 0 else length rows }

unfoldable pub list_instances :
    Bool → Directory → ℕ → InstanceFilter → Tables → Result DesktopError InstancePage
list_instances fails dir now f t =
    if not (valid_instance_filter f)
    then err invalid_input
    else if fails
    then err unavailable
    else ok (page_of f (select_instances dir now f t.instances))

abbrev other_user : Option ℕ → ℕ → Bool
other_user none user = false
other_user (some u) user = not (u == user)

unfoldable pub list_user_instances :
    Bool → Directory → ℕ → ℕ → InstanceFilter → Tables → Result DesktopError InstancePage
list_user_instances fails dir now user f t =
    if user == 0 || other_user f.user_id user
    then err invalid_input
    else list_instances fails dir now (record f { user_id = some user }) t

unfoldable pub get_instance : Bool → Directory → ℕ → Tables → Result DesktopError Instance
get_instance fails dir device t =
    if device == 0 then err invalid_input else read_instance fails dir device t
