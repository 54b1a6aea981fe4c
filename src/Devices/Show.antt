-- ===== src/Devices/Show.antt =====
-- The handlers that only read: `list_devices` of gruvax/api/admin/devices.py and `get_device_me` of
-- gruvax/api/devices.py.
use gruvax.Base.{ℕ, Bool, true, false, ltb, Option, none, some, List, [], ◌∷◌, Text, if◌then◌else◌}
use gruvax.Base.Order.{nat_order}
use gruvax.Base.Sort.{sort_by}
use gruvax.Devices.{
  Device, State, DeviceState, unpaired, pending, paired, revoked, has_fingerprint, is_active,
  is_null, device_state,
}

pub record Groups : Type 0 where
  pub paired_devices : List Device
  pub pending_devices : List Device
  pub revoked_devices : List Device

abbrev pub add_device : Device → DeviceState → Groups → Groups
add_device d (paired p) g = record g { paired_devices = d ∷ g.paired_devices }
add_device d pending g = record g { pending_devices = d ∷ g.pending_devices }
add_device d revoked g = record g { revoked_devices = d ∷ g.revoked_devices }
add_device d unpaired g = record g { revoked_devices = d ∷ g.revoked_devices }

-- The loop, from its end.
unfoldable pub group_devices : List Device → Groups
group_devices [] = record { paired_devices = []; pending_devices = []; revoked_devices = [] }
group_devices (d ∷ rows) =
    add_device d (device_state d.profile_id d.revoked_at) (group_devices rows)

unfoldable pub list_devices : State → Groups
list_devices s = group_devices (sort_by nat_order (λ d. d.created_at) s.devices)

-- Whether a row comes before the best of those after it: an active one first, then the newest.
abbrev pub comes_first : Device → Device → Bool
comes_first d e =
    if is_active d
    then (if is_active e then (if ltb d.created_at e.created_at then false else true) else true)
    else (if is_active e then false else (if ltb d.created_at e.created_at then false else true))

abbrev pub prefer : Device → Option Device → Device
prefer d none = d
prefer d (some e) = if comes_first d e then d else e

-- _SELECT_DEVICE_BY_FINGERPRINT: of rows that are alike in the order, the first.
unfoldable pub select_by_fingerprint : Text → List Device → Option Device
select_by_fingerprint fp [] = none
select_by_fingerprint fp (d ∷ rows) =
    let rest = select_by_fingerprint fp rows in
    if has_fingerprint fp d then some (prefer d rest) else rest

abbrev pub state_unless_revoked : Option ℕ → DeviceState
state_unless_revoked none = pending
state_unless_revoked (some p) = paired p

abbrev pub state_of_row : Option Device → DeviceState
state_of_row none = pending
state_of_row (some d) = if is_null d.revoked_at then state_unless_revoked d.profile_id else revoked

-- `none` and the empty text are no fingerprint.
unfoldable pub get_device_me : Option Text → State → DeviceState
get_device_me none s = unpaired
get_device_me (some []) s = unpaired
get_device_me (some (c ∷ fp)) s = state_of_row (select_by_fingerprint (c ∷ fp) s.devices)
