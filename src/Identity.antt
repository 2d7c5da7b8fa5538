-- ===== src/Identity.antt =====
-- core/identity/devices.py with the state machine of core/contracts/device.py: the device registry.
-- Times are whole ticks of the injected clock; ids are numbers, a new one is passed to `pair`.
pub mod Laws
mod Examples
use general_ai_core.Prelude.{
  ◌↔◌, not, nat_beq, ℕ, zero, suc, ◌+◌, ◌-◌, ◌≤◌, ◌<◌, ◌≡◌, ◌≢◌, ◌⊎◌, inl, inr, refl, sym, ap, Bool,
  true, false, ◌&&◌, ◌||◌, Option, none, some, String, List, [], ◌∷◌, ◌++◌, arith, Dict, lookup,
  insert, erase, contains, ◌==◌, nat_eq, string_eq, pair_eq, concat, if◌then◌else◌, is_some, Result,
  ok, err, ◌>>=◌, ◌>>◌, raise_if, or_raise, after, Bool-cases, Option-cases, Result-cases,
  lookup-insert, lookup-insert_self, lookup-insert_ne, lookup-erase, lookup-erase_self, ◌∙◌, subst,
  take, drop, keep, member, take-append-drop, length-append, get_or, values, keys, map, ◌*◌, ◌/◌,
  max, beq_self, beq_ne, Eq, length, ltb, leb, All,
}

pub data DeviceState : Type 0 where
  paired trusted revoked expired compromised : DeviceState

-- `state in USABLE_DEVICE_STATES`
abbrev pub is_usable_state : DeviceState → Bool
is_usable_state paired = false
is_usable_state trusted = true
is_usable_state revoked = false
is_usable_state expired = false
is_usable_state compromised = false

-- `state in TERMINAL_DEVICE_STATES`
abbrev pub is_terminal : DeviceState → Bool
is_terminal paired = false
is_terminal trusted = false
is_terminal revoked = true
is_terminal expired = false
is_terminal compromised = true

-- `(state, requested) in ALLOWED_DEVICE_TRANSITIONS`
abbrev pub is_allowed : DeviceState → DeviceState → Bool
is_allowed paired trusted = true
is_allowed trusted expired = true
is_allowed expired trusted = true
is_allowed paired revoked = true
is_allowed trusted revoked = true
is_allowed expired revoked = true
is_allowed paired compromised = true
is_allowed trusted compromised = true
is_allowed expired compromised = true
is_allowed _ _ = false

pub record Device : Type 0 where
  pub id : ℕ
  pub tenant_id : ℕ
  pub user_id : ℕ
  pub name : String
  pub state : DeviceState
  pub paired_at : ℕ
  pub trusted_at : Option ℕ
  pub revoked_at : Option ℕ
  pub last_heartbeat_at : Option ℕ

pub data DeviceError : Type 0 where
  device_not_found : ℕ → DeviceError
  device_transition_denied : DeviceState → DeviceState → DeviceError
  device_heartbeat_refused : DeviceState → DeviceError

-- `DeviceRegistry._devices`
abbrev pub Devices : Type 0
Devices = Dict ℕ Device

unfoldable pub pair : ℕ → ℕ → ℕ → ℕ → String → Devices → Device × Devices
pair now new_id tenant user name ds =
    let device : Device = record {
      id = new_id;
      tenant_id = tenant;
      user_id = user;
      name = name;
      state = paired;
      paired_at = now;
      trusted_at = none;
      revoked_at = none;
      last_heartbeat_at = none;
    } in
    (device, insert new_id device ds)

-- The update of `_transition`, with the time stamp that the requested state sets.
abbrev pub moved : ℕ → DeviceState → Device → Device
moved now paired d = record d { state = paired }
moved now trusted d = record d { state = trusted; trusted_at = some now }
moved now revoked d = record d { state = revoked; revoked_at = some now }
moved now expired d = record d { state = expired }
moved now compromised d = record d { state = compromised; revoked_at = some now }

unfoldable pub transition : ℕ → ℕ → DeviceState → Devices → Result DeviceError (Device × Devices)
transition now id requested ds = do
  device ← or_raise (lookup id ds) (device_not_found id)
  raise_if (not (is_allowed device.state requested))
      (device_transition_denied device.state requested)
  let updated = moved now requested device
  ok (updated, insert updated.id updated ds)

pub trust : ℕ → ℕ → Devices → Result DeviceError (Device × Devices)
unfolding transition
trust now id ds = transition now id trusted ds

pub expire : ℕ → ℕ → Devices → Result DeviceError (Device × Devices)
unfolding transition
expire now id ds = transition now id expired ds

pub revoke : ℕ → ℕ → Devices → Result DeviceError (Device × Devices)
unfolding transition
revoke now id ds = transition now id revoked ds

pub mark_compromised : ℕ → ℕ → Devices → Result DeviceError (Device × Devices)
unfolding transition
mark_compromised now id ds = transition now id compromised ds

-- A device of another tenant is answered like an absent one.
unfoldable pub get : ℕ → ℕ → Devices → Result DeviceError Device
get id tenant ds = do
  device ← or_raise (lookup id ds) (device_not_found id)
  raise_if (not (device.tenant_id == tenant)) (device_not_found id)
  ok device

unfoldable pub is_usable : ℕ → ℕ → Devices → Result DeviceError Bool
unfolding get
is_usable id tenant ds = do device ← get id tenant ds; ok (is_usable_state device.state)

unfoldable pub heartbeat : ℕ → ℕ → ℕ → Devices → Result DeviceError (Device × Devices)
unfolding get
heartbeat now id tenant ds = do
  device ← get id tenant ds
  raise_if (not (is_usable_state device.state)) (device_heartbeat_refused device.state)
  let updated : Device = record device { last_heartbeat_at = some now }
  ok (updated, insert device.id updated ds)
