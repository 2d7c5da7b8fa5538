-- ===== src/Identity/Laws.antt =====
-- The trust of a device over any history of the registry.
use general_ai_core.Prelude.{
  ℕ, ◌≡◌, ◌≢◌, inl, inr, refl, sym, true, false, Option, none, some, String, [], arith, lookup,
  insert, ◌==◌, nat_eq, string_eq, pair_eq, ok, err, after, Bool-cases, Option-cases, lookup-insert,
  false≢true, ◌∙◌, beq_ne,
}
use general_ai_core.Identity.{
  DeviceState, paired, trusted, is_usable_state, is_terminal, is_allowed, Device, device_not_found,
  Devices, pair, moved, transition, get, is_usable, heartbeat,
}

-- One call of the registry. A new device has an id that no device has; a call that raises changes
-- nothing.
pub data Step : Devices → Devices → Type 0 where
  pairs :
      (now new_id tenant user : ℕ) (name : String) {ds : Devices}
      → lookup new_id ds ≡ none
      → Step ds (pair now new_id tenant user name ds).1
  moves :
      (now id : ℕ) (requested : DeviceState) {ds : Devices}
      → Step ds (after ds (transition now id requested ds))
  beats : (now id tenant : ℕ) {ds : Devices} → Step ds (after ds (heartbeat now id tenant ds))

pub data Reach (ds : Devices) : Devices → Type 0 where
  here : Reach ds ds
  next : {es fs : Devices} → Reach ds es → Step es fs → Reach ds fs

-- Each device is listed under its own id.
abbrev pub IsListed : ℕ → Option Device → Type 0
IsListed id none = Unit
IsListed id (some d) = d.id ≡ id

-- A burned device: revoked or compromised, of the given tenant.
abbrev pub IsBurned : ℕ → Option Device → Type 0
IsBurned tenant none = ⊥
IsBurned tenant (some d) = (is_terminal d.state ≡ true) × (d.tenant_id ≡ tenant)

terminal_stays : (s t : DeviceState) → is_terminal s ≡ true → is_allowed s t ≡ false
terminal_stays paired paired h = cc
terminal_stays _ _ h = ground arith

moved_id :
    (now : ℕ) (t : DeviceState) (d : Device)
    → ((moved now t d).id ≡ d.id) × ((moved now t d).tenant_id ≡ d.tenant_id)
moved_id now paired d = (refl, refl)
moved_id now _ d = (refl, refl)

IsListed-insert :
    (k id : ℕ) (d : Device) (ds : Devices)
    → d.id ≡ k
    → IsListed id (lookup id ds)
    → IsListed id (lookup id (insert k d ds))
IsListed-insert k id d ds e h =
    rw (lookup-insert k id d ds)
      (elim (Bool-cases (k == id)) [ inl same ↦ rw same (ground arith) | inr other ↦ rw other h ])

transition-IsListed :
    (now k : ℕ) (t : DeviceState) (ds : Devices) (id : ℕ)
    → IsListed id (lookup id ds)
    → IsListed id (lookup id (after ds (transition now k t ds)))
unfolding transition
transition-IsListed now k t ds id h = elim (Option-cases (lookup k ds)) [
  | inl absent ↦ rw absent h
  | inr (d, found) ↦ elim (Bool-cases (is_allowed d.state t)) [
    | inl good ↦
        rw found (rw good (IsListed-insert (moved now t d).id id (moved now t d) ds refl h))
    | inr bad ↦ rw found (rw bad h)
  ]
]

heartbeat-IsListed :
    (now k tenant : ℕ) (ds : Devices) (id : ℕ)
    → IsListed id (lookup id ds)
    → IsListed id (lookup id (after ds (heartbeat now k tenant ds)))
unfolding heartbeat
heartbeat-IsListed now k tenant ds id h = elim (Option-cases (lookup k ds)) [
  | inl absent ↦ rw absent h
  | inr (d, found) ↦ elim (Bool-cases (d.tenant_id == tenant)) [
    | inl own ↦ elim (Bool-cases (is_usable_state d.state)) [
      | inl good ↦ rw found (
          rw own (
            rw good
              (IsListed-insert d.id id (record d { last_heartbeat_at = some now }) ds refl h)))
      | inr bad ↦ rw found (rw own (rw bad h))
    ]
    | inr foreign ↦ rw found (rw foreign h)
  ]
]

Step-IsListed :
    {ds es : Devices} (id : ℕ)
    → Step ds es
    → IsListed id (lookup id ds)
    → IsListed id (lookup id es)
unfolding pair
Step-IsListed id (pairs now new_id tenant user name {ds} fresh) h =
    IsListed-insert new_id id _ ds refl h
Step-IsListed id (moves now k t {ds}) h = transition-IsListed now k t ds id h
Step-IsListed id (beats now k tenant {ds}) h = heartbeat-IsListed now k tenant ds id h

Reach-IsListed : {ds : Devices} (id : ℕ) → Reach [] ds → IsListed id (lookup id ds)
Reach-IsListed id here = tt
Reach-IsListed id (next r s) = Step-IsListed id s (Reach-IsListed id r)

-- A new value of another device, or of the same one with its state and tenant kept.
IsBurned-insert :
    (k id tenant : ℕ) (d : Device) (ds : Devices)
    → IsBurned tenant (lookup id ds)
    → (k ≡ id → IsBurned tenant (some d))
    → IsBurned tenant (lookup id (insert k d ds))
IsBurned-insert k id tenant d ds h same =
    rw (lookup-insert k id d ds)
      (elim (Bool-cases (k == id)) [ inl e ↦ rw e (same (ground arith)) | inr other ↦ rw other h ])

found-IsBurned :
    (k id tenant : ℕ) (d : Device) (ds : Devices)
    → IsBurned tenant (lookup id ds)
    → lookup k ds ≡ some d
    → k ≡ id
    → IsBurned tenant (some d)
found-IsBurned k id tenant d ds h found e = rw (rw e at found) at h

transition-IsBurned :
    (now k : ℕ) (t : DeviceState) (ds : Devices) (id tenant : ℕ)
    → IsListed k (lookup k ds)
    → IsBurned tenant (lookup id ds)
    → IsBurned tenant (lookup id (after ds (transition now k t ds)))
unfolding transition
transition-IsBurned now k t ds id tenant listed h = elim (Option-cases (lookup k ds)) [
  | inl absent ↦ rw absent h
  | inr (d, found) ↦ elim (Bool-cases (is_allowed d.state t)) [
    | inl good ↦ rw found (
        rw good (
          IsBurned-insert (moved now t d).id id tenant (moved now t d) ds h λ e.
            let d_id : d.id ≡ k = rw found at listed in
            let burned =
              found-IsBurned k id tenant d ds h found (sym d_id ∙ (sym (moved_id now t d).0 ∙ e)) in
            absurd (false≢true (sym (terminal_stays d.state t burned.0) ∙ good))))
    | inr bad ↦ rw found (rw bad h)
  ]
]

heartbeat-IsBurned :
    (now k tenant' : ℕ) (ds : Devices) (id tenant : ℕ)
    → IsListed k (lookup k ds)
    → IsBurned tenant (lookup id ds)
    → IsBurned tenant (lookup id (after ds (heartbeat now k tenant' ds)))
unfolding heartbeat
heartbeat-IsBurned now k tenant' ds id tenant listed h = elim (Option-cases (lookup k ds)) [
  | inl absent ↦ rw absent h
  | inr (d, found) ↦ elim (Bool-cases (d.tenant_id == tenant')) [
    | inl own ↦ elim (Bool-cases (is_usable_state d.state)) [
      | inl good ↦ rw found (
          rw own (
            rw good (
              IsBurned-insert d.id id tenant (record d { last_heartbeat_at = some now }) ds h
                λ e.
                  let d_id : d.id ≡ k = rw found at listed in
                  found-IsBurned k id tenant d ds h found (sym d_id ∙ e))))
      | inr bad ↦ rw found (rw own (rw bad h))
    ]
    | inr foreign ↦ rw found (rw foreign h)
  ]
]

Step-IsBurned :
    {ds es : Devices} (id tenant : ℕ)
    → Step ds es
    → ((k : ℕ) → IsListed k (lookup k ds))
    → IsBurned tenant (lookup id ds)
    → IsBurned tenant (lookup id es)
unfolding pair
Step-IsBurned id tenant (pairs now new_id tenant' user name {ds} fresh) listed h =
    IsBurned-insert new_id id tenant _ ds h λ e. absurd (rw (rw e at fresh) at h)
Step-IsBurned id tenant (moves now k t {ds}) listed h =
    transition-IsBurned now k t ds id tenant (listed k) h
Step-IsBurned id tenant (beats now k tenant' {ds}) listed h =
    heartbeat-IsBurned now k tenant' ds id tenant (listed k) h

Reach-trans : {ds es fs : Devices} → Reach ds es → Reach es fs → Reach ds fs
Reach-trans r here = r
Reach-trans r (next q s) = next (Reach-trans r q) s

Reach-IsBurned :
    {ds es : Devices} (id tenant : ℕ)
    → Reach [] ds
    → Reach ds es
    → IsBurned tenant (lookup id ds)
    → IsBurned tenant (lookup id es)
Reach-IsBurned id tenant r here h = h
Reach-IsBurned id tenant r (next q s) h =
    Step-IsBurned id tenant s (λ k. Reach-IsListed k (Reach-trans r q))
      (Reach-IsBurned id tenant r q h)

terminal_unusable : (s : DeviceState) → is_terminal s ≡ true → is_usable_state s ≡ false
terminal_unusable trusted h = cc
terminal_unusable _ h = ground arith

-- A device that was once revoked or marked compromised is never usable again: in every registry
-- that the calls of a new registry can reach from there, its tenant is told that it is not usable.
pub burned_forever :
    {ds es : Devices} (id tenant : ℕ)
    → Reach [] ds
    → IsBurned tenant (lookup id ds)
    → Reach ds es
    → is_usable id tenant es ≡ ok false
unfolding is_usable
burned_forever {ds} {es} id tenant r h q = elim (Option-cases (lookup id es)) [
  | inl absent ↦ absurd (rw absent at (Reach-IsBurned id tenant r q h))
  | inr (d, found) ↦
      let burned : IsBurned tenant (some d) = rw found at (Reach-IsBurned id tenant r q h) in
      rw found (rw burned.1 (ground (arith, terminal_unusable d.state burned.0)))
]

-- A tenant learns nothing of another tenant's device: every read of it, and a heartbeat for it, is
-- answered as for a device that does not exist.
pub foreign_hidden :
    (now id tenant : ℕ) (d : Device) (ds : Devices)
    → lookup id ds ≡ some d
    → d.tenant_id ≢ tenant
    → (get id tenant ds ≡ get id tenant [])
      × (is_usable id tenant ds ≡ is_usable id tenant [])
      × (heartbeat now id tenant ds ≡ err (device_not_found id))
unfolding get is_usable heartbeat
foreign_hidden now id tenant d ds found foreign =
    let no_match : (d.tenant_id == tenant) ≡ false = beq_ne d.tenant_id tenant foreign in
    (rw found (rw no_match refl), rw found (rw no_match refl), rw found (rw no_match refl))
