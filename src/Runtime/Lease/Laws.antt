-- ===== src/Runtime/Lease/Laws.antt =====
-- Exclusion: who can take, extend and give back a lease of core/runtime/memory.py, and when.
use general_ai_core.Prelude.{
  ◌↔◌, ℕ, ◌+◌, ◌<◌, ◌≡◌, ◌≢◌, ◌⊎◌, inl, inr, refl, sym, true, false, none, some, String, arith,
  lookup, insert, erase, ◌==◌, nat_eq, string_eq, ok, Bool-cases, Option-cases, lookup-insert_self,
  lookup-erase_self, ◌∙◌, beq_self, beq_ne,
}
use general_ai_core.Runtime.Lease.{
  Lease, Holding, LeaseManager, blocks, acquire, is_holder, renew, release,
}

-- The lease is good at `now`: the manager's entry is live and has its owner and token.
abbrev pub Holds : ℕ → Lease → LeaseManager → Type 0
Holds now l m = is_holder (lookup l.resource m.held) now l ≡ true

-- The entry behind a good lease.
pub Holds-entry :
    (now : ℕ) (l : Lease) (m : LeaseManager)
    → Holds now l m
    → (h : Holding) × (lookup l.resource m.held ≡ some h)
      × (now < h.expires_at)
      × (h.owner ≡ l.owner)
      × (h.fencing_token ≡ l.fencing_token)
Holds-entry now l m g = elim (Option-cases (lookup l.resource m.held)) [
  | inl q ↦ ground arith
  | inr (h, q) ↦
      (h, q, ground arith, ground (arith, string_eq.beq_iff h.owner l.owner), ground arith)
]

-- An entry that is live and has the lease's owner and token makes it good.
pub entry-Holds :
    (now : ℕ) (l : Lease) (m : LeaseManager) (h : Holding)
    → lookup l.resource m.held ≡ some h
    → now < h.expires_at
    → h.owner ≡ l.owner
    → h.fencing_token ≡ l.fencing_token
    → Holds now l m
entry-Holds now l m h q live own tok = rw q (ground (arith, string_eq.beq_iff h.owner l.owner))

-- While a lease is good no other owner can acquire its resource, and the attempt changes nothing.
pub acquire_excluded :
    (now : ℕ) (l : Lease) (other : String) (ttl : ℕ) (m : LeaseManager)
    → Holds now l m
    → other ≢ l.owner
    → acquire now l.resource other ttl m ≡ (none, m)
unfolding acquire
acquire_excluded now l other ttl m g ne =
    let (h, found, live, own, tok) = Holds-entry now l m g in
    let foreign : (h.owner == other) ≡ false = beq_ne h.owner other (λ q. ne (sym q ∙ own)) in
    rw found (rw foreign (ground arith))

-- A lease that was acquired is good until its time to live has passed, and no longer.
pub acquire-Holds :
    (now later : ℕ) (resource owner : String) (ttl : ℕ) (m m' : LeaseManager) (l : Lease)
    → acquire now resource owner ttl m ≡ (some l, m')
    → Holds later l m' ↔ (later < now + ttl)
unfolding acquire
acquire-Holds now later resource owner ttl m m' l h =
    elim (Bool-cases (blocks (lookup resource m.held) now owner)) [
      | inl blocked ↦ ground arith
      | inr free ↦
          let new : Holding = record {
            owner = owner;
            fencing_token = m.token;
            expires_at = now + ttl;
          } in
          let found : lookup resource (insert resource new m.held) ≡ some new =
            lookup-insert_self resource new m.held in
          ground (arith, found, beq_self owner)
    ]

-- A good lease can be renewed: the token stays, and it is good until the new time to live has passed.
pub renew-Holds :
    (now later ttl : ℕ) (l : Lease) (m : LeaseManager)
    → Holds now l m
    → later < now + ttl
    → (m' : LeaseManager) × (renew now l ttl m ≡ ok (record l { ttl_seconds = ttl }, m'))
      × Holds later l m'
unfolding renew
renew-Holds now later ttl l m g before =
    let new : Holding = record {
      owner = l.owner;
      fencing_token = l.fencing_token;
      expires_at = now + ttl;
    } in
    let m' : LeaseManager = record m { held = insert l.resource new m.held } in
    (
      m',
      rw g refl,
      entry-Holds later l m' new (lookup-insert_self l.resource new m.held) before refl refl,
    )

-- A good lease can be released, and then anybody can acquire the resource at once.
pub acquire-release :
    (now : ℕ) (l : Lease) (owner : String) (ttl : ℕ) (m : LeaseManager)
    → Holds now l m
    → (m' : LeaseManager) × (release now l m ≡ ok (tt, m'))
      × ((acquire now l.resource owner ttl m').0
          ≡ some (record {
            resource = l.resource;
            owner = owner;
            fencing_token = m.token;
            ttl_seconds = ttl;
          }))
unfolding release acquire
acquire-release now l owner ttl m g = (
  record m { held = erase l.resource m.held },
  rw g refl,
  rw (lookup-erase_self l.resource m.held) refl,
)

-- The manager has an entry for the lease's resource that has not expired, with its owner and its token.
abbrev pub IsLive : ℕ → Lease → LeaseManager → Type 0
IsLive now l m =
    (h : Holding) × (lookup l.resource m.held ≡ some h)
    × (now < h.expires_at)
    × (h.owner ≡ l.owner)
    × (h.fencing_token ≡ l.fencing_token)

-- Renewing a lease returns it with the new time to live, and releasing it returns, exactly when the lease is
-- live: the manager has an entry for its resource that has not expired, with its owner and its token.
pub renew_exactly :
    (now ttl : ℕ) (l : Lease) (m : LeaseManager)
    → (IsLive now l m
        ↔ ((m' : LeaseManager) × (renew now l ttl m ≡ ok (record l { ttl_seconds = ttl }, m'))))
      × (IsLive now l m ↔ ((m' : LeaseManager) × (release now l m ≡ ok (tt, m'))))
unfolding renew release
renew_exactly now ttl l m = (
  (renewed, λ r. live (Bool-cases (is_holder (lookup l.resource m.held) now l)) (refused_renew r)),
  (
    released,
    λ r. live (Bool-cases (is_holder (lookup l.resource m.held) now l)) (refused_release r),
  ),
)
  where
    good : IsLive now l m → Holds now l m
    good (h, q, early, own, tok) = entry-Holds now l m h q early own tok

    live :
        (Holds now l m) ⊎ (is_holder (lookup l.resource m.held) now l ≡ false)
        → (is_holder (lookup l.resource m.held) now l ≡ false → ⊥)
        → IsLive now l m
    live (inl g) no_error = Holds-entry now l m g
    live (inr bad) no_error = absurd (no_error bad)

    renewed :
        IsLive now l m
        → (m' : LeaseManager) × (renew now l ttl m ≡ ok (record l { ttl_seconds = ttl }, m'))
    renewed h = (
      record m {
        held =
            insert l.resource
              (record { owner = l.owner; fencing_token = l.fencing_token; expires_at = now + ttl })
              m.held;
      },
      rw (good h) refl,
    )

    released : IsLive now l m → (m' : LeaseManager) × (release now l m ≡ ok (tt, m'))
    released h = (record m { held = erase l.resource m.held }, rw (good h) refl)

    refused_renew :
        (m' : LeaseManager) × (renew now l ttl m ≡ ok (record l { ttl_seconds = ttl }, m'))
        → is_holder (lookup l.resource m.held) now l ≡ false
        → ⊥
    refused_renew (m', e) bad = ground (arith, rw bad at e)

    refused_release :
        (m' : LeaseManager) × (release now l m ≡ ok (tt, m'))
        → is_holder (lookup l.resource m.held) now l ≡ false
        → ⊥
    refused_release (m', e) bad = ground (arith, rw bad at e)
