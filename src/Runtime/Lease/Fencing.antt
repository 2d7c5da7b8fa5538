-- ===== src/Runtime/Lease/Fencing.antt =====
-- Fencing: the tokens of core/runtime/memory.py over any history of calls, and leases that were lost.
use general_ai_core.Prelude.{
  ℕ, suc, ◌+◌, ◌≤◌, ◌<◌, ◌≡◌, ◌≢◌, inl, inr, refl, ap, Bool, true, false, Option, none, some,
  String, List, [], ◌∷◌, arith, Dict, lookup, insert, erase, ◌==◌, nat_eq, string_eq, if◌then◌else◌,
  after, Bool-cases, lookup-insert, lookup-insert_self, lookup-erase, lookup-erase_self, subst,
}
use native.Mathlib.Numerals.{add-one}
use general_ai_core.Prelude.Sums.{AllValues, AllValues-insert, AllValues-lookup}
use general_ai_core.Runtime.Lease.{
  Lease, Holding, LeaseManager, init, blocks, acquire, is_holder, renew, release,
}
use general_ai_core.Runtime.Lease.Laws.{Holds, Holds-entry}

-- The calls of the port with the clock's value at each; a call that raises changes nothing.
pub data Call : Type 0 where
  acquires : ℕ → String → String → ℕ → Call
  renews : ℕ → Lease → ℕ → Call
  releases : ℕ → Lease → Call

unfoldable pub step : Call → LeaseManager → LeaseManager
step (acquires now resource owner ttl) m = (acquire now resource owner ttl m).1
step (renews now l ttl) m = after m (renew now l ttl m)
step (releases now l) m = after m (release now l m)

unfoldable pub run : List Call → LeaseManager → LeaseManager
unfolding step
run [] m = m
run (c ∷ cs) m = run cs (step c m)

-- The fencing token that a call issues.
abbrev pub token_of : Option Lease → List ℕ → List ℕ
token_of none ts = ts
token_of (some l) ts = l.fencing_token ∷ ts

unfoldable pub issued : List Call → LeaseManager → List ℕ
unfolding step
issued [] m = []
issued (acquires now resource owner ttl ∷ cs) m =
    token_of (acquire now resource owner ttl m).0
      (issued cs (step (acquires now resource owner ttl) m))
issued (renews now l ttl ∷ cs) m = issued cs (step (renews now l ttl) m)
issued (releases now l ∷ cs) m = issued cs (step (releases now l) m)

-- Each number is at least the bound and above the one before it.
abbrev pub IsAscendingFrom : ℕ → List ℕ → Type 0
IsAscendingFrom n [] = Unit
IsAscendingFrom n (t ∷ ts) = (n ≤ t) × IsAscendingFrom (suc t) ts

IsAscendingFrom-acquire :
    (now : ℕ) (resource owner : String) (ttl : ℕ) (m : LeaseManager) (ts : List ℕ)
    → IsAscendingFrom (acquire now resource owner ttl m).1.token ts
    → IsAscendingFrom m.token (token_of (acquire now resource owner ttl m).0 ts)
unfolding acquire
IsAscendingFrom-acquire now resource owner ttl m ts h =
    elim (Bool-cases (blocks (lookup resource m.held) now owner)) [
      | inl blocked ↦ rw blocked (rw blocked at h)
      | inr free ↦ rw free (omega arith, rw (add-one m.token) at (rw free at h))
    ]

token-renew :
    (now : ℕ) (l : Lease) (ttl : ℕ) (m : LeaseManager)
    → (after m (renew now l ttl m)).token ≡ m.token
unfolding renew
token-renew now l ttl m = ground arith

token-release :
    (now : ℕ) (l : Lease) (m : LeaseManager) → (after m (release now l m)).token ≡ m.token
unfolding release
token-release now l m = ground arith

issued-IsAscendingFrom : (cs : List Call) (m : LeaseManager) → IsAscendingFrom m.token (issued cs m)
unfolding issued step
issued-IsAscendingFrom [] m = tt
issued-IsAscendingFrom (acquires now resource owner ttl ∷ cs) m =
    IsAscendingFrom-acquire now resource owner ttl m _
      (issued-IsAscendingFrom cs (acquire now resource owner ttl m).1)
issued-IsAscendingFrom (renews now l ttl ∷ cs) m =
    rw (token-renew now l ttl m) at (issued-IsAscendingFrom cs (after m (renew now l ttl m)))
issued-IsAscendingFrom (releases now l ∷ cs) m =
    rw (token-release now l m) at (issued-IsAscendingFrom cs (after m (release now l m)))

-- Over any history of a new manager the fencing tokens that it issues, for all resources and
-- owners together, are strictly increasing and start at one or above.
pub issued_ascending : (cs : List Call) → IsAscendingFrom 1 (issued cs init)
issued_ascending cs = issued-IsAscendingFrom cs init

-- Every entry's token was issued before the next one.
abbrev pub IsFenced : LeaseManager → Type 0
IsFenced m = AllValues (λ h. h.fencing_token < m.token) m.held

-- A lease whose token is old, and which is not the one that the entry, if any, stands for.
abbrev pub IsOther : ℕ → Option Holding → Type 0
IsOther token none = Unit
IsOther token (some h) = h.fencing_token ≢ token

abbrev pub IsLost : Lease → LeaseManager → Type 0
IsLost l m = (l.fencing_token < m.token) × IsOther l.fencing_token (lookup l.resource m.held)

IsLost-not-Holds : (now : ℕ) (l : Lease) (m : LeaseManager) → IsLost l m → ¬ Holds now l m
IsLost-not-Holds now l m lost g =
    let (h, found, live, own, tok) = Holds-entry now l m g in (rw found at lost.1) tok

IsOther-if :
    (b : Bool) (token : ℕ) (h : Holding) (o : Option Holding)
    → IsOther token o
    → (b ≡ true → h.fencing_token ≢ token)
    → IsOther token (if b then some h else o)
IsOther-if true token h o p q = q refl
IsOther-if false token h o p q = p

acquire-IsLost :
    (l : Lease) (now : ℕ) (resource owner : String) (ttl : ℕ) (m : LeaseManager)
    → IsLost l m
    → IsLost l (acquire now resource owner ttl m).1
unfolding acquire
acquire-IsLost l now resource owner ttl m lost =
    elim (Bool-cases (blocks (lookup resource m.held) now owner)) [
      | inl blocked ↦ rw blocked lost
      | inr free ↦ rw free (
        omega arith,
        rw
            (lookup-insert resource l.resource
              (record { owner = owner; fencing_token = m.token; expires_at = now + ttl }) m.held)
            (IsOther-if (resource == l.resource) l.fencing_token _ (lookup l.resource m.held) lost.1
              (λ same. omega arith)),
      )
    ]

other_token :
    (now : ℕ) (l k : Lease) (m : LeaseManager)
    → IsLost l m
    → Holds now k m
    → (k.resource == l.resource) ≡ true
    → k.fencing_token ≢ l.fencing_token
other_token now l k m lost g same =
    let (h, found, live, own, tok) = Holds-entry now k m g in
    let found' : lookup l.resource m.held ≡ some h =
      rw ((string_eq.beq_iff k.resource l.resource).0 same) at found in
    rw tok at (rw found' at lost.1)

renew-IsLost :
    (l : Lease) (now : ℕ) (k : Lease) (ttl : ℕ) (m : LeaseManager)
    → IsLost l m
    → IsLost l (after m (renew now k ttl m))
unfolding renew
renew-IsLost l now k ttl m lost = elim (Bool-cases (is_holder (lookup k.resource m.held) now k)) [
  | inl good ↦ rw good (
    lost.0,
    rw
        (lookup-insert k.resource l.resource
          (record { owner = k.owner; fencing_token = k.fencing_token; expires_at = now + ttl })
          m.held)
        (IsOther-if (k.resource == l.resource) l.fencing_token _ (lookup l.resource m.held) lost.1
          (other_token now l k m lost good)),
  )
  | inr bad ↦ rw bad lost
]

IsOther-erase :
    (b : Bool) (token : ℕ) (o : Option Holding)
    → IsOther token o
    → IsOther token (if b then none else o)
IsOther-erase true token o p = tt
IsOther-erase false token o p = p

release-IsLost :
    (l : Lease) (now : ℕ) (k : Lease) (m : LeaseManager)
    → IsLost l m
    → IsLost l (after m (release now k m))
unfolding release
release-IsLost l now k m lost = elim (Bool-cases (is_holder (lookup k.resource m.held) now k)) [
  | inl good ↦ rw good (
    lost.0,
    rw (lookup-erase k.resource l.resource m.held) (
        IsOther-erase (k.resource == l.resource) l.fencing_token (lookup l.resource m.held) lost.1),
  )
  | inr bad ↦ rw bad lost
]

run-IsLost : (l : Lease) (cs : List Call) (m : LeaseManager) → IsLost l m → IsLost l (run cs m)
unfolding run step
run-IsLost l [] m lost = lost
run-IsLost l (acquires now resource owner ttl ∷ cs) m lost =
    run-IsLost l cs _ (acquire-IsLost l now resource owner ttl m lost)
run-IsLost l (renews now k ttl ∷ cs) m lost = run-IsLost l cs _ (renew-IsLost l now k ttl m lost)
run-IsLost l (releases now k ∷ cs) m lost = run-IsLost l cs _ (release-IsLost l now k m lost)

AllBelow-mono :
    (n k : ℕ) (d : Dict String Holding)
    → n ≤ k
    → AllValues (λ h. h.fencing_token < n) d
    → AllValues (λ h. h.fencing_token < k) d
AllBelow-mono n k [] h p = tt
AllBelow-mono n k (e ∷ d) h p = (omega arith, AllBelow-mono n k d h p.1)

AllBelow-erase :
    (n : ℕ) (r : String) (d : Dict String Holding)
    → AllValues (λ h. h.fencing_token < n) d
    → AllValues (λ h. h.fencing_token < n) (erase r d)
AllBelow-erase n r [] p = tt
AllBelow-erase n r ((j, h) ∷ d) p = ground (arith, AllBelow-erase n r d p.1)

Holds-below :
    (now : ℕ) (l : Lease) (m : LeaseManager)
    → IsFenced m
    → Holds now l m
    → l.fencing_token < m.token
Holds-below now l m f g =
    let (h, found, live, own, tok) = Holds-entry now l m g in
    rw tok at (AllValues-lookup (λ h. h.fencing_token < m.token) l.resource h m.held f found)

acquire-IsFenced :
    (now : ℕ) (resource owner : String) (ttl : ℕ) (m : LeaseManager)
    → IsFenced m
    → IsFenced (acquire now resource owner ttl m).1
unfolding acquire
acquire-IsFenced now resource owner ttl m f =
    elim (Bool-cases (blocks (lookup resource m.held) now owner)) [
      | inl blocked ↦ rw blocked f
      | inr free ↦ rw free (
          AllValues-insert (λ h. h.fencing_token < m.token + 1) resource _ m.held
            (AllBelow-mono m.token (m.token + 1) m.held (omega arith) f) (omega arith))
    ]

step-IsFenced : (c : Call) (m : LeaseManager) → IsFenced m → IsFenced (step c m)
unfolding step renew release
step-IsFenced (acquires now resource owner ttl) m f = acquire-IsFenced now resource owner ttl m f
step-IsFenced (renews now l ttl) m f =
    elim (Bool-cases (is_holder (lookup l.resource m.held) now l)) [
      | inl good ↦ rw good (
          AllValues-insert (λ h. h.fencing_token < m.token) l.resource _ m.held f
            (Holds-below now l m f good))
      | inr bad ↦ rw bad f
    ]
step-IsFenced (releases now l) m f =
    elim (Bool-cases (is_holder (lookup l.resource m.held) now l)) [
      | inl good ↦ rw good (AllBelow-erase m.token l.resource m.held f)
      | inr bad ↦ rw bad f
    ]

run-IsFenced : (cs : List Call) (m : LeaseManager) → IsFenced m → IsFenced (run cs m)
unfolding run
run-IsFenced [] m f = f
run-IsFenced (c ∷ cs) m f = run-IsFenced cs (step c m) (step-IsFenced c m f)

release_self-IsLost :
    (now : ℕ) (l : Lease) (m : LeaseManager)
    → IsFenced m
    → Holds now l m
    → IsLost l (after m (release now l m))
unfolding release
release_self-IsLost now l m f g =
    rw g (Holds-below now l m f g, rw (lookup-erase_self l.resource m.held) tt)

replaced-IsLost :
    (now later : ℕ) (l k : Lease) (owner : String) (ttl : ℕ) (m m' : LeaseManager)
    → IsFenced m
    → Holds now l m
    → acquire later l.resource owner ttl m ≡ (some k, m')
    → IsLost l m'
unfolding acquire
replaced-IsLost now later l k owner ttl m m' f g granted =
    elim (Bool-cases (blocks (lookup l.resource m.held) later owner)) [
      | inl blocked ↦ ground arith
      | inr free ↦
          let new : Holding = record {
            owner = owner;
            fencing_token = m.token;
            expires_at = later + ttl;
          } in
          let lost : IsLost l
              (record { token = m.token + 1; held = insert l.resource new m.held }) =
            (
              let below = Holds-below now l m f g in omega arith,
              rw (lookup-insert_self l.resource new m.held)
                  (let below = Holds-below now l m f g in omega arith),
            ) in
          let moved : IsLost l (acquire later l.resource owner ttl m).1 = rw free lost in
          subst (IsLost l) (ap (λ (p : Option Lease × LeaseManager). p.1) granted) moved
    ]

-- A lease that is good at some moment of a new manager's history, and is then released, or whose
-- resource is acquired again by anybody, is not good again at any time, whatever calls follow.
pub lost_forever :
    (before more : List Call) (now later t : ℕ) (l k : Lease) (owner : String) (ttl : ℕ)
    (m' : LeaseManager)
    → Holds now l (run before init)
    → acquire later l.resource owner ttl (run before init) ≡ (some k, m')
    → (¬ Holds t l (run more (after (run before init) (release now l (run before init)))))
      × (¬ Holds t l (run more m'))
lost_forever before more now later t l k owner ttl m' g granted =
    let f = run-IsFenced before init tt in
    (
      IsLost-not-Holds t l _
          (run-IsLost l more _ (release_self-IsLost now l (run before init) f g)),
      IsLost-not-Holds t l _ (
          run-IsLost l more _
            (replaced-IsLost now later l k owner ttl (run before init) m' f g granted)),
    )
