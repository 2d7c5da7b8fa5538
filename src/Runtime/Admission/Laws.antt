-- ===== src/Runtime/Admission/Laws.antt =====
-- What the front door of core/runtime/admission.py lets in, and what it counts.
use general_ai_core.Prelude.{
  ℕ, ◌+◌, ◌-◌, ◌≤◌, ◌<◌, ◌≡◌, ◌⊎◌, inl, inr, true, false, ◌&&◌, Option, some, String, List, [], ◌∷◌,
  arith, lookup, ◌==◌, nat_eq, string_eq, pair_eq, concat, if◌then◌else◌, Result, ok, err,
  Bool-cases, Result-cases, lookup-insert, get_or, beq_self, ltb,
}
use general_ai_core.Runtime.Admission.{
  RateLimitPort, AdmissionDecision, Counts, depth, enqueued, settled, over_depth, refused, allowed,
  within_window, admit, in_flight, try_start, finish,
}

pub depth-enqueued :
    (stream k : String) (g : Counts)
    → depth k (enqueued stream g) ≡ (if stream == k then depth stream g + 1 else depth k g)
unfolding depth enqueued
depth-enqueued stream k g =
    ground (arith, lookup-insert stream k (get_or (lookup stream g) 0 + 1) g)

-- Settling takes one from the stream's depth and stops at zero; other streams keep theirs.
pub depth-settled :
    (stream k : String) (g : Counts)
    → depth k (settled stream g) ≡ (if stream == k then depth stream g - 1 else depth k g)
unfolding depth settled
depth-settled stream k g =
    ground
      (arith, string_eq.beq_iff stream k, lookup-insert stream k (get_or (lookup stream g) 0 - 1) g)

module _ (port : RateLimitPort) (stream tenant : String) (max_depth tenant_limit : Option ℕ)
    (width : ℕ) (r : port.State) (g : Counts) where
  -- The two gates in their order.
  abbrev pub Outcome : AdmissionDecision → port.State → Counts → Type 0
  Outcome d r' g' =
      ((over_depth max_depth (depth stream g) ≡ true)
        × (d ≡ refused (concat "queue_limit:" stream))
        × (r' ≡ r)
        × (g' ≡ g))
      ⊎ ((over_depth max_depth (depth stream g) ≡ false)
          × (within_window port tenant tenant_limit width r ≡ ok (false, r'))
          × (d ≡ refused (concat "tenant_window:" tenant))
          × (g' ≡ g))
      ⊎ ((over_depth max_depth (depth stream g) ≡ false)
          × (within_window port tenant tenant_limit width r ≡ ok (true, r'))
          × (d ≡ allowed)
          × (g' ≡ enqueued stream g))

  -- A call of `admit` that returns has gone one of these three ways: a full queue refuses with no hit
  -- of the tenant's window, a window that is used up refuses and counts nothing in the queue, else
  -- the call is let in and one is counted.
  pub admit-Outcome :
      (d : AdmissionDecision) (r' : port.State) (g' : Counts)
      → admit port stream tenant max_depth tenant_limit width (r, g) ≡ ok (d, r', g')
      → Outcome d r' g'
  unfolding admit
  admit-Outcome d r' g' h = elim (Bool-cases (over_depth max_depth (get_or (lookup stream g) 0))) [
    | inl full ↦ inl (full, ground arith, ground arith, ground arith)
    | inr room ↦ elim (Result-cases (within_window port tenant tenant_limit width r)) [
      | inl ((within, r''), hit) ↦ elim (Bool-cases within) [
        | inl good ↦ inr (inr (room, ground arith, ground arith, ground arith))
        | inr bad ↦ inr (inl (room, ground arith, ground arith, ground arith))
      ]
      | inr (e, fault) ↦ ground arith
    ]
  ]

-- The events of one queue behind a front door with a depth limit: calls of `admit` for its stream,
-- by any tenant, and settled work.
pub data Event : Type 0 where
  admits : String → Option ℕ → ℕ → Event
  settles : Event

module _ (port : RateLimitPort) (stream : String) (limit : ℕ) where
  -- A fault of the port leaves the gauge as it was.
  abbrev counted : Counts → Result port.Fault (AdmissionDecision × port.State × Counts) → Counts
  counted g (ok (d, r', g')) = g'
  counted g (err e) = g

  abbrev limited :
      port.State → Result port.Fault (AdmissionDecision × port.State × Counts) → port.State
  limited r (ok (d, r', g')) = r'
  limited r (err e) = r

  pub door : List Event → port.State → Counts → Counts
  unfolding admit settled
  door [] r g = g
  door (admits tenant tenant_limit width ∷ es) r g =
      let outcome = admit port stream tenant (some limit) tenant_limit width (r, g) in
      door es (limited r outcome) (counted g outcome)
  door (settles ∷ es) r g = door es r (settled stream g)

  admit_bounded :
      (tenant : String) (tenant_limit : Option ℕ) (width : ℕ) (r : port.State) (g : Counts)
      → depth stream g ≤ limit
      → depth stream (counted g (admit port stream tenant (some limit) tenant_limit width (r, g)))
        ≤ limit
  admit_bounded tenant tenant_limit width r g h =
      elim (Result-cases (admit port stream tenant (some limit) tenant_limit width (r, g))) [
        | inl ((d, r', g'), done) ↦ rw done (
            ground (
              arith,
              beq_self stream,
              depth-enqueued stream stream g,
              admit-Outcome port stream tenant (some limit) tenant_limit width r g d r' g' done,
            ))
        | inr (e, fault) ↦ rw fault h
      ]

  -- When calls of `admit` and settled work come one after another, in any order, and whatever the
  -- rate limiter answers, the depth of a stream that is within its queue limit stays within it.
  pub door_bounded :
      (es : List Event) (r : port.State) (g : Counts)
      → depth stream g ≤ limit
      → depth stream (door es r g) ≤ limit
  unfolding door
  door_bounded [] r g h = h
  door_bounded (admits tenant tenant_limit width ∷ es) r g h =
      door_bounded es _ _ (admit_bounded tenant tenant_limit width r g h)
  door_bounded (settles ∷ es) r g h =
      door_bounded es r (settled stream g)
        (ground (arith, beq_self stream, depth-settled stream stream g))

-- The starts and finishes of work under a ceiling that depends on the scope alone.
pub data Work : Type 0 where
  starts finishes : String → Work

pub work : (String → ℕ) → List Work → Counts → Counts
work limit [] c = c
work limit (starts scope ∷ ws) c = work limit ws (try_start scope (limit scope) c).1
work limit (finishes scope ∷ ws) c = work limit ws (finish scope c)

-- A slot is given exactly when fewer than the limit are in flight, and then one more is; a refusal
-- changes nothing.
pub try_start_counts :
    (scope k : String) (limit : ℕ) (c : Counts)
    → ((try_start scope limit c).0 ≡ ltb (in_flight scope c) limit)
      × (in_flight k (try_start scope limit c).1 ≡ (
          if scope == k && ltb (in_flight scope c) limit
          then in_flight scope c + 1
          else in_flight k c))
unfolding try_start in_flight
try_start_counts scope k limit c =
    (ground arith, ground (arith, lookup-insert scope k (get_or (lookup scope c) 0 + 1) c))

finish_counts :
    (scope k : String) (c : Counts)
    → in_flight k (finish scope c) ≡ (if scope == k then in_flight scope c - 1 else in_flight k c)
unfolding finish in_flight
finish_counts scope k c =
    ground
      (arith, string_eq.beq_iff scope k, lookup-insert scope k (get_or (lookup scope c) 0 - 1) c)

-- The slot that was given comes back: starting and finishing leave every scope's count as it was.
pub finish-try_start :
    (scope k : String) (limit : ℕ) (c : Counts)
    → in_flight scope c < limit
    → in_flight k (finish scope (try_start scope limit c).1) ≡ in_flight k c
finish-try_start scope k limit c h = ground (
  arith,
  finish_counts scope k (try_start scope limit c).1,
  (try_start_counts scope k limit c).1,
  (try_start_counts scope scope limit c).1,
  string_eq.beq_iff scope k,
  beq_self scope,
)

-- No scope ever has more in flight than its limit, whatever starts and finishes come, also finishes
-- of work that was never started.
pub work_bounded :
    (limit : String → ℕ) (ws : List Work) (c : Counts) (k : String)
    → in_flight k c ≤ limit k
    → in_flight k (work limit ws c) ≤ limit k
unfolding work
work_bounded limit [] c k h = h
work_bounded limit (starts scope ∷ ws) c k h =
    work_bounded limit ws (try_start scope (limit scope) c).1 k
      (ground (arith, (try_start_counts scope k (limit scope) c).1, string_eq.beq_iff scope k))
work_bounded limit (finishes scope ∷ ws) c k h =
    work_bounded limit ws (finish scope c) k
      (ground (arith, finish_counts scope k c, string_eq.beq_iff scope k))
