-- ===== src/Capacity/Window.antt =====
-- The request budget of core/routing/capacity.py: attempts counted in a fixed window.
use general_ai_core.Prelude.{
  ℕ, suc, ◌+◌, ◌≤◌, ◌<◌, ◌≡◌, inl, inr, refl, Option, none, some, String, List, [], ◌∷◌, arith,
  Dict, lookup, insert, ◌==◌, nat_eq, string_eq, pair_eq, if◌then◌else◌, Bool-cases, Option-cases,
  ◌∙◌, beq_self, length, ltb, All,
}
use general_ai_core.Prelude.Json.{Json}
use general_ai_core.Capacity.{
  Signal, Board, is_stale, rpm_window, declared_rpm, roll_window, eligibility, record_attempt,
  rpm_check, cooldown_check, signal_eligibility,
}
use general_ai_core.Capacity.Laws.{
  answer, is_eligible, signal_at, signal_at-insert, eligibility_exactly,
}

-- Attempts of one pair at the given times.
pub attempts : List ℕ → ℕ × ℕ → Option (Dict String Json) → Board → Board
attempts [] k limits b = b
attempts (t ∷ ts) k limits b = attempts ts k limits (record_attempt t k limits b)

-- A window that began at `start` and has counted `n` requests, with no exclusion.
abbrev pub Counting : ℕ → ℕ → Signal → Type 0
Counting start n r =
    (r.window_start ≡ some start)
    × (r.rpm_used ≡ n)
    × (r.unavailable_until ≡ none)
    × (r.cooldown_until ≡ none)

signal_at-record_attempt :
    (t : ℕ) (k : ℕ × ℕ) (limits : Option (Dict String Json)) (b : Board)
    → signal_at k (record_attempt t k limits b) ≡ (
        let rolled = roll_window t (record (signal_at k b) { rpm_limit = declared_rpm limits }) in
        record rolled { rpm_used = rolled.rpm_used + 1 })
unfolding record_attempt
signal_at-record_attempt t k limits b = rw (signal_at-insert k k _ b) (rw (beq_self k) refl)

attempt-Counting :
    (start t n : ℕ) (k : ℕ × ℕ) (limits : Option (Dict String Json)) (b : Board)
    → t < start + rpm_window
    → Counting start n (signal_at k b)
    → Counting start (n + 1) (signal_at k (record_attempt t k limits b))
unfolding roll_window
attempt-Counting start t n k limits b before c =
    rw (signal_at-record_attempt t k limits b) (ground arith)

first-Counting :
    (t : ℕ) (k : ℕ × ℕ) (limits : Option (Dict String Json)) (b : Board)
    → lookup k b.records ≡ none
    → Counting t 1 (signal_at k (record_attempt t k limits b))
unfolding roll_window
first-Counting t k limits b absent =
    rw (signal_at-record_attempt t k limits b) (rw absent (refl, refl, refl, refl))

attempts-Counting :
    (start n : ℕ) (ts : List ℕ) (k : ℕ × ℕ) (limits : Option (Dict String Json)) (b : Board)
    → All (λ t. t < start + rpm_window) ts
    → Counting start n (signal_at k b)
    → Counting start (n + length ts) (signal_at k (attempts ts k limits b))
unfolding attempts
attempts-Counting start n [] k limits b h c = ground arith
attempts-Counting start n (t ∷ ts) k limits b h c =
    rw (let shift : n + suc (length ts) ≡ (n + 1) + length ts = omega arith in shift) (
      attempts-Counting start (n + 1) ts k limits (record_attempt t k limits b) h.1
        (attempt-Counting start t n k limits b h.0 c))

-- With a declared budget, a pair that had no record and has made attempts within one window of its
-- first one is eligible at a time in that window exactly while the attempts are fewer than the
-- budget, and it is eligible again when the window has passed.
pub attempts_budget :
    (start now : ℕ) (ts : List ℕ) (k : ℕ × ℕ) (limits : Option (Dict String Json)) (limit : ℕ)
    (b : Board)
    → declared_rpm limits ≡ some limit
    → lookup k b.records ≡ none
    → All (λ t. t < start + rpm_window) ts
    → answer now k limits (attempts (start ∷ ts) k limits b)
      ≡ (if ltb now (start + rpm_window) then ltb (suc (length ts)) limit else ltb 0 limit)
unfolding attempts
attempts_budget start now ts k limits limit b declared absent h =
    let c =
      attempts-Counting start 1 ts k limits (record_attempt start k limits b) h
        (first-Counting start k limits b absent) in
    rw (eligibility_exactly now k limits (attempts ts k limits (record_attempt start k limits b)))
      (rw declared (ground (arith, c)))

module _ (now later : ℕ) (limit : Option ℕ) (h : now ≤ later) where
  rpm_check_keeps :
      (o : Option ℕ) (r : Signal)
      → is_eligible later limit (rpm_check now o r).1 ≡ is_eligible later limit r
  unfolding rpm_check
  rpm_check_keeps none r = refl
  rpm_check_keeps (some l) r = elim (Bool-cases (is_stale now r.window_start)) [
    | inl stale ↦ ground (arith, stale)
    | inr running ↦ ground (arith, running)
  ]

  cooldown_check_keeps :
      (o until : Option ℕ) (r : Signal)
      → r.cooldown_until ≡ until
      → is_eligible later limit (cooldown_check now o until r).1 ≡ is_eligible later limit r
  unfolding cooldown_check
  cooldown_check_keeps o none r e = rpm_check_keeps o r
  cooldown_check_keeps o (some until) r e = elim (Bool-cases (ltb now until)) [
    | inl early ↦ rw early refl
    | inr late ↦ rw late (rpm_check_keeps o (record r { cooldown_until = none }) ∙ ground arith)
  ]

  signal_eligibility_keeps :
      (o until : Option ℕ) (r : Signal)
      → r.unavailable_until ≡ until
      → is_eligible later limit (signal_eligibility now o until r).1 ≡ is_eligible later limit r
  unfolding signal_eligibility
  signal_eligibility_keeps o none r e = cooldown_check_keeps o r.cooldown_until r refl
  signal_eligibility_keeps o (some until) r e = elim (Bool-cases (ltb now until)) [
    | inl early ↦ rw early refl
    | inr late ↦ rw late (
        cooldown_check_keeps o r.cooldown_until (record r { unavailable_until = none }) refl
        ∙ ground arith)
  ]

-- Asking for one pair changes no later answer, for it or for any other pair, though the call clears
-- what has expired and may begin a new window.
pub answer-eligibility :
    (now later : ℕ) (k j : ℕ × ℕ) (limits others : Option (Dict String Json)) (b : Board)
    → now ≤ later
    → answer later j others (eligibility now k limits b).1 ≡ answer later j others b
unfolding eligibility
answer-eligibility now later k j limits others b h = elim (Option-cases (lookup k b.records)) [
  | inl absent ↦ rw absent refl
  | inr (r, found) ↦
      let s : Signal = (signal_eligibility now (declared_rpm limits) r.unavailable_until r).1 in
      let kept =
        signal_eligibility_keeps now later (declared_rpm others) h (declared_rpm limits)
          r.unavailable_until r refl in
      rw found (
        rw (eligibility_exactly later j others (record b { records = insert k s b.records })) (
          rw (eligibility_exactly later j others b) (
            rw (signal_at-insert k j s b) (elim (Bool-cases (k == j)) [
              | inl same ↦ rw same (rw (← (pair_eq.beq_iff k j).0 same) (rw found kept))
              | inr other ↦ rw other refl
            ]))))
]
