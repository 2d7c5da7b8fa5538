-- ===== src/Capacity/Laws.antt =====
-- What the signals of core/routing/capacity.py exclude, for how long, and whom.
use general_ai_core.Prelude.{
  not, ℕ, suc, ◌+◌, ◌<◌, ◌≡◌, ◌⊎◌, inl, inr, refl, sym, Bool, true, false, ◌&&◌, Option, none, some,
  String, arith, Dict, lookup, insert, ◌==◌, nat_eq, string_eq, pair_eq, if◌then◌else◌, Bool-cases,
  Option-cases, lookup-insert, get_or, ◌*◌, beq_self, ltb,
}
use general_ai_core.Prelude.Int.{pos}
use general_ai_core.Prelude.Json.{Json, number}
use general_ai_core.Capacity.{
  ProviderErrorCategory, auth_expired, invalid_credential, rate_limited, quota_exceeded,
  model_unavailable, provider_unavailable, unsupported_capability, bad_request, content_rejected,
  timeout, retryable_server_error, non_retryable_error, ProviderError, Signal, Board, fresh_signal,
  is_stale, declared_rpm, rpm_of, rpm_check, cooldown_check, signal_eligibility, eligibility_of,
  eligibility, record_success, record_error, is_cooldown, is_unavailable, wait_of,
}

abbrev pub answer : ℕ → ℕ × ℕ → Option (Dict String Json) → Board → Bool
answer now k limits b = (eligibility now k limits b).0.eligible

-- A time that is still to come.
abbrev pub is_ahead : ℕ → Option ℕ → Bool
is_ahead now none = false
is_ahead now (some until) = ltb now until

-- The requests that count at `now`: those of the window, unless it has passed.
abbrev pub used_at : ℕ → Signal → ℕ
used_at now r = if is_stale now r.window_start then 0 else r.rpm_used

abbrev pub within_budget : Option ℕ → ℕ → Bool
within_budget none n = true
within_budget (some limit) n = ltb n limit

-- Eligible: no outage and no cooldown that is still running, and requests left in the window.
abbrev pub is_eligible : ℕ → Option ℕ → Signal → Bool
is_eligible now limit r =
    not (is_ahead now r.unavailable_until)
    && (not (is_ahead now r.cooldown_until) && within_budget limit (used_at now r))

abbrev pub signal_at : ℕ × ℕ → Board → Signal
signal_at k b = get_or (lookup k b.records) fresh_signal

rpm_check_lem :
    (now : ℕ) (limit : Option ℕ) (r : Signal)
    → (rpm_check now limit r).0.eligible ≡ within_budget limit (used_at now r)
unfolding rpm_check
rpm_check_lem now none r = refl
rpm_check_lem now (some limit) r = ground arith

cooldown_check_lem :
    (now : ℕ) (limit until : Option ℕ) (r : Signal)
    → (cooldown_check now limit until r).0.eligible
      ≡ (not (is_ahead now until) && within_budget limit (used_at now r))
unfolding cooldown_check
cooldown_check_lem now limit none r = rpm_check_lem now limit r
cooldown_check_lem now limit (some until) r = elim (Bool-cases (ltb now until)) [
  | inl early ↦ rw early refl
  | inr late ↦ rw late (rpm_check_lem now limit (record r { cooldown_until = none }))
]

signal_eligibility_lem :
    (now : ℕ) (limit until : Option ℕ) (r : Signal)
    → (signal_eligibility now limit until r).0.eligible ≡ (
        not (is_ahead now until)
        && (not (is_ahead now r.cooldown_until) && within_budget limit (used_at now r)))
unfolding signal_eligibility
signal_eligibility_lem now limit none r = cooldown_check_lem now limit r.cooldown_until r
signal_eligibility_lem now limit (some until) r = elim (Bool-cases (ltb now until)) [
  | inl early ↦ rw early refl
  | inr late ↦
      rw late
        (cooldown_check_lem now limit r.cooldown_until (record r { unavailable_until = none }))
]

rpm_of_positive : (j : Option Json) → within_budget (rpm_of j) 0 ≡ true
rpm_of_positive (some (number (pos (suc n)))) = ground arith
rpm_of_positive _ = refl

declared_positive :
    (limits : Option (Dict String Json)) → within_budget (declared_rpm limits) 0 ≡ true
declared_positive none = refl
declared_positive (some limits) = rpm_of_positive (lookup "rpm" limits)

eligibility_of_lem :
    (now : ℕ) (k : ℕ × ℕ) (limit : Option ℕ) (o : Option Signal) (b : Board)
    → within_budget limit 0 ≡ true
    → (eligibility_of now k limit o b).0.eligible ≡ is_eligible now limit (get_or o fresh_signal)
eligibility_of_lem now k limit none b h = sym h
eligibility_of_lem now k limit (some r) b h = signal_eligibility_lem now limit r.unavailable_until r

-- A pair is eligible exactly when no outage and no cooldown recorded for it is still running and,
-- where a request budget is declared, fewer requests than it were counted in the running window; a
-- pair with no record is eligible.
pub eligibility_exactly :
    (now : ℕ) (k : ℕ × ℕ) (limits : Option (Dict String Json)) (b : Board)
    → answer now k limits b ≡ is_eligible now (declared_rpm limits) (signal_at k b)
unfolding eligibility
eligibility_exactly now k limits b =
    eligibility_of_lem now k (declared_rpm limits) (lookup k b.records) b (declared_positive limits)

pub signal_at-insert :
    (k j : ℕ × ℕ) (r : Signal) (b : Board)
    → signal_at j (record b { records = insert k r b.records })
      ≡ (if k == j then r else signal_at j b)
signal_at-insert k j r b = ground (arith, lookup-insert k j r b.records)

-- For how many milliseconds an error of a category excludes its provider and model: a rate limit or a quota
-- for the time that the provider named, or the default one; an outage, an expired or an invalid credential
-- for the board's time of outages; other errors not at all.
abbrev pub excluded_ms : Board → ProviderErrorCategory → Option ℕ → Option ℕ
excluded_ms b rate_limited (some ms) = some ms
excluded_ms b rate_limited none = some b.default_cooldown_ms
excluded_ms b quota_exceeded (some ms) = some ms
excluded_ms b quota_exceeded none = some b.default_cooldown_ms
excluded_ms b provider_unavailable ms = some b.default_unavailable_ms
excluded_ms b auth_expired ms = some b.default_unavailable_ms
excluded_ms b invalid_credential ms = some b.default_unavailable_ms
excluded_ms b model_unavailable ms = none
excluded_ms b unsupported_capability ms = none
excluded_ms b bad_request ms = none
excluded_ms b content_rejected ms = none
excluded_ms b timeout ms = none
excluded_ms b retryable_server_error ms = none
excluded_ms b non_retryable_error ms = none

-- The code's two groups of categories, and its waiting time.
excluded_ms_lem :
    (b : Board) (c : ProviderErrorCategory) (a : Option ℕ) (ms : ℕ)
    → excluded_ms b c a ≡ some ms
    → ((is_cooldown c ≡ true) × (wait_of a b.default_cooldown_ms ≡ ms))
      ⊎ ((is_cooldown c ≡ false) × (is_unavailable c ≡ true) × (b.default_unavailable_ms ≡ ms))
excluded_ms_lem b rate_limited (some x) ms h = inl (refl, cc)
excluded_ms_lem b rate_limited none ms h = inl (refl, cc)
excluded_ms_lem b quota_exceeded (some x) ms h = inl (refl, cc)
excluded_ms_lem b quota_exceeded none ms h = inl (refl, cc)
excluded_ms_lem b provider_unavailable a ms h = inr (refl, refl, cc)
excluded_ms_lem b auth_expired a ms h = inr (refl, refl, cc)
excluded_ms_lem b invalid_credential a ms h = inr (refl, refl, cc)
excluded_ms_lem b _ a ms h = ground arith

-- An error excludes its provider and model from that moment until the time of its category has passed,
-- whatever limits are declared: a rate limit or an exhausted quota for the time the provider named, or the
-- default one, an outage or a credential that is expired or invalid for the board's time of outages.
pub error_excludes :
    (now later : ℕ) (k : ℕ × ℕ) (e : ProviderError) (limits : Option (Dict String Json)) (b : Board)
    (ms : ℕ)
    → excluded_ms b e.category e.retry_after_ms ≡ some ms
    → later < now + ms * 1000
    → answer later k limits (record_error now k e b) ≡ false
unfolding record_error
error_excludes now later k e limits b ms signals before =
    rw (eligibility_exactly later k limits (record_error now k e b))
      (elim (excluded_ms_lem b e.category e.retry_after_ms ms signals) [
        | inl (cools, wait) ↦
            let r : Signal = record (signal_at k b) {
              cooldown_until = some (now + ms * 1000);
              last_category = some e.category;
            } in
            rw cools (rw wait (rw (signal_at-insert k k r b) (rw (beq_self k) (ground arith))))
        | inr (no_cooldown, down, wait) ↦
            let r : Signal = record (signal_at k b) {
              unavailable_until = some (now + ms * 1000);
              last_category = some e.category;
            } in
            rw no_cooldown
              (rw down (rw wait (rw (signal_at-insert k k r b) (rw (beq_self k) (ground arith)))))
      ])

-- A success lifts every exclusion of the pair at once: only the declared request budget is left.
pub success_clears :
    (now : ℕ) (k : ℕ × ℕ) (limits : Option (Dict String Json)) (b : Board)
    → answer now k limits (record_success k b)
      ≡ within_budget (declared_rpm limits) (used_at now (signal_at k b))
unfolding record_success
success_clears now k limits b =
    rw (eligibility_exactly now k limits (record_success k b))
      (elim (Option-cases (lookup k b.records)) [
        | inl absent ↦ rw absent (rw absent refl)
        | inr (r, found) ↦ rw found (
            rw
              (signal_at-insert k k
                (record r { cooldown_until = none; unavailable_until = none; last_category = none })
                b)
              (rw (beq_self k) refl))
      ])
