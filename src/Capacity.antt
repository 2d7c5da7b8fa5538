-- ===== src/Capacity.antt =====
-- core/routing/capacity.py: the board of resource signals by provider and model. Times are whole
-- microseconds of the injected clock, passed in as `now`.
pub mod Laws
pub mod Window
mod Examples
use general_ai_core.Prelude.{
  ◌↔◌, not, nat_beq, ℕ, zero, suc, ◌+◌, ◌-◌, ◌≤◌, ◌<◌, ◌≡◌, ◌≢◌, ◌⊎◌, inl, inr, refl, sym, ap, Bool,
  true, false, ◌&&◌, ◌||◌, Option, none, some, String, List, [], ◌∷◌, ◌++◌, arith, Dict, lookup,
  insert, erase, contains, ◌==◌, nat_eq, string_eq, pair_eq, concat, if◌then◌else◌, is_some, Result,
  ok, err, ◌>>=◌, ◌>>◌, raise_if, or_raise, after, Bool-cases, Option-cases, Result-cases,
  lookup-insert, lookup-insert_self, lookup-insert_ne, lookup-erase, lookup-erase_self, false≢true,
  ◌∙◌, subst, take, drop, keep, member, take-append-drop, length-append, get_or, values, keys, map,
  ◌*◌, ◌/◌, max, beq_self, beq_ne, Eq, length, ltb, leb, All,
}
use general_ai_core.Prelude.Int.{ℤ, pos, negsuc}
use general_ai_core.Prelude.Json.{Json, boolean, number}

-- core/contracts/provider.py
pub data ProviderErrorCategory : Type 0 where
  auth_expired invalid_credential rate_limited quota_exceeded model_unavailable provider_unavailable
        unsupported_capability bad_request content_rejected timeout retryable_server_error
        non_retryable_error :
      ProviderErrorCategory

pub record ProviderError : Type 0 where
  pub category : ProviderErrorCategory
  pub retryable : Bool
  pub retry_after_ms : Option ℕ
  pub provider_code : Option String
  pub safe_message : String

-- The text of a reason is left out: its parts are kept.
pub data Reason : Type 0 where
  unavailable cooldown : Option ProviderErrorCategory → Reason
  rpm_exhausted : ℕ → ℕ → Reason

pub record Eligibility : Type 0 where
  pub eligible : Bool
  pub reason : Option Reason
  pub retry_after_ms : Option ℕ

-- `_Record`, without its unused `extra`
pub record Signal : Type 0 where
  pub cooldown_until : Option ℕ
  pub unavailable_until : Option ℕ
  pub last_category : Option ProviderErrorCategory
  pub window_start : Option ℕ
  pub rpm_used : ℕ
  pub rpm_limit : Option ℕ

abbrev pub fresh_signal : Signal
fresh_signal = record {
  cooldown_until = none;
  unavailable_until = none;
  last_category = none;
  window_start = none;
  rpm_used = 0;
  rpm_limit = none;
}

-- `ResourceSignalBoard`: the two defaults, and the records by provider and model.
pub record Board : Type 0 where
  pub default_cooldown_ms : ℕ
  pub default_unavailable_ms : ℕ
  pub records : Dict (ℕ × ℕ) Signal

-- RPM_WINDOW_SECONDS, in microseconds.
abbrev pub rpm_window : ℕ
rpm_window = 60000000

abbrev pub ms_until : ℕ → ℕ → ℕ
ms_until now when = (when - now) / 1000

-- `_declared_rpm`: a positive integer that is no boolean.
abbrev pub rpm_of : Option Json → Option ℕ
rpm_of (some (number (pos (suc n)))) = some (suc n)
rpm_of _ = none

abbrev pub declared_rpm : Option (Dict String Json) → Option ℕ
declared_rpm none = none
declared_rpm (some limits) = rpm_of (lookup "rpm" limits)

-- `window_start is None or now - window_start >= 60 s`
abbrev pub is_stale : ℕ → Option ℕ → Bool
is_stale now none = true
is_stale now (some start) = leb (start + rpm_window) now

unfoldable pub roll_window : ℕ → Signal → Signal
roll_window now r =
    if is_stale now r.window_start then record r { window_start = some now; rpm_used = 0 } else r

abbrev pub ineligible : Reason → ℕ → Eligibility
ineligible reason wait = record {
  eligible = false;
  reason = some reason;
  retry_after_ms = some wait;
}

abbrev pub eligible_now : Eligibility
eligible_now = record { eligible = true; reason = none; retry_after_ms = none }

-- The last check: the budget of the window.
abbrev pub window_end : Option ℕ → ℕ
window_end none = rpm_window
window_end (some start) = start + rpm_window

unfoldable pub rpm_check : ℕ → Option ℕ → Signal → Eligibility × Signal
unfolding roll_window
rpm_check now none r = (eligible_now, r)
rpm_check now (some limit) r =
    let rolled = roll_window now r in
    if leb limit rolled.rpm_used
    then (
      ineligible (rpm_exhausted rolled.rpm_used limit)
          (ms_until now (window_end rolled.window_start)),
      rolled,
    )
    else (eligible_now, rolled)

-- A time that has come is cleared and the next check is made; one to come refuses.
unfoldable pub cooldown_check : ℕ → Option ℕ → Option ℕ → Signal → Eligibility × Signal
unfolding rpm_check
cooldown_check now limit none r = rpm_check now limit r
cooldown_check now limit (some until) r =
    if ltb now until
    then (ineligible (cooldown r.last_category) (ms_until now until), r)
    else rpm_check now limit (record r { cooldown_until = none })

unfoldable pub signal_eligibility : ℕ → Option ℕ → Option ℕ → Signal → Eligibility × Signal
unfolding cooldown_check
signal_eligibility now limit none r = cooldown_check now limit r.cooldown_until r
signal_eligibility now limit (some until) r =
    if ltb now until
    then (ineligible (unavailable r.last_category) (ms_until now until), r)
    else cooldown_check now limit r.cooldown_until (record r { unavailable_until = none })

abbrev pub store : ℕ × ℕ → Board → Eligibility × Signal → Eligibility × Board
store k b (e, r) = (e, record b { records = insert k r b.records })

abbrev pub eligibility_of : ℕ → ℕ × ℕ → Option ℕ → Option Signal → Board → Eligibility × Board
eligibility_of now k limit none b = (eligible_now, b)
eligibility_of now k limit (some r) b =
    store k b (signal_eligibility now limit r.unavailable_until r)

unfoldable pub eligibility : ℕ → ℕ × ℕ → Option (Dict String Json) → Board → Eligibility × Board
unfolding signal_eligibility
eligibility now k limits b = eligibility_of now k (declared_rpm limits) (lookup k b.records) b

unfoldable pub record_attempt : ℕ → ℕ × ℕ → Option (Dict String Json) → Board → Board
unfolding roll_window
record_attempt now k limits b =
    let r : Signal = get_or (lookup k b.records) fresh_signal in
    let rolled = roll_window now (record r { rpm_limit = declared_rpm limits }) in
    record b { records = insert k (record rolled { rpm_used = rolled.rpm_used + 1 }) b.records }

abbrev cleared : ℕ × ℕ → Option Signal → Board → Board
cleared k none b = b
cleared k (some r) b = record b {
  records =
      insert k (record r { cooldown_until = none; unavailable_until = none; last_category = none })
        b.records;
}

unfoldable pub record_success : ℕ × ℕ → Board → Board
record_success k b = cleared k (lookup k b.records) b

-- `category in _COOLDOWN_CATEGORIES`, `category in _UNAVAILABLE_CATEGORIES`
abbrev pub is_cooldown : ProviderErrorCategory → Bool
is_cooldown rate_limited = true
is_cooldown quota_exceeded = true
is_cooldown _ = false

abbrev pub is_unavailable : ProviderErrorCategory → Bool
is_unavailable provider_unavailable = true
is_unavailable auth_expired = true
is_unavailable invalid_credential = true
is_unavailable _ = false

-- `retry_after_ms`, or the default when the provider gave none.
abbrev pub wait_of : Option ℕ → ℕ → ℕ
wait_of none d = d
wait_of (some ms) d = ms

unfoldable pub record_error : ℕ → ℕ × ℕ → ProviderError → Board → Board
record_error now k e b =
    let r : Signal = get_or (lookup k b.records) fresh_signal in
    if is_cooldown e.category
    then record b {
      records =
          insert k
            (record r {
              cooldown_until = some (now + wait_of e.retry_after_ms b.default_cooldown_ms * 1000);
              last_category = some e.category;
            })
            b.records;
    }
    else if is_unavailable e.category
    then record b {
      records =
          insert k
            (record r {
              unavailable_until = some (now + b.default_unavailable_ms * 1000);
              last_category = some e.category;
            })
            b.records;
    }
    else b
