-- ===== src/Runtime/Cache/Laws.antt =====
-- What a read of the cache sees.
use general_ai_core.Prelude.{
  ℕ, ◌+◌, ◌≤◌, ◌≡◌, inl, inr, refl, ◌&&◌, none, some, String, arith, lookup, ◌==◌, nat_eq,
  string_eq, pair_eq, if◌then◌else◌, Bool-cases, Option-cases, lookup-insert, lookup-erase, ltb,
  leb,
}
use general_ai_core.Runtime.Cache.{Cache, get, set}

-- A read after a write sees the written value under that tenant and key until the time to live has
-- passed and nothing from then on; under another tenant or key it sees what it saw before.
pub get-set :
    (now later : ℕ) (tenant key value t k : String) (ttl : ℕ) (c : Cache)
    → (get later t k (set now tenant key value ttl c)).0 ≡ (
        if tenant == t && key == k
        then (if ltb later (now + ttl) then some value else none)
        else (get later t k c).0)
unfolding get set
get-set now later tenant key value t k ttl c =
    grind (arith, lookup-insert (tenant, key) (t, k) (value, now + ttl) c)

-- A read changes nothing that a later read sees, of any key.
pub get-get :
    (now later : ℕ) (tenant key t k : String) (c : Cache)
    → now ≤ later
    → (get later t k (get now tenant key c).1).0 ≡ (get later t k c).0
unfolding get
get-get now later tenant key t k c h = elim (Option-cases (lookup (tenant, key) c)) [
  | inl missing ↦ rw missing refl
  | inr ((value, expires_at), found) ↦ elim (Bool-cases (leb expires_at now)) [
    | inl expired ↦ rw found (
        rw expired (
          ground (
            arith,
            found,
            lookup-erase (tenant, key) (t, k) c,
            string_eq.beq_iff tenant t,
            string_eq.beq_iff key k,
          )))
    | inr live ↦ rw found (rw live refl)
  ]
]
