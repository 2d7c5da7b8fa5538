-- ===== src/Providers/Registry/Coherence.antt =====
-- The two indexes of `ProviderRegistry` of core/providers/registry.py agree.
use general_ai_core.Prelude.{
  ℕ, ◌≡◌, refl, sym, ap, ◌∙◌, subst, arith, inl, inr, String, List, [], ◌∷◌, true, false, none,
  some, is_some, Bool-cases, false≢true, Option-cases, Dict, lookup, insert, erase, contains,
  lookup-insert, lookup-erase, lookup-erase_self, nat_eq, string_eq, Eq, after,
}
use general_ai_core.Providers.{Provider, ProviderManifest}
use general_ai_core.Providers.Registry.{
  RegisteredProvider, Registry, empty_registry, entered, register, replace, remove,
}
use general_ai_core.Providers.Registry.Half.{erased, Half, Half-insert, Half-erase}

abbrev pub key_of : RegisteredProvider → String
key_of e = e.provider.provider_key

abbrev pub id_of : RegisteredProvider → ℕ
id_of e = e.provider.id

-- The two indexes hold the same entries, each under its key and under its id.
abbrev pub IsCoherent : Registry → Type 0
IsCoherent r = Half key_of id_of r.by_key r.by_id × Half id_of key_of r.by_id r.by_key

pub data RegistryCall : Type 0 where
  registers : Provider → ProviderManifest → RegistryCall
  replaces : Provider → ProviderManifest → RegistryCall
  removes : String → RegistryCall

abbrev pub step : RegistryCall → Registry → Registry
step (registers p manifest) r = after r (register p manifest r)
step (replaces p manifest) r = after r (replace p manifest r)
step (removes key) r = (remove key r).1

-- The id of a replacement is free, or that of the entry which it replaces.
abbrev pub IsOwnId : Provider → Registry → Type 0
IsOwnId p r =
    (e : RegisteredProvider)
    → lookup p.id r.by_id ≡ some e
    → e.provider.provider_key ≡ p.provider_key

-- So for all replacements of a history.
abbrev pub OwnIds : List RegistryCall → Registry → Type 0
OwnIds [] r = Unit
OwnIds (registers p manifest ∷ cs) r = OwnIds cs (step (registers p manifest) r)
OwnIds (replaces p manifest ∷ cs) r = IsOwnId p r × OwnIds cs (step (replaces p manifest) r)
OwnIds (removes key ∷ cs) r = OwnIds cs (step (removes key) r)

abbrev pub run : List RegistryCall → Registry → Registry
run [] r = r
run (c ∷ cs) r = run cs (step c r)

none_of :
    {K : Type 0} ⦃eq : Eq K⦄ (k : K) (d : Dict K RegisteredProvider)
    → contains k d ≡ false
    → lookup k d ≡ none
none_of k d h = elim (Option-cases (lookup k d)) [
  | inl absent ↦ absent
  | inr (e, found) ↦ absurd (false≢true (sym h ∙ ap is_some found))
]

entered-IsCoherent :
    (e : RegisteredProvider) (r : Registry)
    → IsCoherent r
    → lookup (key_of e) r.by_key ≡ none
    → lookup (id_of e) r.by_id ≡ none
    → IsCoherent (entered e r)
entered-IsCoherent e r c free_key free_id = (
  Half-insert key_of id_of e r.by_key r.by_id c.0 free_id,
  Half-insert id_of key_of e r.by_id r.by_key c.1 free_key,
)

register-IsCoherent :
    (p : Provider) (manifest : ProviderManifest) (r : Registry)
    → IsCoherent r
    → IsCoherent (step (registers p manifest) r)
unfolding register
register-IsCoherent p manifest r c = elim (Bool-cases (contains p.provider_key r.by_key)) [
  | inl known ↦ rw known c
  | inr new_key ↦ elim (Bool-cases (contains p.id r.by_id)) [
    | inl known ↦ rw new_key (rw known c)
    | inr new_id ↦ rw new_key (
        rw new_id (
          entered-IsCoherent (record { provider = p; manifest = manifest }) r c
            (none_of p.provider_key r.by_key new_key) (none_of p.id r.by_id new_id)))
  ]
]

-- An entry is deleted from both indexes.
erased-IsCoherent :
    (key : String) (e : RegisteredProvider) (r : Registry)
    → lookup key r.by_key ≡ some e
    → IsCoherent r
    → IsCoherent (record { by_key = erase key r.by_key; by_id = erase (id_of e) r.by_id })
erased-IsCoherent key e r found c =
    let (own, there) = c.0 key e found in
    let here : lookup (key_of e) r.by_key ≡ some e =
      subst (λ k. lookup k r.by_key ≡ some e) (sym own) found in
    subst (λ k. IsCoherent (record { by_key = erase k r.by_key; by_id = erase (id_of e) r.by_id }))
      own
      (
        Half-erase key_of id_of e r.by_key r.by_id c.0 here,
        Half-erase id_of key_of e r.by_id r.by_key c.1 there,
      )

remove-IsCoherent : (key : String) (r : Registry) → IsCoherent r → IsCoherent (step (removes key) r)
unfolding remove
remove-IsCoherent key r c = elim (Option-cases (lookup key r.by_key)) [
  | inl absent ↦ let same : (remove key r).1 ≡ r = rw absent refl in subst IsCoherent (sym same) c
  | inr (e, found) ↦
      let gone : (remove key r).1
          ≡ record { by_key = erase key r.by_key; by_id = erase (id_of e) r.by_id } =
        rw found refl in
      subst IsCoherent (sym gone) (erased-IsCoherent key e r found c)
]

-- Two registries with the same index of ids, and the same entries under every key.
same_lookups-IsCoherent :
    (r s : Registry)
    → ((k : String) → lookup k r.by_key ≡ lookup k s.by_key)
    → IsCoherent r
    → IsCoherent (record s { by_id = r.by_id })
same_lookups-IsCoherent r s same c = (
  (λ k e h. c.0 k e (same k ∙ h)),
  (λ i e h. let (own, there) = c.1 i e h in (own, sym (same (key_of e)) ∙ there)),
)

-- The replacement of an entry: the old one is deleted from the index of ids, and the new one stands in its
-- place in the other.
replace-IsCoherent :
    (p : Provider) (manifest : ProviderManifest) (r : Registry)
    → IsOwnId p r
    → IsCoherent r
    → IsCoherent (step (replaces p manifest) r)
unfolding replace
replace-IsCoherent p manifest r own c = elim (Option-cases (lookup p.provider_key r.by_key)) [
  | inl absent ↦
      let done : step (replaces p manifest) r ≡ entered new r = rw absent refl in
      subst IsCoherent (sym done) (entered-IsCoherent new r c absent (free_id absent))
  | inr (e, found) ↦
      let (key, there) = c.0 p.provider_key e found in
      let bare : Registry = record {
        by_key = erase p.provider_key r.by_key;
        by_id = erase (id_of e) r.by_id;
      } in
      let known : contains (id_of e) r.by_id ≡ true = ap is_some there in
      let done : step (replaces p manifest) r
          ≡ entered new (record r { by_id = erase (id_of e) r.by_id }) =
        rw found (rw known refl) in
      let fresh =
        entered-IsCoherent new bare (erased-IsCoherent p.provider_key e r found c)
          (lookup-erase_self p.provider_key r.by_key) (freed e found) in
      subst IsCoherent (sym done) (
        same_lookups-IsCoherent (entered new bare)
          (entered new (record r { by_id = erase (id_of e) r.by_id })) again fresh)
]
  where
    new : RegisteredProvider
    new = record { provider = p; manifest = manifest }

    again :
        (k : String)
        → lookup k (insert p.provider_key new (erase p.provider_key r.by_key))
          ≡ lookup k (insert p.provider_key new r.by_key)
    again k = ground (
      arith,
      lookup-insert p.provider_key k new (erase p.provider_key r.by_key),
      lookup-insert p.provider_key k new r.by_key,
      lookup-erase p.provider_key k r.by_key,
    )

    same_entry : {x y : RegisteredProvider} → some x ≡ some y → x ≡ y
    same_entry e = cc

    freed :
        (e : RegisteredProvider)
        → lookup p.provider_key r.by_key ≡ some e
        → lookup p.id (erase (id_of e) r.by_id) ≡ none
    freed e found = elim (Option-cases (lookup p.id (erase (id_of e) r.by_id))) [
      | inl free ↦ free
      | inr (x, held) ↦
          let (other, old) = erased (id_of e) p.id x r.by_id held in
          let (at, under) = c.1 p.id x old in
          let one : e ≡ x =
            same_entry (sym found ∙ subst (λ k. lookup k r.by_key ≡ some x) (own x old) under) in
          absurd (false≢true (sym other ∙ (nat_eq.beq_iff (id_of e) p.id).1 (ap id_of one ∙ at)))
    ]

    free_id : lookup p.provider_key r.by_key ≡ none → lookup p.id r.by_id ≡ none
    free_id absent = elim (Option-cases (lookup p.id r.by_id)) [
      | inl free ↦ free
      | inr (e, found) ↦ absurd (
          false≢true (
            ap is_some (
              sym absent
              ∙ subst (λ k. lookup k r.by_key ≡ some e) (own e found) (c.1 p.id e found).1)))
    ]

-- Over any history of registrations, replacements and removals, whichever of them raise, the two indexes of
-- the registry hold the same entries, each under its own key and its own id; so no provider is found by one
-- index alone. A replacement must bring a free id or that of the entry it replaces.
pub indexes_agree :
    (calls : List RegistryCall)
    → OwnIds calls empty_registry
    → IsCoherent (run calls empty_registry)
indexes_agree calls own =
    go calls empty_registry own ((λ k e h. absurd (nothing h)), (λ i e h. absurd (nothing h)))
  where
    nothing : {x : RegisteredProvider} → none ≡ some x → ⊥
    nothing e = false≢true (ap is_some e)

    go :
        (cs : List RegistryCall) (r : Registry) → OwnIds cs r → IsCoherent r → IsCoherent (run cs r)
    go [] r o c = c
    go (registers p manifest ∷ cs) r o c =
        go cs (step (registers p manifest) r) o (register-IsCoherent p manifest r c)
    go (replaces p manifest ∷ cs) r o c =
        go cs (step (replaces p manifest) r) o.1 (replace-IsCoherent p manifest r o.0 c)
    go (removes key ∷ cs) r o c = go cs (step (removes key) r) o (remove-IsCoherent key r c)
