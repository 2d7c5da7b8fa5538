-- ===== src/SourceChange/Workflow/Outcomes.antt =====
-- What the steps of an act do when they return, and when they do.
use general_ai_core.Prelude.{
  not, ℕ, ◌≡◌, inl, inr, refl, sym, true, ◌&&◌, some, [], Dict, lookup, insert, ◌==◌, nat_eq,
  string_eq, pair_eq, Result, ok, err, Bool-cases, seq-ok, lookup-insert_self, subst, beq_self,
}
use general_ai_core.Prelude.Sorted.{sort}
use general_ai_core.SourceChange.Paths.{Bytes, list_eq, path_order}
use general_ai_core.SourceChange.Errors.{
  applied, rolled_back, SourceChangeError, snapshot_integrity, approval_hash_mismatch,
}
use general_ai_core.SourceChange.Snapshot.{
  Files, Hashing, SourceSnapshot, verify_integrity, from_files, validate_all, manifest_digest,
}
use general_ai_core.SourceChange.Patch.{SourcePatch}
use general_ai_core.SourceChange.Proposal.{
  ChangeProposal, patch_hash, seal, check_transition, with_state, with_applied,
}
use general_ai_core.Prelude.Calls.{Call, lift, ◌>>=◌}
use general_ai_core.SourceChange.Workflow.{Stores, save_snapshot, get_snapshot, get_proposal}
use general_ai_core.SourceChange.Workflow.Approval.{seal_same}

-- A record that was stored under its own key.
pub lookup-own :
    (tenant id : ℕ) (u w : ChangeProposal) (d : Dict (ℕ × ℕ) ChangeProposal)
    → u ≡ w
    → w.tenant_id ≡ tenant
    → w.proposal_id ≡ id
    → lookup (tenant, id) (insert (u.tenant_id, u.proposal_id) u d) ≡ some w
lookup-own tenant id u w d e own own_id =
    subst (λ x. lookup (tenant, id) (insert (x.tenant_id, x.proposal_id) x d) ≡ some w) (sym e)
      (subst (λ m. lookup (m, id) (insert (w.tenant_id, w.proposal_id) w d) ≡ some w) own
        (subst (λ n. lookup (w.tenant_id, n) (insert (w.tenant_id, w.proposal_id) w d) ≡ some w)
          own_id (lookup-insert_self (w.tenant_id, w.proposal_id) w d)))

module _ (h : Hashing) where
  seal_ok :
      (p u : ChangeProposal)
      → seal h p ≡ ok u
      → u ≡ record p { patch_hash = patch_hash h p.patch p.base_snapshot_id }
  unfolding seal
  seal_ok p u e =
      elim (Bool-cases (
        not (p.patch_hash == [])
        && not (p.patch_hash == patch_hash h p.patch p.base_snapshot_id))) [
          | inl wrong ↦
              let bad : err
                    (approval_hash_mismatch (patch_hash h p.patch p.base_snapshot_id) p.patch_hash)
                  ≡ ok u =
                rw wrong at e in
              cc
          | inr right ↦
              let made : ok (record p { patch_hash = patch_hash h p.patch p.base_snapshot_id })
                  ≡ ok u =
                rw right at e in
              cc
        ]

  -- The record that `with_applied` returns.
  abbrev pub applied_record : Bytes → SourcePatch → ChangeProposal → ChangeProposal
  applied_record id inverse p = record p {
    state = applied;
    applied_snapshot_id = some id;
    inverse_patch = some inverse;
    patch_hash = patch_hash h p.patch p.base_snapshot_id;
  }

  pub with_applied_ok :
      (id : Bytes) (inverse : SourcePatch) (p u : ChangeProposal)
      → with_applied h id inverse p ≡ ok u
      → u ≡ applied_record id inverse p
  unfolding with_applied
  with_applied_ok id inverse p u e =
      seal_ok
        (record p { state = applied; applied_snapshot_id = some id; inverse_patch = some inverse })
        u (seq-ok (check_transition h p applied) _ u e).1

  pub from_files_whole :
      (raw : Files) (s : SourceSnapshot) → from_files h raw ≡ ok s → verify_integrity h s ≡ true
  unfolding from_files verify_integrity
  from_files_whole raw s e =
      let made = (seq-ok (validate_all h (sort raw)) _ s e).1 in
      let same : record { snapshot_id = manifest_digest h (sort raw); files = sort raw } ≡ s = cc in
      subst (λ x. verify_integrity h x ≡ true) same (beq_self (manifest_digest h (sort raw)))

  module _ {S : Type 0} where
    pub get_proposal_found :
        (tenant id : ℕ) (s : Stores S) (p : ChangeProposal)
        → lookup (tenant, id) s.proposals ≡ some p
        → get_proposal tenant id s ≡ (ok p, s)
    unfolding get_proposal
    get_proposal_found tenant id s p found = rw found refl

    pub get_snapshot_found :
        (tenant : ℕ) (id : Bytes) (s : Stores S) (x : SourceSnapshot)
        → lookup (tenant, id) s.snapshots ≡ some x
        → verify_integrity h x ≡ true
        → get_snapshot h tenant id s ≡ (ok x, s)
    unfolding get_snapshot
    get_snapshot_found tenant id s x found whole = rw found (rw whole refl)

    pub with_state_rolled_back :
        (u : ChangeProposal)
        → u.state ≡ applied
        → u.patch_hash ≡ patch_hash h u.patch u.base_snapshot_id
        → (s : Stores S)
        → lift (with_state h rolled_back u) s ≡ (ok (record u { state = rolled_back }), s)
    unfolding with_state
    with_state_rolled_back u now version s =
        rw now (rw (seal_same h (record u { state = rolled_back }) version) refl)

    abbrev pub with_snapshot : ℕ → SourceSnapshot → Stores S → Stores S
    with_snapshot tenant x s = record s { snapshots = insert (tenant, x.snapshot_id) x s.snapshots }

    pub save_snapshot_whole :
        (tenant : ℕ) (x : SourceSnapshot) (s : Stores S)
        → verify_integrity h x ≡ true
        → save_snapshot h tenant x s ≡ (ok tt, with_snapshot tenant x s)
    unfolding save_snapshot
    save_snapshot_whole tenant x s whole = rw whole refl

    pub save_snapshot-ok :
        {B : Type 0} (tenant : ℕ) (x : SourceSnapshot)
        (f : Unit {0} → Call SourceChangeError (Stores S) B) (s t : Stores S) (b : B)
        → (save_snapshot h tenant x >>= f) s ≡ (ok b, t)
        → (verify_integrity h x ≡ true) × (f tt (with_snapshot tenant x s) ≡ (ok b, t))
    unfolding save_snapshot
    save_snapshot-ok {B} tenant x f s t b e = elim (Bool-cases (verify_integrity h x)) [
      | inl whole ↦ (whole, rw whole at e)
      | inr broken ↦
          let bad : ◌≡◌ {A = Result SourceChangeError B × Stores S}
              (err (snapshot_integrity x.snapshot_id), s) (ok b, t) =
            rw broken at e in
          cc
    ]
