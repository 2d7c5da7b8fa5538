-- ===== src/SourceChange/Workflow/Restore.antt =====
-- A change that was applied can be rolled back, and the base is there again.
use general_ai_core.Prelude.{
  ℕ, ◌≡◌, inl, inr, refl, sym, ap, Bool, true, some, lookup, insert, ◌==◌, nat_eq, string_eq,
  pair_eq, Result, ok, Bool-cases, lookup-insert_self, ◌∙◌, All,
}
use general_ai_core.SourceChange.Paths.{list_eq, path_order}
use general_ai_core.SourceChange.Errors.{rolled_back, SourceChangeError}
use general_ai_core.SourceChange.Snapshot.{
  Files, Hashing, SourceSnapshot, verify_integrity, from_files,
}
use general_ai_core.SourceChange.Patch.{SourcePatch, make_patch, apply_patch, invert_patch}
use general_ai_core.SourceChange.Patch.Inverse.{IsValidPath}
use general_ai_core.SourceChange.Patch.Rollback.{rollback_restores}
use general_ai_core.SourceChange.Proposal.{ChangeProposal, with_state, with_applied}
use general_ai_core.SourceChange.Sandbox.{SandboxPort, VerificationSuite}
use general_ai_core.Prelude.Calls.{lift-ok, bind-next, pure, lift, ◌>>=◌, ◌>>◌}
use general_ai_core.SourceChange.Workflow.{
  AuditDetail, apply_act, rollback_act, Stores, save_snapshot, get_snapshot, save_proposal,
  get_proposal, record_act, sandboxed, apply, rollback,
}
use general_ai_core.SourceChange.Workflow.Outcomes.{
  lookup-own, applied_record, with_applied_ok, from_files_whole, get_proposal_found,
  get_snapshot_found, with_state_rolled_back, with_snapshot, save_snapshot_whole, save_snapshot-ok,
}

module _ (h : Hashing) where
  module _ (port : SandboxPort) (suite : VerificationSuite) (audited : Bool) where
    applied_end :
        (x : SourceSnapshot) (v u : ChangeProposal) (s t : Stores port.State)
        → (save_proposal v
              >> (sandboxed h port suite audited x
                  >>= (λ r. record_act audited v (apply_act x.snapshot_id r) >> pure v)))
            s
          ≡ (ok u, t)
        → (v ≡ u)
          × (t.snapshots ≡ s.snapshots)
          × (t.proposals ≡ insert (v.tenant_id, v.proposal_id) v s.proposals)
    unfolding save_proposal record_act
    applied_end x v u s t e =
        let answer : ◌≡◌ {A = Result SourceChangeError ChangeProposal} (ok v) (ok u) =
          ap (λ r. r.0) e in
        elim (Bool-cases audited) [
          | inl on ↦
              let e' = rw on at e in
              (cc, sym (ap (λ r. r.1.snapshots) e'), sym (ap (λ r. r.1.proposals) e'))
          | inr off ↦
              let e' = rw off at e in
              (cc, sym (ap (λ r. r.1.snapshots) e'), sym (ap (λ r. r.1.proposals) e'))
        ]

    -- What a call of `apply` that returned has done.
    apply_done :
        (tenant id : ℕ) (p u : ChangeProposal) (base : SourceSnapshot) (s t : Stores port.State)
        → lookup (tenant, id) s.proposals ≡ some p
        → lookup (tenant, p.base_snapshot_id) s.snapshots ≡ some base
        → verify_integrity h base ≡ true
        → apply h port suite audited tenant id s ≡ (ok u, t)
        → (x : SourceSnapshot) × (inverse : SourcePatch) × (apply_patch h base p.patch ≡ ok x)
          × (invert_patch p.patch base ≡ ok inverse)
          × (verify_integrity h x ≡ true)
          × (u ≡ applied_record h x.snapshot_id inverse p)
          × (t.snapshots ≡ insert (tenant, x.snapshot_id) x s.snapshots)
          × (t.proposals ≡ insert (u.tenant_id, u.proposal_id) u s.proposals)
    unfolding apply
    apply_done tenant id p u base s t found has whole e =
        let e1 =
          sym
            (bind-next (get_proposal tenant id) _ s s p (get_proposal_found h tenant id s p found))
          ∙ e in
        let e2 =
          sym (
            bind-next (get_snapshot h tenant p.base_snapshot_id) _ s s base
              (get_snapshot_found h tenant p.base_snapshot_id s base has whole))
          ∙ e1 in
        let (x, made, e3) = lift-ok (apply_patch h base p.patch) _ s t u e2 in
        let (inverse, inverted, e4) = lift-ok (invert_patch p.patch base) _ s t u e3 in
        let (fits, e5) = save_snapshot-ok h tenant x _ s t u e4 in
        let (v, moved, e6) =
          lift-ok (with_applied h x.snapshot_id inverse p) _ (with_snapshot h tenant x s) t u e5 in
        let (same, snaps, props) = applied_end x v u (with_snapshot h tenant x s) t e6 in
        let shape = with_applied_ok h x.snapshot_id inverse p v moved in
        (
          x,
          inverse,
          made,
          inverted,
          fits,
          sym same ∙ shape,
          snaps,
          props
              ∙ ap (λ (w : ChangeProposal). insert (w.tenant_id, w.proposal_id) w s.proposals) same,
        )

    stored_end :
        (v : ChangeProposal) (d : AuditDetail) (s : Stores port.State)
        → (t : Stores port.State) × ((save_proposal v >> (record_act audited v d >> pure v)) s
            ≡ (ok v, t))
          × (t.snapshots ≡ s.snapshots)
    unfolding save_proposal record_act
    stored_end v d s = (
      ((save_proposal v >> (record_act audited v d >> pure v)) s).1,
      refl,
      elim (Bool-cases audited) [ inl on ↦ rw on refl | inr off ↦ rw off refl ],
    )

    -- A rollback of a record that `with_applied` returned, once its snapshot is served and the inverse
    -- patch restores a base that is whole.
    rollback_done :
        (tenant id : ℕ) (p : ChangeProposal) (base x : SourceSnapshot) (inverse : SourcePatch)
        (t : Stores port.State)
        → lookup (tenant, id) t.proposals ≡ some (applied_record h x.snapshot_id inverse p)
        → lookup (tenant, x.snapshot_id) t.snapshots ≡ some x
        → verify_integrity h x ≡ true
        → verify_integrity h base ≡ true
        → apply_patch h x inverse ≡ ok base
        → (v : ChangeProposal) × (t' : Stores port.State) × (rollback h port suite audited tenant id
              t
            ≡ (ok v, t'))
          × (v.state ≡ rolled_back)
          × (lookup (tenant, base.snapshot_id) t'.snapshots ≡ some base)
    unfolding rollback
    rollback_done tenant id p base x inverse t found has fits whole back =
        let u = applied_record h x.snapshot_id inverse p in
        let v : ChangeProposal = record u { state = rolled_back } in
        let t1 = with_snapshot h tenant base t in
        let e1 =
          bind-next (get_proposal tenant id) _ t t u (get_proposal_found h tenant id t u found) in
        let e2 =
          bind-next (lift (with_state h rolled_back u)) _ t t v
            (with_state_rolled_back h u refl refl t) in
        let e3 =
          bind-next (get_snapshot h tenant x.snapshot_id) _ t t x
            (get_snapshot_found h tenant x.snapshot_id t x has fits) in
        let e4 =
          bind-next (lift (apply_patch h x inverse)) _ t t base
            (ap (λ (r : Result SourceChangeError SourceSnapshot). (r, t)) back) in
        let e5 =
          bind-next (save_snapshot h tenant base) _ t t1 tt
            (save_snapshot_whole h tenant base t whole) in
        let (t', e6, kept) =
          stored_end v (rollback_act base.snapshot_id (base.snapshot_id == p.base_snapshot_id))
            t1 in
        (
          v,
          t',
          (e1 ∙ e2 ∙ e3 ∙ e4 ∙ e5 ∙ e6),
          refl,
          ap (lookup (tenant, base.snapshot_id)) kept
              ∙ lookup-insert_self (tenant, base.snapshot_id) base t.snapshots,
        )

    -- A stored proposal under its own key, with valid paths and a patch that `make_patch` made, on a
    -- stored base that `from_files` made: when a call of `apply` returned for it, the call of
    -- `rollback` that follows returns a record that is rolled back, and the very base is stored under
    -- its id then.
    pub apply_rolls_back :
        (tenant id : ℕ) (p u : ChangeProposal) (raw : Files) (base : SourceSnapshot)
        (s t : Stores port.State)
        → lookup (tenant, id) s.proposals ≡ some p
        → p.tenant_id ≡ tenant
        → p.proposal_id ≡ id
        → All IsValidPath p.patch.operations
        → make_patch p.patch.operations ≡ ok p.patch
        → from_files h raw ≡ ok base
        → lookup (tenant, p.base_snapshot_id) s.snapshots ≡ some base
        → apply h port suite audited tenant id s ≡ (ok u, t)
        → (v : ChangeProposal) × (t' : Stores port.State) × (rollback h port suite audited tenant id
              t
            ≡ (ok v, t'))
          × (v.state ≡ rolled_back)
          × (lookup (tenant, base.snapshot_id) t'.snapshots ≡ some base)
    apply_rolls_back tenant id p u raw base s t found own own_id valid made from has done =
        let whole = from_files_whole h raw base from in
        let (x, inverse, patched, inverted, fits, shape, snaps, props) =
          apply_done tenant id p u base s t found has whole done in
        let (q, inverted', back) = rollback_restores h raw base x p.patch from valid made patched in
        let same : inverse ≡ q = cc in
        let stored : lookup (tenant, x.snapshot_id) t.snapshots ≡ some x =
          ap (lookup (tenant, x.snapshot_id)) snaps
          ∙ lookup-insert_self (tenant, x.snapshot_id) x s.snapshots in
        let listed : lookup (tenant, id) t.proposals
            ≡ some (applied_record h x.snapshot_id inverse p) =
          ap (lookup (tenant, id)) props
          ∙ lookup-own tenant id u (applied_record h x.snapshot_id inverse p) s.proposals shape own
              own_id in
        rollback_done tenant id p base x inverse t listed stored fits whole
          (ap (apply_patch h x) same ∙ back)
