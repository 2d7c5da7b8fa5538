-- ===== src/SourceChange/Workflow/Keeping.antt =====
-- Each act of the workflow keeps every stored proposal bound to its approval.
use general_ai_core.Prelude.{
  ℕ, inl, inr, refl, Bool, String, arith, lookup, nat_eq, string_eq, pair_eq, Result, ok, err,
  Bool-cases, Option-cases,
}
use general_ai_core.Prelude.Sums.{AllValues, AllValues-insert, AllValues-lookup}
use general_ai_core.SourceChange.Paths.{Bytes, list_eq}
use general_ai_core.SourceChange.Errors.{
  verified, failed_verification, rejected, rolled_back, SourceChangeError,
}
use general_ai_core.SourceChange.Snapshot.{Hashing, SourceSnapshot}
use general_ai_core.SourceChange.Patch.{SourcePatch, apply_patch, invert_patch}
use general_ai_core.SourceChange.Proposal.{
  ChangeProposal, seal, with_state, with_approval, with_applied,
}
use general_ai_core.SourceChange.Sandbox.{
  SandboxPort, VerificationSuite, DifferentialVerdict, pass, regression, failed_on_patched,
}
use general_ai_core.Prelude.Calls.{Call, Answers, Keeps, Keeps-bind, pure, lift, ◌>>=◌, ◌>>◌}
use general_ai_core.SourceChange.Workflow.{
  AuditDetail, apply_act, Stores, save_snapshot, get_snapshot, save_proposal, get_proposal,
  record_act, differential, sandboxed, propose, verify, approve, reject, apply, rollback,
  graded_proposal, evidence,
}
use general_ai_core.SourceChange.Workflow.Approval.{
  seal_new, IsBound, with_state-IsBound, with_approval-IsBound, with_applied-IsBound,
}

abbrev pub Anything : {A : Type 0} → A → Type 0
Anything a = Unit

pub anything : {A : Type 0} (r : Result SourceChangeError A) → Answers Anything r
anything (ok a) = tt
anything (err e) = tt

module _ (h : Hashing) {S : Type 0} where
  -- Every stored proposal is bound.
  abbrev pub AllBound : Stores S → Type 0
  AllBound s = AllValues (IsBound h) s.proposals

  pub lift-Keeps :
      {A : Type 0} (Q : A → Type 0) (r : Result SourceChangeError A) (s : Stores S)
      → Answers Q r
      → AllBound s
      → Keeps AllBound Q (lift r s)
  lift-Keeps Q r s q i = (i, q)

  pub get_proposal-Keeps :
      (tenant id : ℕ) (s : Stores S)
      → AllBound s
      → Keeps AllBound (IsBound h) (get_proposal tenant id s)
  unfolding get_proposal
  get_proposal-Keeps tenant id s i = elim (Option-cases (lookup (tenant, id) s.proposals)) [
    | inl absent ↦ rw absent (i, tt)
    | inr (p, found) ↦ rw found (i, AllValues-lookup (IsBound h) (tenant, id) p s.proposals i found)
  ]

  pub get_snapshot-Keeps :
      (tenant : ℕ) (id : Bytes) (s : Stores S)
      → AllBound s
      → Keeps AllBound Anything (get_snapshot h tenant id s)
  unfolding get_snapshot
  get_snapshot-Keeps tenant id s i = (i, anything _)

  pub save_snapshot-Keeps :
      (tenant : ℕ) (x : SourceSnapshot) (s : Stores S)
      → AllBound s
      → Keeps AllBound Anything (save_snapshot h tenant x s)
  unfolding save_snapshot
  save_snapshot-Keeps tenant x s i = ground arith

  pub save_proposal-Keeps :
      (p : ChangeProposal) (s : Stores S)
      → IsBound h p
      → AllBound s
      → Keeps AllBound Anything (save_proposal p s)
  unfolding save_proposal
  save_proposal-Keeps p s b i =
      (AllValues-insert (IsBound h) (p.tenant_id, p.proposal_id) p s.proposals i b, tt)

  -- The end of every act: it is written to the log.
  pub logged-Keeps :
      (audited : Bool) (p : ChangeProposal) (d : AuditDetail) (s : Stores S)
      → IsBound h p
      → AllBound s
      → Keeps AllBound (IsBound h) ((record_act audited p d >> pure p) s)
  unfolding record_act
  logged-Keeps audited p d s b i = elim (Bool-cases audited) [
    | inl on ↦ rw on (i, b)
    | inr off ↦ rw off (i, b)
  ]

  -- The same after the record was stored.
  pub recorded-Keeps :
      (audited : Bool) (p : ChangeProposal) (d : AuditDetail) (s : Stores S)
      → IsBound h p
      → AllBound s
      → Keeps AllBound (IsBound h) ((save_proposal p >> (record_act audited p d >> pure p)) s)
  recorded-Keeps audited p d s b i =
      Keeps-bind AllBound Anything (IsBound h) (save_proposal p) _ s (save_proposal-Keeps p s b i)
        (λ a t q i. logged-Keeps audited p d t b i)

module _ (h : Hashing) (port : SandboxPort) (suite : VerificationSuite) (audited : Bool) where
  abbrev pub Kept : Result SourceChangeError ChangeProposal × Stores port.State → Type 0
  Kept = Keeps (AllBound h) (IsBound h)

  -- A first part that keeps the invariant, and what follows it.
  Keeps-next :
      {A : Type 0} (Q : A → Type 0) (m : Call SourceChangeError (Stores port.State) A)
      (f : A → Call SourceChangeError (Stores port.State) ChangeProposal) (s : Stores port.State)
      → Keeps (AllBound h) Q (m s)
      → ((a : A) (t : Stores port.State) → Q a → AllBound h t → Kept (f a t))
      → Kept ((m >>= f) s)
  Keeps-next Q m f s = Keeps-bind (AllBound h) Q (IsBound h) m f s

  pub approve-Keeps :
      (now tenant id approver : ℕ) (hash : Bytes) (s : Stores port.State)
      → AllBound h s
      → Kept (approve h port suite audited now tenant id approver hash s)
  unfolding approve
  approve-Keeps now tenant id approver hash s i =
      Keeps-next (IsBound h) (get_proposal tenant id) _ s (get_proposal-Keeps h tenant id s i)
        (λ p t b i.
          Keeps-next (IsBound h) (lift (with_approval h _ p)) _ t
            (lift-Keeps h (IsBound h) _ t (with_approval-IsBound h _ p b) i)
            (λ u t b i. recorded-Keeps h audited u _ t b i))

  pub reject-Keeps :
      (tenant id approver : ℕ) (reason : String) (s : Stores port.State)
      → AllBound h s
      → Kept (reject h port suite audited tenant id approver reason s)
  unfolding reject
  reject-Keeps tenant id approver reason s i =
      Keeps-next (IsBound h) (get_proposal tenant id) _ s (get_proposal-Keeps h tenant id s i)
        (λ p t b i.
          Keeps-next (IsBound h) (lift (with_state h rejected p)) _ t
            (lift-Keeps h (IsBound h) _ t (with_state-IsBound h rejected p (inl refl) b) i)
            (λ u t b i. recorded-Keeps h audited u _ t b i))

  pub graded-Keeps :
      (tenant : ℕ) (x : SourceSnapshot) (p : ChangeProposal) (v : DifferentialVerdict)
      (s : Stores port.State)
      → IsBound h p
      → AllBound h s
      → Kept (graded_proposal h port suite audited tenant x p v s)
  graded-Keeps tenant x p pass s b i =
      Keeps-next Anything (save_snapshot h tenant x) _ s (save_snapshot-Keeps h tenant x s i)
        (λ a t q i. lift-Keeps h (IsBound h) _ t (with_state-IsBound h verified p (inl refl) b) i)
  graded-Keeps tenant x p regression s b i =
      lift-Keeps h (IsBound h) _ s (with_state-IsBound h failed_verification p (inl refl) b) i
  graded-Keeps tenant x p failed_on_patched s b i =
      lift-Keeps h (IsBound h) _ s (with_state-IsBound h failed_verification p (inl refl) b) i

  pub verify-Keeps :
      (tenant id : ℕ) (s : Stores port.State)
      → AllBound h s
      → Kept (verify h port suite audited tenant id s)
  unfolding verify
  verify-Keeps tenant id s i =
      Keeps-next (IsBound h) (get_proposal tenant id) _ s (get_proposal-Keeps h tenant id s i)
        (λ p t b i.
          Keeps-next Anything (get_snapshot h tenant p.base_snapshot_id) _ t
            (get_snapshot-Keeps h tenant p.base_snapshot_id t i)
            (λ base t q i.
              Keeps-next Anything (lift (apply_patch h base p.patch)) _ t
                (lift-Keeps h Anything _ t (anything _) i)
                (λ x t q i.
                  Keeps-next Anything (differential h port suite audited base x) _ t (i, anything _)
                    (λ r t q i.
                      Keeps-next (IsBound h)
                        (graded_proposal h port suite audited tenant x p r.verdict) _ t
                        (graded-Keeps tenant x p r.verdict t b i)
                        (λ u t b i. recorded-Keeps h audited u _ t b i)))))

  -- The end of `apply`: the sandbox runs once more after the record was stored.
  pub applied-Keeps :
      (x : SourceSnapshot) (u : ChangeProposal) (s : Stores port.State)
      → IsBound h u
      → AllBound h s
      → Kept (
          (save_proposal u
              >> (sandboxed h port suite audited x
                  >>= (λ r. record_act audited u (apply_act x.snapshot_id r) >> pure u)))
            s)
  applied-Keeps x u s b i =
      Keeps-next Anything (save_proposal u)
        (λ a.
          sandboxed h port suite audited x
          >>= (λ r. record_act audited u (apply_act x.snapshot_id r) >> pure u))
        s (save_proposal-Keeps h u s b i)
        (λ a t q i.
          Keeps-next Anything (sandboxed h port suite audited x)
            (λ r. record_act audited u (apply_act x.snapshot_id r) >> pure u) t (i, tt)
            (λ r t q i. logged-Keeps h audited u (apply_act x.snapshot_id r) t b i))

  pub apply-Keeps :
      (tenant id : ℕ) (s : Stores port.State)
      → AllBound h s
      → Kept (apply h port suite audited tenant id s)
  unfolding apply
  apply-Keeps tenant id s i =
      Keeps-next (IsBound h) (get_proposal tenant id) _ s (get_proposal-Keeps h tenant id s i)
        (λ p t b i.
          Keeps-next Anything (get_snapshot h tenant p.base_snapshot_id) _ t
            (get_snapshot-Keeps h tenant p.base_snapshot_id t i)
            (λ base t q i.
              Keeps-next Anything (lift (apply_patch h base p.patch)) _ t
                (lift-Keeps h Anything _ t (anything _) i)
                (λ x t q i.
                  Keeps-next Anything (lift (invert_patch p.patch base)) _ t
                    (lift-Keeps h Anything _ t (anything _) i)
                    (λ inverse t q i.
                      Keeps-next Anything (save_snapshot h tenant x) _ t
                        (save_snapshot-Keeps h tenant x t i)
                        (λ a t q i.
                          Keeps-next (IsBound h) (lift (with_applied h x.snapshot_id inverse p)) _ t
                            (lift-Keeps h (IsBound h) _ t
                              (with_applied-IsBound h x.snapshot_id inverse p b) i)
                            (λ u t b i. applied-Keeps x u t b i))))))

  pub rollback-Keeps :
      (tenant id : ℕ) (s : Stores port.State)
      → AllBound h s
      → Kept (rollback h port suite audited tenant id s)
  unfolding rollback
  rollback-Keeps tenant id s i =
      Keeps-next (IsBound h) (get_proposal tenant id) _ s (get_proposal-Keeps h tenant id s i)
        (λ p t b i.
          Keeps-next (IsBound h) (lift (with_state h rolled_back p)) _ t
            (lift-Keeps h (IsBound h) _ t (with_state-IsBound h rolled_back p (inr refl) b) i)
            (λ u t b i.
              Keeps-next Anything
                (lift (evidence h port suite audited p.applied_snapshot_id p.inverse_patch)) _ t
                (lift-Keeps h Anything _ t (anything _) i)
                (λ e t q i.
                  Keeps-next Anything (get_snapshot h tenant e.0) _ t
                    (get_snapshot-Keeps h tenant e.0 t i)
                    (λ x t q i.
                      Keeps-next Anything (lift (apply_patch h x e.1)) _ t
                        (lift-Keeps h Anything _ t (anything _) i)
                        (λ y t q i.
                          Keeps-next Anything (save_snapshot h tenant y) _ t
                            (save_snapshot-Keeps h tenant y t i)
                            (λ a t q i. recorded-Keeps h audited u _ t b i))))))

  pub propose-Keeps :
      (now new_id tenant actor : ℕ) (base : Bytes) (patch : SourcePatch) (rationale : String)
      (s : Stores port.State)
      → AllBound h s
      → Kept (propose h port suite audited now new_id tenant actor base patch rationale s)
  unfolding propose
  propose-Keeps now new_id tenant actor base patch rationale s i =
      Keeps-next Anything (get_snapshot h tenant base) _ s (get_snapshot-Keeps h tenant base s i)
        (λ x t q i.
          Keeps-next (IsBound h) (lift (seal h _)) _ t
            (lift-Keeps h (IsBound h) _ t (seal_new h _ refl refl) i)
            (λ u t b i. recorded-Keeps h audited u _ t b i))
