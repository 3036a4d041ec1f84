-- ===== src/Budget/Isolation.antt =====
-- No path from one job to another in packages/budget/ledger.mjs: what a call on one job leaves of
-- another job's snapshot.
use coreguard.Prelude.{
  [], ◌∷◌, String, ◌≡◌, refl, sym, ◌∙◌, ap, ◌≢◌, inl, inr, true, Option, none, some, arith, Dict,
  lookup, insert, values, ==-of_ne, lookup-insert_ne,
}
use coreguard.Budget.{
  Scope, Ledger, Cost, snapshot, report_scopes, reserve, book, charged_scope, write_scope,
  scope_key, scope_of, set_job, set_scope, set_reservation,
}
use coreguard.Budget.Books.{IsValid}
use coreguard.Budget.Keys.{colon_free}
use coreguard.Budget.Outcomes.{Names, reserve_outcome, next_id}
use coreguard.Budget.Booking.{scope_of-job_id}

report_scopes-insert :
    (k key : String) (s s' : Scope) (m : Dict Scope)
    → lookup key m ≡ some s
    → s.job_id ≢ k
    → s'.job_id ≡ s.job_id
    → report_scopes k (values (insert key s' m)) ≡ report_scopes k (values m)
unfolding lookup insert values report_scopes
report_scopes-insert k key s s' [] e ne same = cc
report_scopes-insert k key s s' ((i, t) ∷ m) e ne same =
    ground (arith, ==-of_ne s.job_id k ne, report_scopes-insert k key s s' m)

-- A snapshot reads the job and the reports of its scopes, and nothing else.
snapshot_frame :
    (k : String) (l l' : Ledger)
    → lookup k l'.jobs ≡ lookup k l.jobs
    → report_scopes k (values l'.scopes) ≡ report_scopes k (values l.scopes)
    → snapshot k l' ≡ snapshot k l
unfolding snapshot
snapshot_frame k l l' e h = ground arith

module _ (k : String) (l : Ledger) (v : IsValid l) (job_id : String)
    (free : colon_free job_id ≡ true) (ne : job_id ≢ k) where
  write_scope-reports :
      (o : Option String) (s : Option Scope) (f : Scope → Scope) (l' : Ledger)
      → Names job_id o s l
      → ((t : Scope) → (f t).job_id ≡ t.job_id)
      → l'.scopes ≡ l.scopes
      → report_scopes k (values (write_scope job_id o s f l').scopes)
        ≡ report_scopes k (values l.scopes)
  unfolding write_scope set_scope scope_of
  write_scope-reports (some scope_id) (some s) f l' n same e = rw e (
      report_scopes-insert k (scope_key job_id scope_id) s (f s) l.scopes n.0
        (λ h. ne (sym (scope_of-job_id l v job_id scope_id s free n.0) ∙ h)) (same s))
  write_scope-reports none none f l' n same e = rw e
  write_scope-reports none (some s) f l' n same e = absurd n
  write_scope-reports (some scope_id) none f l' n same e = absurd n

  write_scope-jobs :
      (o : Option String) (s : Option Scope) (f : Scope → Scope) (l' : Ledger)
      → (write_scope job_id o s f l').jobs ≡ l'.jobs
  unfolding write_scope set_scope
  write_scope-jobs (some scope_id) (some s) f l' = refl
  write_scope-jobs none _ f l' = refl
  write_scope-jobs _ none f l' = refl

-- In valid books, reserving for one job, whose id has no colon, leaves the snapshot of every
-- other job as it was.
pub reserve-snapshot :
    (sha256_hex : String → String) (c : Cost) (k : String) (l : Ledger)
    → IsValid l
    → colon_free c.job_id ≡ true
    → c.job_id ≢ k
    → snapshot k (reserve sha256_hex c l).1 ≡ snapshot k l
unfolding book set_job set_reservation charged_scope
reserve-snapshot sha256_hex c k l v free ne = elim (reserve_outcome sha256_hex c l) [
  | inl same ↦ ap (snapshot k) same.1
  | inr (j, s, fits, e) ↦
      ap (λ a. snapshot k a.1) e
      ∙ snapshot_frame k l (book c j s (next_id sha256_hex c l) l)
          (ap (lookup k) (write_scope-jobs k l v c.job_id free ne c.scope_id s _ _)
            ∙ lookup-insert_ne c.job_id k _ l.jobs ne)
          (write_scope-reports k l v c.job_id free ne c.scope_id s _ _ fits.names (λ t. refl) refl)
]
