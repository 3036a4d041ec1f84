-- ===== src/Budget/Preservation.antt =====
-- commit and release of packages/budget/ledger.mjs keep the books of the ledger valid.
use coreguard.Prelude.{String, ◌≡◌, refl, sym, subst, inl, inr, true, arith}
use coreguard.Budget.{
  Ledger, ReservationState, commit, release, spent_job, spent_scope, freed_job, freed_scope,
}
use coreguard.Budget.Books.{IsValid}
use coreguard.Budget.Keys.{colon_free}
use coreguard.Budget.Endings.{commit_outcome, release_outcome}
use coreguard.Budget.Closing.{due-le-job, due-le-scope, close-IsValid}

-- `commit` keeps the books valid.
pub commit-IsValid :
    (job_id id : String) (l : Ledger)
    → IsValid l
    → colon_free job_id ≡ true
    → IsValid (commit job_id id l).1
unfolding spent_job spent_scope
commit-IsValid job_id id l v free = elim (commit_outcome job_id id l) [
  | inl same ↦ subst IsValid (sym same.1) v
  | inr (j, r, o, _, e) ↦
      let on_job = due-le-job l v job_id id free j r o in
      subst IsValid (sym e) (
        close-IsValid l v job_id id free j r o ReservationState.committed refl spent_job spent_scope
          (omega arith)
          λ scope_id s es found.
            let on_scope = due-le-scope l v job_id id free j r o scope_id s es found in
            record {
              same_job = refl;
              same_id = refl;
              same_parent = refl;
              same_share = refl;
              same_carved = refl;
              moved = omega arith;
              level = omega arith;
              within = λ h. omega arith;
            })
]

-- `release` keeps the books valid.
pub release-IsValid :
    (job_id id : String) (l : Ledger)
    → IsValid l
    → colon_free job_id ≡ true
    → IsValid (release job_id id l).1
unfolding freed_job freed_scope
release-IsValid job_id id l v free = elim (release_outcome job_id id l) [
  | inl same ↦ subst IsValid (sym same.1) v
  | inr (j, r, o, _, e) ↦
      let on_job = due-le-job l v job_id id free j r o in
      subst IsValid (sym e) (
        close-IsValid l v job_id id free j r o ReservationState.released refl freed_job freed_scope
          (omega arith)
          λ scope_id s es found.
            let on_scope = due-le-scope l v job_id id free j r o scope_id s es found in
            record {
              same_job = refl;
              same_id = refl;
              same_parent = refl;
              same_share = refl;
              same_carved = refl;
              moved = omega arith;
              level = omega arith;
              within = λ h. omega arith;
            })
]
