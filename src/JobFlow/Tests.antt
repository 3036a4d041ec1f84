-- ===== src/JobFlow/Tests.antt =====
-- The theorem about packages/job-integration/index.mjs at a concrete flow.
use coreguard.Prelude.{◌≡◌, ◌∷◌, [], none, some, arith, refl, pos}
use coreguard.Budget.{Amount, Job, Ledger, new_job}
use coreguard.Budget.Locks.{locked_job}
use coreguard.Acceptance.{Spec, CheckKind, Basis}
use coreguard.Acceptance.Escrow.{Settles, verdict}
use coreguard.JobFlow.{Flow, create_job_flow, deliver}
use coreguard.JobFlow.Settlement.{deliver-Settles}
use coreguard.Prelude.{lookup}

abbrev judged : Spec
judged = record {
  job_id = "flow-2";
  basis = Basis.judgment;
  checks =
      record {
        id = "chk-1-human-judgment";
        kind = CheckKind.human_judgment;
        args = record { digest = none; count = Amount.not_integer; forbidden = none; job_id = "" };
      }
      ∷ [];
}

deliver-Settles_example :
    (f : Flow) × (l' : Ledger) × (j' : Job) × (create_job_flow "flow-2"
        (Amount.integer (pos 500))
        (some (Amount.integer (pos 500)))
      ≡ some f)
    × ((deliver (some judged) none f).1 ≡ some l')
    × (lookup "flow-2" l'.jobs ≡ some j')
    × Settles
        (verdict judged none (some f.ledger))
        (locked_job (new_job "flow-2" "USDC" 500) 500)
        j'
deliver-Settles_example =
    deliver-Settles judged none 500 500 refl (λ e. cc) (omega arith) (omega arith)
