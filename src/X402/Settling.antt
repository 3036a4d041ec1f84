-- ===== src/X402/Settling.antt =====
-- settle of packages/x402/index.mjs: what becomes of the reservation of a challenge.
use coreguard.Prelude.{
  String, ◌≡◌, ◌≢◌, refl, sym, subst, ◌∙◌, Bool, true, false, Option, none, some, arith, lookup,
  erase, ◌==◌, ==-of_ne, Bool-cases, inl, inr,
}
use coreguard.Budget.{
  Job, Ledger, Reservation, ReservationState, Answer, commit, release, close, spent_job,
  spent_scope, freed_job, freed_scope,
}
use coreguard.Budget.Outcomes.{succeeded}
use coreguard.Budget.Endings.{IsOpen, commit-IsOpen, release-IsOpen}
use coreguard.X402.Quotes.{Challenge}
use coreguard.X402.Sessions.{
  Harness, BudgetOf, State, RunMode, dry_run, live, SignedEnvelope, Settlement, answered,
  SettleAnswer, settled_by, Closing, to_commit, to_release, forget_if_ok, close_reservation,
  settle_found, settle_reservation, settle, settle_in, settle_live, settle_answered, is_forged, ask,
  count_settled, count_rejected,
}

-- The ledger once the reservation `r` of the job `j` is committed, and once it is released.
abbrev pub committed_ledger : String → String → Reservation → Job → Ledger → Ledger
committed_ledger job_id id r j l =
    close job_id id r spent_job spent_scope ReservationState.committed j l

abbrev pub released_ledger : String → String → Reservation → Job → Ledger → Ledger
released_ledger job_id id r j l =
    close job_id id r freed_job freed_scope ReservationState.released j l

-- The harness has no reservation of the challenge any more, and the ledger is this one.
abbrev pub EndsWith : String → Ledger → State → State → Type 0
EndsWith id l s s' = (s'.ledger ≡ l) × (s'.reservations ≡ erase id s.reservations)

forget_if_ok-EndsWith :
    {A : Type 0} (id : String) (a : Answer A) (s : State)
    → succeeded a ≡ true
    → EndsWith id s.ledger s (forget_if_ok id a s)
unfolding forget_if_ok
forget_if_ok-EndsWith id (Answer.ok a) s e = (refl, refl)
forget_if_ok-EndsWith id (Answer.refused r) s e = cc
forget_if_ok-EndsWith id (Answer.threw t) s e = cc

module _ (b : BudgetOf) (c : Challenge) (id : String) (j : Job) (r : Reservation) (s : State)
    (held : lookup c.id s.reservations ≡ some id) (named : id ≢ "")
    (o : IsOpen b.job_id id s.ledger j r) where
  close_commits :
      EndsWith c.id
        (committed_ledger b.job_id id r j s.ledger)
        s
        (close_reservation b c.id id to_commit s)
  unfolding close_reservation
  close_commits =
      let (done, state) = commit-IsOpen b.job_id id s.ledger j r o in
      let a = commit b.job_id id s.ledger in
      let kept = forget_if_ok-EndsWith c.id a.0 (record s { ledger = a.1 }) done in
      (kept.0 ∙ state, kept.1)

  close_releases :
      EndsWith c.id
        (released_ledger b.job_id id r j s.ledger)
        s
        (close_reservation b c.id id to_release s)
  unfolding close_reservation
  close_releases =
      let (done, state) = release-IsOpen b.job_id id s.ledger j r o in
      let a = release b.job_id id s.ledger in
      let kept = forget_if_ok-EndsWith c.id a.0 (record s { ledger = a.1 }) done in
      (kept.0 ∙ state, kept.1)

  settle_reservation_open :
      (action : Closing)
      → settle_reservation (some b) (some c) action s ≡ close_reservation b c.id id action s
  unfolding settle_reservation settle_found
  settle_reservation_open action = ground (arith, held, ==-of_ne id "" named)

  commits :
      EndsWith c.id
        (committed_ledger b.job_id id r j s.ledger)
        s
        (settle_reservation (some b) (some c) to_commit s)
  commits = rw (settle_reservation_open to_commit) close_commits

  releases :
      EndsWith c.id
        (released_ledger b.job_id id r j s.ledger)
        s
        (settle_reservation (some b) (some c) to_release s)
  releases = rw (settle_reservation_open to_release) close_releases

module _ (h : Harness) (b : BudgetOf) (c : Challenge) (id : String) (j : Job) (r : Reservation)
    (s : State) (has_budget : h.budget ≡ some b) (held : lookup c.id s.reservations ≡ some id)
    (named : id ≢ "") (o : IsOpen b.job_id id s.ledger j r) where
  -- What a settlement with this answer has done.
  abbrev pub Closed : SettleAnswer × State → Type 0
  Closed (settled_by settlement_id amount, s') =
      EndsWith c.id (committed_ledger b.job_id id r j s.ledger) s s'
  Closed (SettleAnswer.threw, s') = s' ≡ s
  Closed (_, s') = EndsWith c.id (released_ledger b.job_id id r j s.ledger) s s'

  with_budget :
      (P : State → Type 0) (action : Closing) (t : State)
      → P (settle_reservation (some b) (some c) action t)
      → P (settle_reservation h.budget (some c) action t)
  with_budget P action t p =
      subst (λ (o : Option BudgetOf). P (settle_reservation o (some c) action t)) (sym has_budget) p

  released_by :
      EndsWith c.id
        (released_ledger b.job_id id r j s.ledger)
        s
        (settle_reservation h.budget (some c) to_release s)
  released_by =
      with_budget (λ s'. EndsWith c.id (released_ledger b.job_id id r j s.ledger) s s') to_release s
        (releases b c id j r s held named o)

  settle_answered-Closed : (a : Settlement) → Closed (settle_answered h c a s)
  unfolding settle_answered
  settle_answered-Closed Settlement.threw = released_by
  settle_answered-Closed (answered none) = released_by
  settle_answered-Closed (answered (some settlement_id)) = elim (Bool-cases (settlement_id == "")) [
    | inl empty ↦ rw empty released_by
    | inr filled ↦ rw filled (
        with_budget (λ s'. EndsWith c.id (committed_ledger b.job_id id r j s.ledger) s s') to_commit
          (count_settled c.amount_cents s)
          (commits b c id j r (count_settled c.amount_cents s) held named o))
  ]

  settle_live-Closed :
      (e : Option SignedEnvelope) (forged : Option Bool) → Closed (settle_live h c e forged s)
  unfolding settle_live
  settle_live-Closed e none = refl
  settle_live-Closed e (some true) =
      with_budget (λ s'. EndsWith c.id (released_ledger b.job_id id r j s.ledger) s s') to_release
        (count_rejected s) (releases b c id j r (count_rejected s) held named o)
  settle_live-Closed e (some false) = settle_answered-Closed (ask h.settler c e)

  settle_in-Closed : (m : RunMode) (e : Option SignedEnvelope) → Closed (settle_in m h (some c) e s)
  unfolding settle_in
  settle_in-Closed dry_run e = released_by
  settle_in-Closed live e = settle_live-Closed e (is_forged h c e)

  -- A challenge whose reservation is open is settled: where the answer is SETTLED the amount moves from
  -- reserved to committed in the job and in the reservation's scope, where it is any other answer the
  -- amount is released there, and either way the harness forgets the reservation; where the check of
  -- the envelope throws nothing changes.
  pub settle-Closed : (e : Option SignedEnvelope) → Closed (settle h (some c) e s)
  unfolding settle
  settle-Closed e = settle_in-Closed h.mode e
