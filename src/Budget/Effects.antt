-- ===== src/Budget/Effects.antt =====
-- What reserve of packages/budget/ledger.mjs leaves in the maps of the ledger, entry by entry, and when
-- it succeeds.
use coreguard.Prelude.{
  ℕ, suc, ◌+◌, ◌<◌, String, ◌≡◌, refl, sym, ap, subst, inl, inr, true, false, Option, none, some,
  [], ◌∷◌, ◌++◌, arith, pos, lookup, Option-cases, Bool-cases, ◌⊎◌,
}
use coreguard.Budget.{
  Job, Scope, Ledger, Amount, Cost, Reserved, Answer, ok, ReservationState, is_positive_int, cents,
  exceeds, available_to, job_available, scope_available, reserve, book, is_unlisted, set_job,
  set_scope, set_reservation, charged_job, charged_scope, write_scope, new_reservation,
}
use coreguard.Budget.Frames.{
  Sets, SetsScope, HasFree, insert-Sets, positive-integer, within-HasFree,
}
use coreguard.Budget.Reservations.{write_scope-frame, booked_job}
use coreguard.Budget.Outcomes.{
  Fits, Names, next_id, reserved_answer, succeeded, reserve_outcome, reserve-Fits, Untouched,
}

-- The cost is one of `n`, above zero, from a listed source, in a job that exists and an open scope of
-- it or none, where `n` is free.
pub record Affords (c : Cost) (l : Ledger) (j : Job) (s : Option Scope) (n : ℕ) : Type 0 where
  pub found : lookup c.job_id l.jobs ≡ some j
  pub names : Names c.job_id c.scope_id s l
  pub amount : c.amount_cents ≡ Amount.integer (pos n)
  pub positive : 0 < n
  pub free : HasFree j s n
  pub listed : is_unlisted c.source ≡ false

-- The scope with `n` more reserved.
abbrev pub more_reserved : Option Scope → ℕ → Option Scope
more_reserved none n = none
more_reserved (some s) n = some (record s { reserved_cents = s.reserved_cents + n })

-- What a booking of `n` leaves: the job, and the scope if one is named, with `n` more reserved, and an
-- open reservation of `n` under the id; every other entry is as it was.
pub record Books (c : Cost) (id : String) (n : ℕ) (j : Job) (s : Option Scope) (l l' : Ledger)
    : Type 0 where
  pub jobs :
      Sets c.job_id
        (record j {
          reserved_cents = j.reserved_cents + n;
          reservations = j.reservations ++ id ∷ [];
        })
        l.jobs
        l'.jobs
  pub scopes : SetsScope c.job_id c.scope_id (more_reserved s n) l.scopes l'.scopes
  pub reservations :
      Sets id
        (record {
          reservation_id = id;
          job_id = c.job_id;
          scope_id = c.scope_id;
          amount_cents = n;
          source = c.source;
          reason = c.reason;
          state = ReservationState.reserved;
        })
        l.reservations
        l'.reservations
  pub counted : l'.seq ≡ suc l.seq

write_scope-SetsScope :
    (job_id : String) (o : Option String) (s : Option Scope) (n : ℕ) (l : Ledger)
    → SetsScope job_id o
        (more_reserved s n)
        l.scopes
        (write_scope job_id o s (λ t. charged_scope t n) l).scopes
unfolding write_scope set_scope charged_scope
write_scope-SetsScope job_id (some scope_id) (some s) n l = insert-Sets _ _ l.scopes
write_scope-SetsScope job_id none none n l = refl
write_scope-SetsScope job_id none (some s) n l = refl
write_scope-SetsScope job_id (some scope_id) none n l = refl

write_scope-seq :
    (job_id : String) (o : Option String) (s : Option Scope) (f : Scope → Scope) (l : Ledger)
    → (write_scope job_id o s f l).seq ≡ l.seq
unfolding write_scope set_scope
write_scope-seq job_id (some scope_id) (some s) f l = refl
write_scope-seq job_id none _ f l = refl
write_scope-seq job_id _ none f l = refl

pub book-Books :
    (c : Cost) (j : Job) (s : Option Scope) (id : String) (l : Ledger)
    → Books c id (cents c.amount_cents) j s l (book c j s id l)
unfolding book set_job set_reservation charged_job new_reservation
book-Books c j s id l =
    let n = cents c.amount_cents in
    let based =
      set_job c.job_id (booked_job c j id)
        (set_reservation id (new_reservation c id) (record l { seq = suc l.seq })) in
    let frame = write_scope-frame c.job_id c.scope_id s (λ t. charged_scope t n) based in
    record {
      jobs = rw frame.0 (insert-Sets c.job_id (booked_job c j id) l.jobs);
      scopes = write_scope-SetsScope c.job_id c.scope_id s n based;
      reservations = rw frame.1 (insert-Sets id (new_reservation c id) l.reservations);
      counted = write_scope-seq c.job_id c.scope_id s (λ t. charged_scope t n) based;
    }

Affords-Fits :
    (c : Cost) (l : Ledger) (j : Job) (s : Option Scope) (n : ℕ) → Affords c l j s n → Fits c l j s
unfolding is_positive_int cents exceeds available_to job_available scope_available
Affords-Fits c l j none n a = record {
  found = a.found;
  names = a.names;
  positive = ground (arith, a.amount, a.positive);
  within = ground (arith, a.amount, a.free);
}
Affords-Fits c l j (some s) n a = record {
  found = a.found;
  names = a.names;
  positive = ground (arith, a.amount, a.positive);
  within = ground (arith, a.amount, a.free);
}

pub Fits-Affords :
    (c : Cost) (l : Ledger) (j : Job) (s : Option Scope)
    → Fits c l j s
    → is_unlisted c.source ≡ false
    → Affords c l j s (cents c.amount_cents)
Fits-Affords c l j s f e =
    let (amount, positive) = positive-integer c.amount_cents f.positive in
    record {
      found = f.found;
      names = f.names;
      amount = amount;
      positive = positive;
      free = within-HasFree (cents c.amount_cents) j s f.within;
      listed = e;
    }

cents-integer : (a : Amount) (n : ℕ) → a ≡ Amount.integer (pos n) → cents a ≡ n
unfolding cents
cents-integer a n e = ap cents e

module _ (sha256_hex : String → String) (c : Cost) (l : Ledger) where
  succeeded-listed : succeeded (reserve sha256_hex c l).0 ≡ true → is_unlisted c.source ≡ false
  unfolding reserve
  succeeded-listed h = elim (Option-cases (lookup c.job_id l.jobs)) [
    | inl missing ↦ ground arith
    | inr (j, ej) ↦ elim (Bool-cases (is_unlisted c.source)) [
      | inl unlisted ↦ ground arith
      | inr listed ↦ listed
    ]
  ]

  -- The answer names the id and the amount, and the ledger has booked them.
  abbrev pub Takes : Job → Option Scope → ℕ → Answer Reserved × Ledger → Type 0
  Takes j s n r =
      (a : Reserved) × (r.0 ≡ ok a)
      × (a.reservation_id ≡ next_id sha256_hex c l)
      × (a.amount_cents ≡ n)
      × Books c (next_id sha256_hex c l) n j s l r.1

  booked-Takes :
      (j : Job) (s : Option Scope) (r : Answer Reserved × Ledger)
      → r ≡ (
        ok (reserved_answer c j s (next_id sha256_hex c l)),
        book c j s (next_id sha256_hex c l) l,
      )
      → Takes j s (cents c.amount_cents) r
  booked-Takes j s r e =
      let id = next_id sha256_hex c l in
      (
        reserved_answer c j s id,
        ap (λ t. t.0) e,
        refl,
        refl,
        subst (Books c id (cents c.amount_cents) j s l) (sym (ap (λ t. t.1) e))
            (book-Books c j s id l),
      )

  -- `reserve` either refuses or throws and leaves the ledger as it was; or the source is listed, the
  -- job exists, the scope that is named exists and is open, and the amount is above zero and free there;
  -- the answer has the next id and the amount; the job, and the scope if one is named, have the amount
  -- more reserved; an open reservation of the amount stands under the id, which the job lists; and
  -- every other job, scope and reservation is as it was.
  pub reserve_effect :
      Untouched l (reserve sha256_hex c l)
      ⊎ ((j : Job) × (s : Option Scope) × (n : ℕ) × Affords c l j s n
          × Takes j s n (reserve sha256_hex c l))
  reserve_effect = elim (reserve_outcome sha256_hex c l) [
    | inl same ↦ inl same
    | inr (j, s, fits, e) ↦
        let listed = succeeded-listed (ap (λ t. succeeded t.0) e) in
        inr (j, s, cents c.amount_cents, Fits-Affords c l j s fits listed, booked-Takes j s _ e)
  ]

  -- Where the source of the cost is listed, the job exists, the scope that is named exists and is open,
  -- and the amount is above zero and free there, `reserve` succeeds: the answer has the next id and the
  -- amount; the job, and the scope if one is named, have the amount more reserved; an open reservation
  -- of the amount stands under the id; and every other job, scope and reservation is as it was.
  pub reserve-Affords :
      (j : Job) (s : Option Scope) (n : ℕ)
      → Affords c l j s n
      → Takes j s n (reserve sha256_hex c l)
  reserve-Affords j s n a =
      let amount : cents c.amount_cents ≡ n = cents-integer c.amount_cents n a.amount in
      subst (λ k. Takes j s k (reserve sha256_hex c l)) amount
        (booked-Takes j s _ (reserve-Fits sha256_hex c l j s a.listed (Affords-Fits c l j s n a)))
