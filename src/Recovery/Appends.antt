-- ===== src/Recovery/Appends.antt =====
-- Runs of packages/recovery/index.js only append to the journal, and a run that has ended is not
-- repeated.
use coreguard.Prelude.{
  ◌∷◌, [], ◌++◌, String, ◌&&◌, ◌==◌, ◌≡◌, refl, ◌∙◌, ap, inl, inr, Option, none, some, List, arith,
  Bool-cases, includes, leb, length,
}
use coreguard.Recovery.{
  SendIntent, SendResult, Verdict, Event, Entry, Journal, Result, ok, threw, Run, Host, Action,
  Network, write, push, new_entry, ends_in_verdict, intents, sends, verdicts, ◌>>=◌, continue,
  intent_of, declare_unless, send_unless, broadcast_unless, verdict_unless, recover_unless,
  declare_send_intent, send_once, record_send_result, record_receipt_read, read_all, read_of,
  read_one, caught, ReadOutcome, tx_hash_of, or_null, write_verdict, verdict_of, resolve_verdict,
  run_recovery,
}

-- The second journal is the first with more entries behind it.
abbrev pub Extends : Journal → Journal → Type 0
Extends j j' = (es : List Entry) × (j'.entries ≡ j.entries ++ es)

append-nil : (es : List Entry) → es ≡ es ++ []
append-nil [] = refl
append-nil (e ∷ es) = ap (λ t. e ∷ t) (append-nil es)

append_assoc : (a b c : List Entry) → (a ++ b) ++ c ≡ a ++ (b ++ c)
append_assoc [] b c = refl
append_assoc (e ∷ a) b c = ap (λ t. e ∷ t) (append_assoc a b c)

Extends-refl : (j : Journal) → Extends j j
Extends-refl j = ([], append-nil j.entries)

Extends-trans : (a b c : Journal) → Extends a b → Extends b c → Extends a c
Extends-trans a b c (es, e) (fs, f) =
    (es ++ fs, f ∙ ap (λ t. t ++ fs) e ∙ append_assoc a.entries es fs)

continue-Extends :
    {A B : Type 0} (j l : Journal) (r : Result A) (k : A → Action B)
    → Extends j l
    → ((a : A) (l : Journal) → Extends l (k a l).1)
    → Extends j (continue r k l).1
continue-Extends j l (ok a) k h then_k = Extends-trans j l (k a l).1 h (then_k a l)
continue-Extends j l (threw x) k h then_k = h

bind-Extends :
    {A B : Type 0} (m : Action A) (k : A → Action B)
    → ((j : Journal) → Extends j (m j).1)
    → ((a : A) (l : Journal) → Extends l (k a l).1)
    → (j : Journal) → Extends j ((m >>= k) j).1
bind-Extends m k first then_k j = continue-Extends j (m j).1 (m j).0 k (first j) then_k

write-Extends : (h : Host) (ev : Event) (j : Journal) → Extends j (write h ev j).1
unfolding push
write-Extends h ev j =
    let new = new_entry j (h.now (length j.entries)) ev in
    elim (Bool-cases (includes j.seen (h.entry_digest new))) [
      | inl duplicate ↦ ([], ground (arith, append-nil j.entries))
      | inr fresh ↦ elim (Bool-cases (leb 2 (length j.entries) && ends_in_verdict j.entries)) [
        | inl ended ↦ ([], ground (arith, append-nil j.entries))
        | inr open_journal ↦ (new ∷ [], ground arith)
      ]
    ]

declare_unless-Extends :
    (h : Host) (run : Run) (is : List SendIntent) (j : Journal)
    → Extends j (declare_unless h run is j).1
unfolding declare_unless
declare_unless-Extends h run (s ∷ rest) j = Extends-refl j
declare_unless-Extends h run [] j =
    bind-Extends (write h (intent_of h run)) (λ e l. (ok (h.sha256_hex run.calldata), l))
      (write-Extends h (intent_of h run)) (λ e l. Extends-refl l) j

send_unless-Extends :
    (h : Host) (t p : String) (ss : List (Entry × SendResult)) (j : Journal)
    → Extends j (send_unless h t p ss j).1
unfolding send_unless
send_unless-Extends h t p ((e, s) ∷ rest) j = ([], ground (arith, append-nil j.entries))
send_unless-Extends h t p [] j = write-Extends h _ j

record_send_result-Extends :
    (h : Host) (t p : String) (j : Journal) → Extends j (record_send_result h t p j).1
unfolding record_send_result
record_send_result-Extends h t p j =
    let (es, e) = send_unless-Extends h t p (sends j.entries) j in
    elim (Bool-cases (t == "")) [
      | inl empty ↦ ([], ground (arith, append-nil j.entries))
      | inr filled ↦ (es, ground (arith, e))
    ]

broadcast_unless-Extends :
    (h : Host) (o r : Option String) (j : Journal) → Extends j (broadcast_unless h o r j).1
unfolding broadcast_unless
broadcast_unless-Extends h (some t) r j = Extends-refl j
broadcast_unless-Extends h none none j = Extends-refl j
broadcast_unless-Extends h none (some t) j =
    bind-Extends (record_send_result h t "broadcaster") (λ e l. (ok t, l))
      (record_send_result-Extends h t "broadcaster") (λ e l. Extends-refl l) j

caught-Extends :
    (h : Host) (t p : String) (a : Result Entry) (j : Journal) → Extends j (caught h t p a j).1
unfolding caught record_receipt_read
caught-Extends h t p (ok e) j = Extends-refl j
caught-Extends h t p (threw x) j = write-Extends h _ j

read_one-Extends :
    (h : Host) (t p : String) (o : ReadOutcome) (j : Journal) → Extends j (read_one h t p o j).1
unfolding read_one record_receipt_read
read_one-Extends h t p (ReadOutcome.receipt r) j =
    let first = write h (Event.receipt_read (read_of t p (ReadOutcome.receipt r))) j in
    Extends-trans j first.1 (caught h t p first.0 first.1).1 (write-Extends h _ j)
      (caught-Extends h t p first.0 first.1)
read_one-Extends h t p (ReadOutcome.read_error e) j = write-Extends h _ j

read_all-Extends :
    (h : Host) (net : Network) (t : String) (ps : List String) (j : Journal)
    → Extends j (read_all h net t ps j).1
unfolding read_all
read_all-Extends h net t [] j = Extends-refl j
read_all-Extends h net t (p ∷ ps) j =
    bind-Extends (read_one h t p (net.read_receipt t p)) (λ e. read_all h net t ps)
      (read_one-Extends h t p (net.read_receipt t p)) (λ e l. read_all-Extends h net t ps l) j

verdict_unless-Extends :
    (h : Host) (v : Verdict) (vs : List (Entry × Verdict)) (j : Journal)
    → Extends j (verdict_unless h v vs j).1
unfolding verdict_unless
verdict_unless-Extends h v ((e, old) ∷ rest) j = ([], ground (arith, append-nil j.entries))
verdict_unless-Extends h v [] j = write-Extends h _ j

resolve_verdict-Extends :
    (h : Host) (run : Run) (o : Option String) (j : Journal)
    → Extends j (resolve_verdict h run o j).1
unfolding resolve_verdict write_verdict
resolve_verdict-Extends h run o j =
    verdict_unless-Extends h (verdict_of h run o j.entries) (verdicts j.entries) j

recover_unless-Extends :
    (h : Host) (run : Run) (net : Network) (ps : List String) (vs : List (Entry × Verdict))
    (j : Journal)
    → Extends j (recover_unless h run net ps vs j).1
unfolding recover_unless declare_send_intent send_once
recover_unless-Extends h run net ps ((e, v) ∷ rest) j = Extends-refl j
recover_unless-Extends h run net ps [] j =
    bind-Extends (declare_send_intent h run)
      (λ hash. send_once h net >>= λ t. read_all h net t ps >>= λ u. resolve_verdict h run (some t))
      (λ l. declare_unless-Extends h run (intents l.entries) l)
      (λ hash.
        bind-Extends (send_once h net)
          (λ t. read_all h net t ps >>= λ u. resolve_verdict h run (some t))
          (λ l.
            broadcast_unless-Extends h (tx_hash_of (sends l.entries) none) (or_null net.broadcast)
              l)
          (λ t.
            bind-Extends (read_all h net t ps) (λ u. resolve_verdict h run (some t))
              (read_all-Extends h net t ps) (λ u. resolve_verdict-Extends h run (some t))))
      j

-- A recovery run never rewrites the journal: whatever the broadcaster and the providers answer, and
-- also when it throws, it leaves the entries that were there and only adds to them.
pub run_recovery-Extends :
    (h : Host) (run : Run) (net : Network) (ps : List String) (j : Journal)
    → Extends j (run_recovery h run net ps j).1
unfolding run_recovery
run_recovery-Extends h run net ps j = recover_unless-Extends h run net ps (verdicts j.entries) j

-- The journal's first verdict is the entry `e`.
abbrev Ended : Entry → Journal → Type 0
Ended e j = (v : Verdict) × (rest : List (Entry × Verdict)) × (verdicts j.entries ≡ (e, v) ∷ rest)

verdicts-append : (a b : List Entry) → verdicts (a ++ b) ≡ verdicts a ++ verdicts b
unfolding verdicts
verdicts-append [] b = refl
verdicts-append (e ∷ a) b = ground (arith, verdicts-append a b)

continued :
    {A B : Type 0} (r : Result A) (k : A → Action B) (l l' : Journal) (b : B)
    → continue r k l ≡ (ok b, l')
    → (a : A) × (k a l ≡ (ok b, l'))
continued (ok a) k l l' b h = (a, h)
continued (threw x) k l l' b h = ground arith

verdicts-one :
    (x : Entry) (v : Verdict) → x.event ≡ Event.verdict v → verdicts (x ∷ []) ≡ (x, v) ∷ []
unfolding verdicts
verdicts-one x v e = ground arith

write-Ended :
    (h : Host) (v : Verdict) (j j' : Journal) (e : Entry)
    → verdicts j.entries ≡ []
    → write h (Event.verdict v) j ≡ (ok e, j')
    → Ended e j'
unfolding push
write-Ended h v j j' e none_yet w =
    let new = new_entry j (h.now (length j.entries)) (Event.verdict v) in
    (v, [], ground (arith, verdicts-append j.entries (new ∷ []), verdicts-one new v refl))

verdict_unless-Ended :
    (h : Host) (v : Verdict) (vs : List (Entry × Verdict)) (j j' : Journal) (e : Entry)
    → verdicts j.entries ≡ vs
    → verdict_unless h v vs j ≡ (ok e, j')
    → Ended e j'
unfolding verdict_unless
verdict_unless-Ended h v [] j j' e es w = write-Ended h v j j' e es w
verdict_unless-Ended h v ((d, old) ∷ rest) j j' e es w = (old, rest, ground arith)

recover_unless-Ended :
    (h : Host) (run : Run) (net : Network) (ps : List String) (vs : List (Entry × Verdict))
    (j j' : Journal) (e : Entry)
    → verdicts j.entries ≡ vs
    → recover_unless h run net ps vs j ≡ (ok e, j')
    → Ended e j'
unfolding recover_unless resolve_verdict write_verdict
recover_unless-Ended h run net ps ((d, old) ∷ rest) j j' e es w = (old, rest, ground arith)
recover_unless-Ended h run net ps [] j j' e es w =
    let (hash, w1) =
      continued (declare_send_intent h run j).0
        (λ hash.
          send_once h net >>= λ t. read_all h net t ps >>= λ u. resolve_verdict h run (some t))
        (declare_send_intent h run j).1 j' e w in
    let l1 = (declare_send_intent h run j).1 in
    let (t, w2) =
      continued (send_once h net l1).0
        (λ t. read_all h net t ps >>= λ u. resolve_verdict h run (some t)) (send_once h net l1).1 j'
        e w1 in
    let l2 = (send_once h net l1).1 in
    let (u, w3) =
      continued (read_all h net t ps l2).0 (λ u. resolve_verdict h run (some t))
        (read_all h net t ps l2).1 j' e w2 in
    let l3 = (read_all h net t ps l2).1 in
    verdict_unless-Ended h (verdict_of h run (some t) l3.entries) (verdicts l3.entries) l3 j' e refl
      w3

-- A recovery run that has ended is not repeated: on the journal that it leaves, any later run gives
-- back the same verdict entry and writes nothing, without asking the network.
pub run_recovery-again :
    (h h' : Host) (run run' : Run) (net net' : Network) (ps ps' : List String) (j j' : Journal)
    (e : Entry)
    → run_recovery h run net ps j ≡ (ok e, j')
    → run_recovery h' run' net' ps' j' ≡ (ok e, j')
unfolding run_recovery recover_unless
run_recovery-again h h' run run' net net' ps ps' j j' e w =
    let (v, rest, ended) = recover_unless-Ended h run net ps (verdicts j.entries) j j' e refl w in
    ground (arith, ended)
