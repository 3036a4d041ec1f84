-- ===== src/Recovery/Gaps.antt =====
-- Where packages/recovery/index.js promises more than it does.
use coreguard.Prelude.{
  ℕ, ◌∷◌, [], String, true, false, ◌≤◌, ◌≡◌, refl, ap, none, List, arith, length, includes, codes,
  lower, map, ==_self,
}
use coreguard.Recovery.{
  TerminalState, ReceiptStatus, ReceiptRead, Verdict, Event, Entry, ok, Run, push, new_entry,
  is_clean, successes, receipt_key, one_key, receipts_agree, is_broken, state_on,
  expected_event_present, topic_matches, has_part, starts, lower_codes, substring_2,
}

-- Where a run asks for at most two providers and no intent is recorded, two reads of one provider
-- that report success, without an error and with every expected event, reach VERIFIED.
pub one_provider-verified :
    (run : Run) (now : String) (r : ReceiptRead)
    → run.min_providers ≤ 2
    → r.status ≡ ReceiptStatus.status_one
    → is_clean r ≡ true
    → expected_event_present run.expected r.log_topics ≡ true
    → state_on run now none (r ∷ r ∷ []) ≡ TerminalState.verified
unfolding state_on is_broken receipts_agree successes one_key
one_provider-verified run now r few one clean events = ground (arith, ==_self (receipt_key r))

has_part-nil : (s : List ℕ) → has_part [] s ≡ true
unfolding has_part starts
has_part-nil [] = refl
has_part-nil (c ∷ cs) = refl

short_substring : (cs : List ℕ) → length cs ≤ 2 → substring_2 cs ≡ []
short_substring [] h = refl
short_substring (a ∷ []) h = refl
short_substring (a ∷ b ∷ []) h = refl
short_substring (a ∷ b ∷ c ∷ cs) h = absurd (omega arith)

length-lower : (cs : List ℕ) → length (map lower cs) ≡ length cs
length-lower [] = refl
length-lower (c ∷ cs) = omega (arith, length-lower cs)

-- A log topic of at most two characters stands for every expected event.
pub topic_matches-short : (want t : String) → length (codes t) ≤ 2 → topic_matches want t ≡ true
unfolding topic_matches
topic_matches-short want t h =
    let short = short_substring (lower_codes t) (omega (arith, length-lower (codes t))) in
    ground (arith, ap-has_part short, has_part-nil (lower_codes want))
  where
    ap-has_part :
        substring_2 (lower_codes t) ≡ []
        → has_part (substring_2 (lower_codes t)) (lower_codes want) ≡ has_part [] (lower_codes want)
    ap-has_part e = ap (λ p. has_part p (lower_codes want)) e

-- A journal whose only entry is a verdict takes another entry, if its digest is not among those
-- seen.
pub push-after_verdict :
    (entry_digest : Entry → String) (at : String) (event : Event) (e : Entry) (v : Verdict)
    (seen : List String)
    → e.event ≡ Event.verdict v
    → includes seen (entry_digest (new_entry (record { entries = e ∷ []; seen = seen }) at event))
      ≡ false
    → (push entry_digest at event (record { entries = e ∷ []; seen = seen })).0
      ≡ ok (new_entry (record { entries = e ∷ []; seen = seen }) at event)
unfolding push
push-after_verdict entry_digest at event e v seen is fresh = ground arith
