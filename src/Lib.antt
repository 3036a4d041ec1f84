-- ===== src/Lib.antt =====
-- CoreGuard: spend authority and acceptance of work done by agents.
--
-- A job opens with a ceiling in a budget ledger (packages/budget/ledger.mjs, CG-BUD/1). Costs are
-- reserved, committed or released against it, directly or in a scope that got a share of it. An
-- amount can be locked for a delivery; acceptance (packages/acceptance/index.mjs, CG-ACC/1)
-- evaluates the checks of a spec on the evidence and the ledger, and its verdict releases, refunds
-- or leaves what is locked.
--
-- A payment is asked for by the x402 harness (packages/x402/index.mjs): a quote becomes a challenge,
-- signing it reserves its cost in a job of the ledger first, and settling it commits or releases
-- that reservation. What is signed, hashed or compared is the canonical text of a value
-- (packages/canonical).
--
-- Before a payment is signed, the firewall (packages/firewall) decides ALLOW, DENY or
-- REQUIRE_REVIEW on the declaration, the authority probe, the policy (packages/policy) and a
-- simulation; a review can resolve the last. Execution evidence (packages/execution) is read from
-- a provider and bound to the intent and the frozen decision before it counts as VERIFIED. Three
-- verifiers report on the evidence of an execution, and consensus (packages/consensus) folds their
-- verdicts. Recovery (packages/recovery) keeps a journal of one send and decides from what the
-- providers read whether it is VERIFIED. A mandate (packages/mandate) folds the references of a
-- chain, a scope, a window and signers to one answer; a replay (packages/replay) looks for
-- contradictions in the frames of a trace.
--
-- Files:
--   Prelude and its children: library names, Boolean tests on numbers, lists, integers, maps, and
--     texts with the numbers that `BigInt` reads from them.
--   Canonical/Decimal, Uint: packages/canonical/uint.js; Canonical/Encode, Hash: canonicalize and the
--     digests of packages/canonical/index.js; Canonical/Digits, Spaces, Uniqueness, Order, Normal,
--     Reader, Parser, Injective, Idempotent, Binding: what is proved of them, with a reader of
--     canonical texts that only the proofs use.
--   Execution/Items, Extract: the evidence items and extractExecutionEvidence
--     (packages/execution/index.js); Execution/Bind, Verify: bindExecutionEvidence and
--     verifyExecutionEvidence; Execution/Attest: the attestation and its verification;
--     Execution/Checks, Bound, Tamper: what is proved of them.
--   Budget/State, Calls, Access: the data of createBudgetLedger, its answers, and its accessors.
--   Budget/Open, Spend, Escrow: openJob and openScope; reserve, commit, release and meter; hold,
--     disposition, snapshot and listReservations.
--   Budget/Books, Keys, Writes, Outcomes, Endings, Carving, Booking, Closing, Preservation,
--     Opening, Allocation, Locks, Reservations, Runs, Isolation, Gaps, Frames, Effects,
--     EndingEffects, CarvingEffects: what is proved of them; Budget/Accounts, AccountWrites,
--     Refinement: what the ledger promises to a caller, and that it does so.
--   Policy/Rules, Evaluate: the data of packages/policy/index.js, securityUint of
--     packages/canonical/uint.js, evaluateRule and evaluatePolicy; Policy/Laws: what is proved of them.
--   Firewall/Simulate, Bind, Authority, PolicyGate, Decide, Resolve: simulation.js, binding.js,
--     authority.js, policy.js, decision.js and resolution.js of packages/firewall; Firewall/Conform:
--     conformance.js; Firewall/Consistency, Decisions, Reviews, Conformity: what is proved of them.
--   Consensus/Fold: toConsensusVerdict, combineConsensus and runConsensus of
--     packages/consensus/index.js, with the engines as parameters; Consensus/Verdicts: what is proved of them.
--   Recovery/Entries, Engine, Driver: RecoveryJournal, createRecoveryRun and runRecovery
--     (packages/recovery/index.js); Recovery/Verdicts, Appends, Gaps: what is proved of them.
--   Replay/Plan: the errors of planTraceReplay (packages/replay/index.js); Replay/Trees: what is proved
--     of them.
--   Mandate/Fold: foldMandate of packages/mandate/index.js; Mandate/Chains: what is proved of it.
--   JobFlow/Create: createJobFlow, deliver and the reports of packages/job-integration/index.mjs;
--     JobFlow/Settlement: what becomes of the money.
--   X402/Quotes, Sessions: quoteFor, buildChallenge and the signatures; createX402Harness with
--     challengeFor, sign and settle (packages/x402/index.mjs), with HMAC, the clock and the settler as
--     parameters; X402/Signatures, Signing, Settling, Payments: what is proved of them.
--   Acceptance/Build, Evaluate: buildAcceptanceSpec and evaluateAcceptance; Acceptance/Verdicts,
--     Specs, Escrow: what is proved of them.
--
-- The methods of the ledger are one closure over three maps and a counter; here they are functions
-- from the ledger to an answer (ok, refused or threw) and the ledger after the call, in a monad
-- whose binds stand where the source returns early. The maps are association lists in insertion
-- order, which `snapshot` lists. A record that the source changes in place is written back under
-- its key.
--
-- Amounts are exact integers: the source's numbers are doubles, which are exact below 2^53. An
-- amount that a caller hands in is an integer or none. Counters are natural numbers; the
-- subtractions in commit and release do not stop at zero in valid books, and what is available is
-- an integer, which can be negative. The digest of node:crypto is a parameter; that the id of the
-- next reservation is new, and that a job's id has no colon, are conditions of a step. Refusal and
-- detail texts, and extras that repeat an argument, are left out. In the firewall and the policy
-- engine a value is a text or missing: the source also takes JavaScript numbers. Letter case is
-- that of ASCII. An exception is none. SHA-256, HMAC and the chain adapters are parameters; the
-- firewall takes the canonical texts and digests that it compares as parameters too. In Canonical,
-- Execution and Replay a text is its list of UTF-16 code units, and in Mandate that of its code
-- points; elsewhere it is a string, whose code points stand for its units. Times in a mandate are
-- natural numbers or no numbers.
--
-- Nothing runs on fuel except the printing of decimal numbers, whose fuel is one more than the number
-- that is printed, and the reader of canonical texts in the proofs, whose fuel is the size of the
-- value.
--
-- Not modelled: adapters to networks and chains, command lines, rendering, signature and hash
-- code, which are input, output or libraries; delivery, provenance, traces, the evidence
-- verifiers, intents, pricing and the refusal audit, which nothing above calls but as a parameter;
-- and the digest of a replay's plan.
pub mod Prelude
pub mod Acceptance
pub mod Budget
pub mod Canonical
pub mod Consensus
pub mod Execution
pub mod Firewall
pub mod JobFlow
pub mod Mandate
pub mod Policy
pub mod Recovery
pub mod Replay
pub mod X402
