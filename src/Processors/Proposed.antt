-- ===== src/Processors/Proposed.antt =====
-- A round gets one proposal, whatever the order of calls and answers.
use mainsail.Prelude.{
  ℕ, suc, ◌+◌, ◌≤◌, ◌≡◌, refl, sym, ◌∙◌, ap, subst, inl, inr, true, false, Option, none, some, List,
  [], ◌++◌, arith, if◌then◌else◌, find, is_some, Bool-cases, Option-cases, get_elem?, take, drop,
}
use mainsail.Prelude.Outcome.{Error, Result-cases}
use mainsail.Contracts.{Proposal}
use mainsail.RoundState.{RoundEnv, RoundState, has_proposal, add_proposal}
use mainsail.Consensus.State.{RoundRef, is_at, get_or_create, update_round}
use mainsail.Processors.{Position, has_valid_block_number_and_round, is_round_ahead_of_time}
use mainsail.Processors.MessageProcessor.{Verdict, good, bad, failed}
use mainsail.Processors.ProposalProcessor.{
  ProposalCall, ProposalProcessor, has_valid_proposer, position_of, check_proposal,
  receive_proposal, store_proposal, add_verified_proposal, finish_proposal, resume_proposal,
}
use mainsail.Processors.Positions.{
  matches, get_or_create-found, proposed, is_proposed, is_proposed-get_or_create,
  is_proposed-update_round,
}
use mainsail.Processors.Pending.{one, total}

module _ (b r : ℕ) where
  -- How many proposals of the position were saved, and how often the position was handed to consensus.
  abbrev pub count_saved : List Proposal → ℕ
  count_saved proposals = total (λ p. one (matches p.block_header.number p.round b r)) proposals

  abbrev pub count_handled : List RoundRef → ℕ
  count_handled positions = total (λ ref. one (matches ref.block_number ref.round b r)) positions

  -- Where the position had a proposal already, the number is 1.
  abbrev pub IsSingle : ℕ → ProposalProcessor → Type 0
  IsSingle n s =
      (count_saved s.saved + n ≤ one (is_proposed b r s.rounds))
      × (count_handled s.handled ≡ count_saved s.saved)

  IsSingle-rounds :
      (n : ℕ) (s : ProposalProcessor) (rounds : List RoundState)
      → is_proposed b r rounds ≡ is_proposed b r s.rounds
      → IsSingle n s
      → IsSingle n (record s { rounds = rounds })
  IsSingle-rounds n s rounds same h = (rw same h.0, h.1)

  check_proposal-IsSingle :
      (n : ℕ) (env : RoundEnv) (call : ProposalCall) (s : ProposalProcessor)
      → IsSingle n s
      → IsSingle n (check_proposal env call s)
  unfolding check_proposal
  check_proposal-IsSingle n env call s h =
      let p = call.proposal in
      let found = get_or_create env p.block_header.number p.round s.rounds in
      let kept =
        IsSingle-rounds n s found.1
          (is_proposed-get_or_create b r env p.block_header.number p.round s.rounds) h in
      elim (Bool-cases (has_proposal found.0)) [
        | inl e ↦ rw (e, check_proposal) kept
        | inr e ↦ rw (e, check_proposal) kept
      ]

  receive_proposal-IsSingle :
      (n : ℕ) (env : RoundEnv) (at : Position) (call : ProposalCall) (s : ProposalProcessor)
      → IsSingle n s
      → IsSingle n (receive_proposal env at call s)
  unfolding receive_proposal
  receive_proposal-IsSingle n env at call s h =
      let p = call.proposal in
      elim (Bool-cases at.is_disposed) [
        | inl e ↦ rw e h
        | inr e ↦
            elim (Bool-cases (has_valid_block_number_and_round at p.block_header.number p.round)) [
              | inr f ↦ rw (e, f, receive_proposal) h
              | inl f ↦ elim (Result-cases (is_round_ahead_of_time at p.round)) [
                | inr (x, g) ↦ rw (g, f, e, receive_proposal) h
                | inl (true, g) ↦ rw (g, f, e, receive_proposal) h
                | inl (false, g) ↦ elim (Bool-cases (has_valid_proposer env p)) [
                  | inl k ↦
                      rw (g, f, e, k, receive_proposal) (check_proposal-IsSingle n env call s h)
                  | inr k ↦ rw (g, f, e, k, receive_proposal) h
                ]
              ]
            ]
      ]

  store_proposal-IsSingle :
      (n : ℕ) (failure : Option Error) (call : ProposalCall) (s : ProposalProcessor)
      (rounds : List RoundState)
      → (let p = call.proposal in
          is_proposed b r rounds
          ≡ (if matches p.block_header.number p.round b r then true else is_proposed b r s.rounds))
      → (let p = call.proposal in
          matches p.block_header.number p.round b r ≡ true → is_proposed b r s.rounds ≡ false)
      → IsSingle n s
      → IsSingle n (store_proposal failure call (record s { rounds = rounds }))
  unfolding store_proposal
  store_proposal-IsSingle n none call s rounds after before h =
      let p = call.proposal in
      elim (Bool-cases (matches p.block_header.number p.round b r)) [
        | inl same ↦
            let yes : is_proposed b r rounds ≡ true = after ∙ rw same refl in
            let few : count_saved s.saved + n ≤ 0 = rw (before same) at h.0 in
            rw (yes, same) (omega (arith, few), omega (arith, h.1))
        | inr other ↦
            let kept : is_proposed b r rounds ≡ is_proposed b r s.rounds = after ∙ rw other refl in
            rw (kept, other) (omega (arith, h.0), omega (arith, h.1))
      ]
  store_proposal-IsSingle n (some e) call s rounds after before h =
      let p = call.proposal in
      elim (Bool-cases (matches p.block_header.number p.round b r)) [
        | inl same ↦
            let yes : is_proposed b r rounds ≡ true = after ∙ rw same refl in
            let few : count_saved s.saved + n ≤ 0 = rw (before same) at h.0 in
            (rw yes (omega (arith, few)), h.1)
        | inr other ↦ IsSingle-rounds n s rounds (after ∙ rw other refl) h
      ]

  add_verified_proposal-IsSingle :
      (n : ℕ) (env : RoundEnv) (failure : Option Error) (call : ProposalCall)
      (s : ProposalProcessor)
      → IsSingle n s
      → IsSingle n (add_verified_proposal env failure call s)
  unfolding add_verified_proposal add_proposal
  add_verified_proposal-IsSingle n env failure call s h =
      let p = call.proposal in
      let b' = p.block_header.number in
      let found = get_or_create env b' p.round s.rounds in
      let (there, named) = get_or_create-found env b' p.round s.rounds in
      elim (Bool-cases (has_proposal found.0)) [
        | inl e ↦ rw (e, add_verified_proposal) h
        | inr e ↦
            let added : RoundState = record found.0 { proposal = some p } in
            let kept = is_proposed-get_or_create b r env b' p.round s.rounds in
            rw (e, add_verified_proposal, add_proposal)
              (store_proposal-IsSingle n failure call s
                (update_round (position_of p) (λ _. added) found.1)
                (is_proposed-update_round b r b' p.round added found.1 named (ap is_some there)
                  ∙ ap (λ old. if matches b' p.round b r then true else old) kept)
                (λ same.
                  let first : b' ≡ b = ground (arith, same) in
                  let second : p.round ≡ r = ground (arith, same) in
                  let here : find (is_at b r) found.1 ≡ some found.0 =
                    subst (λ y. find (is_at b y) found.1 ≡ some found.0) second
                      (subst (λ x. find (is_at x p.round) found.1 ≡ some found.0) first there) in
                  sym kept ∙ ap proposed here ∙ e)
                h)
      ]

  finish_proposal-IsSingle :
      (n : ℕ) (env : RoundEnv) (verdict : Verdict) (failure : Option Error) (call : ProposalCall)
      (s : ProposalProcessor)
      → IsSingle n s
      → IsSingle n (finish_proposal env verdict failure call s)
  unfolding finish_proposal
  finish_proposal-IsSingle n env good failure call s h =
      add_verified_proposal-IsSingle n env failure call s h
  finish_proposal-IsSingle n env bad failure call s h = h
  finish_proposal-IsSingle n env (failed e) failure call s h = h

  resume_proposal-IsSingle :
      (n : ℕ) (env : RoundEnv) (place : ℕ) (verdict : Verdict) (failure : Option Error)
      (s : ProposalProcessor)
      → IsSingle n s
      → IsSingle n (resume_proposal env place verdict failure s)
  unfolding resume_proposal
  resume_proposal-IsSingle n env place verdict failure s h =
      elim (Option-cases (get_elem? s.verifying place)) [
        | inl e ↦ rw (e, resume_proposal) h
        | inr (call, e) ↦
            rw (e, resume_proposal)
              (finish_proposal-IsSingle n env verdict failure call
                (record s { verifying = take place s.verifying ++ drop (suc place) s.verifying }) h)
      ]

-- Before the first call, with the round states of the node.
abbrev pub no_calls : List RoundState → ProposalProcessor
no_calls rounds = record {
  rounds = rounds;
  verifying = [];
  answers = [];
  saved = [];
  sent = [];
  handled = [];
}

-- A proposal processor after calls and answers of the worker, in any order, while one block is agreed on: the
-- round states may change in between, but none loses its proposal or gets one.
pub data IsReachable (env : RoundEnv) (rounds : List RoundState) : ProposalProcessor → Type 0 where
  started : IsReachable env rounds (no_calls rounds)
  called :
      (s : ProposalProcessor) (at : Position) (call : ProposalCall)
      → IsReachable env rounds s
      → IsReachable env rounds (receive_proposal env at call s)
  resumed :
      (s : ProposalProcessor) (place : ℕ) (verdict : Verdict) (failure : Option Error)
      → IsReachable env rounds s
      → IsReachable env rounds (resume_proposal env place verdict failure s)
  changed :
      (s : ProposalProcessor) (rounds' : List RoundState)
      → ((b r : ℕ) → is_proposed b r rounds' ≡ is_proposed b r s.rounds)
      → IsReachable env rounds s
      → IsReachable env rounds (record s { rounds = rounds' })

at_least : (n m : ℕ) → n ≡ m → 0 + n ≤ m
at_least n m h = omega (arith, h)

-- Whatever the order of calls to `process`, of the worker's answers and of changes to the round states that touch
-- no proposal, and whichever writes to the storage fail: for each block number and round, at most one
-- proposal is saved; none is if the round had one from the start; if one is, the round state has a proposal;
-- and the round was handed to consensus as often as a proposal of it was saved.
pub one_proposal_per_round :
    (env : RoundEnv) (rounds : List RoundState) (s : ProposalProcessor) (b r : ℕ)
    → IsReachable env rounds s
    → (count_saved b r s.saved + one (is_proposed b r rounds) ≤ one (is_proposed b r s.rounds))
      × (count_handled b r s.handled ≡ count_saved b r s.saved)
one_proposal_per_round env rounds _ b r started = (at_least _ _ refl, refl)
one_proposal_per_round env rounds _ b r (called s at call reached) =
    receive_proposal-IsSingle b r (one (is_proposed b r rounds)) env at call s
      (one_proposal_per_round env rounds s b r reached)
one_proposal_per_round env rounds _ b r (resumed s place verdict failure reached) =
    resume_proposal-IsSingle b r (one (is_proposed b r rounds)) env place verdict failure s
      (one_proposal_per_round env rounds s b r reached)
one_proposal_per_round env rounds _ b r (changed s rounds' same reached) =
    IsSingle-rounds b r (one (is_proposed b r rounds)) s rounds' (same b r)
      (one_proposal_per_round env rounds s b r reached)
