-- ===== src/Processors/Answers.antt =====
-- What `process` of a downloaded block answers, and what the node has done by then.
use mainsail.Prelude.{
  ℕ, suc, ◌+◌, ◌≡◌, refl, sym, subst, ap, Bool, true, false, Bool-cases, Option, some, List, ◌∷◌,
  [], inl, inr, if◌then◌else◌, not, ◌||◌, ==-eq, absurd_test, arith,
}
use mainsail.Prelude.Outcome.{ok, ◌>>=◌, commit_failed}
use mainsail.Contracts.{Block, Commit, BlockProcessorResult}
use mainsail.Consensus.State.{
  Consensus, World, Effect, committed, dispatched, precommitted_proposal,
}
use mainsail.Consensus.Monad.{Outcome, done, threw, when, throw, lift}
use mainsail.Consensus.Rounds.{start_round, next_block, on_majority_precommit, commit_block}
use mainsail.Consensus.Events.{Input, result_of, handle_commit_state, after}
use mainsail.Consensus.Safety.Hoare.{Ends, Ends-continue, Ends-when, Ends-mono}
use mainsail.Consensus.Commits.{IsKept, History}
use mainsail.Consensus.Commits.Rounds.{before_commit, after_commit, start_round-IsStart}
use mainsail.Processors.{accepted, invalid}
use mainsail.Processors.CommitProcessor.{has_valid_block_number, judged, process_commit}
use mainsail.Processors.Committed.{
  read_position, unit_of_commit, is_left_alone, left_in_unit, handled, at_lock, handle_commit,
  process, IsCommitted, Says,
}

not_left_alone : (a b : Bool) → (a || not b) ≡ false → (a ≡ false) × (b ≡ true)
not_left_alone false true e = (refl, refl)
not_left_alone false false e = absurd (absurd_test e)
not_left_alone true b e = absurd (absurd_test e)

IsCommitted-History : (number : ℕ) (before : List Effect) → History (IsCommitted number before)
IsCommitted-History number before = record {
  quiet = λ e q h. (h.0, (e ∷ h.1.0, ap (λ log. e ∷ log) h.1.1));
  commit = λ {b} h. (omega arith, (committed b ∷ h.1.0, ap (λ log. committed b ∷ log) h.1.1));
}

module _ (w : World) (process_block : Block → Option BlockProcessorResult) (fuel : ℕ)
    (commit : Commit) (before : Consensus) where
  abbrev number : ℕ
  number = commit.block.number

  abbrev result : BlockProcessorResult
  result = result_of w process_block fuel (unit_of_commit commit)

  -- The handler's end, read as the answer of `process`.
  abbrev Answered : Option BlockProcessorResult → Unit {0} → Consensus → Type 0
  Answered left _ = Says number result before (ok (judged left))

  abbrev Rejected : Consensus → Type 0
  Rejected _ =
      (result.success ≡ true) × (before.block_number ≡ number) × (before.is_disposed ≡ false)

  Says-handled :
      (outcome : Outcome (Unit {0}))
      → Ends
          (Answered (left_in_unit w process_block fuel (unit_of_commit commit) before))
          Rejected
          outcome
      → Says number result before
          (do
            left ← handled w process_block fuel (unit_of_commit commit) before outcome
            ok (judged left))
          (after outcome)
  Says-handled (done a m) h = h
  Says-handled (threw e m) h = h

  commit_block-IsCommitted :
      (n : Consensus)
      → n.block_number ≡ number
      → n.log ≡ before.log
      → Rejected n
      → Ends
          (λ _ m. IsCommitted number before.log m.block_number m.log)
          Rejected
          (commit_block w (start_round w fuel) number n)
  unfolding commit_block
  commit_block-IsCommitted n at same r =
      Ends-continue (λ _ m. IsAbout m) _ Rejected
        (when (not (w.commit (suc (suc n.tick)) number)) (throw commit_failed) (before_commit w n))
        (λ _ m. start_round w fuel 0 (next m))
        (Ends-when (λ _ m. IsAbout m) Rejected _ _ _ (λ _. r)
          (λ _. (at, ap (λ log. dispatched precommitted_proposal ∷ log) same)))
        (λ _ m k.
          Ends-mono {A = Unit {0}} (λ _ m. IsKept Q m) (λ _ m. IsKept Q m) (IsKept Q) Rejected
            (start_round w fuel 0 (next m))
            (start_round-IsStart w Q (IsCommitted-History number before.log) fuel 0 (next m)
              (starts m k))
            (λ _ _ h. h) (λ _ _. r))
    where
      IsAbout : Consensus → Type 0
      IsAbout m =
          (m.block_number ≡ number) × (m.log ≡ dispatched precommitted_proposal ∷ before.log)

      Q : ℕ → List Effect → Type 0
      Q = IsCommitted number before.log

      next : Consensus → Consensus
      next m = next_block (after_commit w number m)

      starts : (m : Consensus) → IsAbout m → Q (m.block_number + 1) (committed number ∷ m.log)
      starts m k = (omega (arith, k.0), ([], ap (λ log. committed number ∷ log) k.1))

  -- The answer for a result, by whether it is a success.
  Says-judged :
      (b : Bool) (m : Consensus)
      → result.success ≡ b
      → Says number result before (ok (if b then accepted else invalid)) m
      → Answered (some result) tt m
  Says-judged b m s h =
      subst (λ b. Says number result before (ok (if b then accepted else invalid)) m) (sym s) h

  -- The node when the processor has judged the block.
  abbrev judging : Consensus
  judging = record before { tick = suc before.tick; rounds = w.arrive before.tick before.rounds }

  handle_commit-Answered :
      Ends
        (Answered (left_in_unit w process_block fuel (unit_of_commit commit) before))
        Rejected
        (handle_commit w process_block fuel commit before)
  unfolding handle_commit_state on_majority_precommit lift when
  handle_commit-Answered =
      elim (Bool-cases (is_left_alone w process_block fuel (unit_of_commit commit) before)) [
        | inl e ↦ rw (e, when) (refl, refl)
        | inr e ↦
            let at = (not_left_alone _ _ e).1 in
            elim (Bool-cases result.success) [
              | inl s ↦
                  rw (e, at, s)
                    (Ends-mono (λ _ m. IsCommitted number before.log m.block_number m.log)
                      (Answered (some result)) Rejected Rejected
                      (commit_block w (start_round w fuel) number judging)
                      (commit_block-IsCommitted judging (sym (==-eq _ _ at)) refl
                        (s, sym (==-eq _ _ at), (not_left_alone _ _ e).0))
                      (λ _ m. Says-judged true m s) (λ _ r. r))
              | inr s ↦ rw (e, at, s) (Says-judged false judging s (s, (refl, refl)))
            ]
      ]

-- What the commit processor answers for a block is what the node has done, whichever inputs were handled before
-- consensus takes the block, and whatever the other components answer. Accepted: the node is past the block's
-- number, and right after what it had done before, it dispatched the precommitted proposal and committed the
-- block. Invalid: the block failed, and the node has its block number and has done nothing. Skipped: the same
-- without a result of the block. A throw: the block was valid, and the node ran and was at the block's number.
pub process-Says :
    (w : World) (process_block : Block → Option BlockProcessorResult) (fuel : ℕ) (commit : Commit)
    (queue : List Input) (n : Consensus)
    → Says commit.block.number
        (result_of w process_block fuel (unit_of_commit commit))
        (at_lock w process_block fuel queue n)
        (process w process_block fuel commit queue n).0
        (process w process_block fuel commit queue n).1
unfolding process process_commit
process-Says w process_block fuel commit queue n =
    elim (Bool-cases (has_valid_block_number (read_position w n) commit)) [
      | inl e ↦ rw e (
          Says-handled w process_block fuel commit (at_lock w process_block fuel queue n) _ (
            handle_commit-Answered w process_block fuel commit
              (at_lock w process_block fuel queue n)))
      | inr e ↦ rw e (refl, refl)
    ]
