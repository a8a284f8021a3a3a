-- ===== src/Consensus/Commits/Rounds.antt =====
-- A block is committed at the node's block number, which then goes up by one.
use mainsail.Prelude.{not, List, ◌∷◌, ℕ, zero, suc, ◌+◌, ◌≡◌, sym, subst, Bool, true, ltb, ==-eq}
use mainsail.Prelude.Outcome.{commit_failed}
use mainsail.RoundState.Quorums.{
  has_majority_prevotes, has_majority_prevotes_any, has_majority_prevotes_null,
  has_majority_precommits, has_majority_precommits_without_proposal,
}
use mainsail.Consensus.State.{
  Consensus, World, RoundRef, deref, committed, dispatched, precommitted_proposal, round_started,
  Effect,
}
use mainsail.Consensus.Monad.{M, ◌>>=◌, when, throw, modify, lift, persist_state}
use mainsail.Consensus.Rules.{
  process_proposal, on_proposal, on_proposal_locked, on_majority_prevote, on_majority_prevote_any,
  on_majority_prevote_null, on_majority_precommit_without_proposal,
}
use mainsail.Consensus.Rounds.{
  Processable, unit_of, prepare_proposal, begin_propose, begin_round, commit_block,
  on_majority_precommit, on_minority_with_higher_round, upon, on_round_majority_precommit,
  apply_vote_rules, apply_rules_with, open_and_begin, apply_here, start_round, next_block,
  enter_round,
}
use mainsail.Consensus.Safety.Hoare.{
  Keeps, Ends-continue, Ends-when, Keeps-then, Keeps-when, Keeps-lift,
}
use mainsail.Consensus.Safety.Rules.{and_left}
use mainsail.Consensus.Commits.{History, IsKept}
use mainsail.Consensus.Commits.Rules.{
  persist_state-IsKept, process_proposal-IsKept, on_proposal-IsKept, on_proposal_locked-IsKept,
  on_majority_prevote-IsKept, on_majority_prevote_any-IsKept, on_majority_prevote_null-IsKept,
  on_majority_precommit_any-IsKept, on_majority_precommit_without_proposal-IsKept,
}

-- The fields when the processor is asked to commit the block.
abbrev pub before_commit : World → Consensus → Consensus
before_commit w n = record n {
  log = dispatched precommitted_proposal ∷ n.log;
  tick = suc (suc n.tick);
  rounds = w.arrive (suc n.tick) (w.arrive n.tick n.rounds);
}

-- The fields once the processor has committed the block.
abbrev pub after_commit : World → ℕ → Consensus → Consensus
after_commit w number n = record n {
  log = committed number ∷ n.log;
  tick = suc n.tick;
  rounds = w.arrive n.tick n.rounds;
}

module _ (w : World) (Q : ℕ → List Effect → Type 0) (kept : History Q) where
  abbrev P : Consensus → Type 0
  P = IsKept Q

  prepare_proposal-IsKept :
      (ref : RoundRef) (n : Consensus) → P n → Keeps P (prepare_proposal w ref n)
  unfolding prepare_proposal
  prepare_proposal-IsKept ref n h =
      Keeps-when P _ _ n h (Keeps-lift P _ _ n h (λ proposer _. Keeps-when P _ _ n h h))

  begin_propose-IsKept : (ref : RoundRef) (n : Consensus) → P n → Keeps P (begin_propose w ref n)
  unfolding begin_propose
  begin_propose-IsKept ref n h =
      Keeps-lift P _ _ n h (λ timestamp _. Keeps-when P _ _ _ h (prepare_proposal-IsKept ref _ h))

  pub begin_round-IsKept : (n : Consensus) → P n → Keeps P (begin_round w n)
  unfolding begin_round
  begin_round-IsKept n h = Keeps-when P _ _ _ h (
      Keeps-lift P _ _ _ h (λ proposer _.
        let started = kept.quiet (dispatched round_started) tt h in
        Keeps-when P _ _ _ started (begin_propose-IsKept _ _ started)))

  open_and_begin-IsKept : (round : ℕ) (n : Consensus) → P n → Keeps P (open_and_begin w round n)
  unfolding open_and_begin
  open_and_begin-IsKept round n h =
      Keeps-then P (when (ltb 0 round) (persist_state w) (enter_round round n)) (λ _. begin_round w)
        (Keeps-when P (ltb 0 round) (persist_state w) (enter_round round n) h
          (persist_state-IsKept w Q kept (enter_round round n) h))
        (λ _ m k. begin_round-IsKept m k)

  apply_vote_rules-IsKept :
      (ref : RoundRef) (n : Consensus) → P n → Keeps P (apply_vote_rules w ref n)
  unfolding apply_vote_rules
  apply_vote_rules-IsKept ref n h =
      Keeps-then P (process_proposal w ref n) _ (process_proposal-IsKept w Q kept ref n h) (λ _ n h.
        Keeps-then P (on_proposal w ref n) _ (on_proposal-IsKept w Q kept ref n h) (λ _ n h.
          Keeps-then P (on_proposal_locked w ref n) _ (on_proposal_locked-IsKept w Q kept ref n h)
            (λ _ n h.
              Keeps-then P (upon w (has_majority_prevotes w.env) ref (on_majority_prevote w ref) n)
                _ (Keeps-when P _ _ n h (on_majority_prevote-IsKept w Q kept ref n h))
                (λ _ n h.
                  Keeps-then P
                    (upon w (has_majority_prevotes_any w.env) ref (on_majority_prevote_any w ref) n)
                    _ (Keeps-when P _ _ n h (on_majority_prevote_any-IsKept w Q kept ref n h))
                    (λ _ n h.
                      Keeps-then P
                        (upon w (has_majority_prevotes_null w.env) ref
                          (on_majority_prevote_null w ref) n)
                        _ (Keeps-when P _ _ n h (on_majority_prevote_null-IsKept w Q kept ref n h))
                        (λ _ n h.
                          Keeps-when P _ _ n h
                            (on_majority_precommit_any-IsKept w Q kept ref n h)))))))

  -- What a start of a round keeps.
  abbrev pub IsStart : (ℕ → M (Unit {0})) → Type 0
  IsStart start = (round : ℕ) (n : Consensus) → P n → Keeps P (start round n)

  -- The node is at the block number.
  abbrev At : ℕ → Consensus → Type 0
  At number n = (number ≡ n.block_number) × P n

  module _ (start : ℕ → M (Unit {0})) (starts : IsStart start) where
    commit_block-IsKept :
        (number : ℕ) (n : Consensus) → At number n → Keeps P (commit_block w start number n)
    unfolding commit_block
    commit_block-IsKept number n (at, h) =
        Ends-continue (λ _ m. At number m) (λ _ m. P m) P
          (when (not (w.commit (suc (suc n.tick)) number)) (throw commit_failed)
            (before_commit w n))
          (λ _ m. start 0 (next_block (after_commit w number m)))
          (Ends-when (λ _ m. At number m) P (not (w.commit (suc (suc n.tick)) number))
            (throw commit_failed) (before_commit w n)
            (λ _. kept.quiet (dispatched precommitted_proposal) tt h)
            (λ _. (at, kept.quiet (dispatched precommitted_proposal) tt h)))
          (λ _ m k. starts 0 (next_block (after_commit w number m)) (
            subst (λ number. Q (m.block_number + 1) (committed number ∷ m.log)) (sym k.0)
              (kept.commit k.1)))

    -- What `onMajorityPrecommit` does once its flag is set.
    abbrev commit_valid : Processable → M (Unit {0})
    commit_valid unit = do
      block ← lift unit.block
      result ← lift unit.result
      when result.success (commit_block w start unit.block_number)

    pub on_majority_precommit-IsKept :
        (unit : Processable) (is_round_state : Bool) (n : Consensus)
        → P n
        → Keeps P (on_majority_precommit w start unit is_round_state n)
    unfolding on_majority_precommit
    on_majority_precommit-IsKept unit is_round_state n h =
        Ends-when (λ _ m. P m) P _ _ n
          (λ e.
            let at = ==-eq unit.block_number n.block_number (and_left _ _ e) in
            Ends-continue (λ _ m. At unit.block_number m) (λ _ m. P m) P
              (when is_round_state (modify (λ m. record m { did_majority_precommit = true })) n)
              (λ _. commit_valid unit)
              (Ends-when (λ _ m. At unit.block_number m) P is_round_state
                (modify (λ m. record m { did_majority_precommit = true })) n (λ _. (at, h))
                (λ _. (at, h)))
              (λ _ m k. Keeps-lift P unit.block _ m k.1 (λ block _.
                Keeps-lift P unit.result _ m k.1 (λ result _.
                  Keeps-when P result.success _ m k.1
                    (commit_block-IsKept unit.block_number m k)))))
          (λ _. h)

    on_minority_with_higher_round-IsKept :
        (ref : RoundRef) (n : Consensus)
        → P n
        → Keeps P (on_minority_with_higher_round w start ref n)
    unfolding on_minority_with_higher_round
    on_minority_with_higher_round-IsKept ref n h = Keeps-when P _ _ n h (starts ref.round n h)

    pub apply_rules_with-IsKept :
        (ref : RoundRef) (n : Consensus) → P n → Keeps P (apply_rules_with w start ref n)
    unfolding apply_rules_with on_round_majority_precommit
    apply_rules_with-IsKept ref n h = Keeps-when P _ _ n h (
        Keeps-then P (apply_vote_rules w ref n) _ (apply_vote_rules-IsKept ref n h) (λ _ n h.
          Keeps-then P
            (upon w (has_majority_precommits w.env) ref (on_round_majority_precommit w start ref) n)
            _
            (Keeps-when P _ _ n h
              (on_majority_precommit-IsKept (unit_of (deref w.env ref n)) true n h))
            (λ _ n h.
              Keeps-then P
                (upon w (has_majority_precommits_without_proposal w.env) ref
                  (on_majority_precommit_without_proposal w ref) n)
                _
                (Keeps-when P _ _ n h
                  (on_majority_precommit_without_proposal-IsKept w Q kept ref n h))
                (λ _ n h. Keeps-when P _ _ n h (on_minority_with_higher_round-IsKept ref n h)))))

    pub apply_here-IsKept : (n : Consensus) → P n → Keeps P (apply_here w start n)
    apply_here-IsKept n h = Keeps-when P _ _ n h (apply_rules_with-IsKept _ _ h)

  pub start_round-IsStart : (fuel : ℕ) → IsStart (start_round w fuel)
  unfolding start_round
  start_round-IsStart zero round n h = h
  start_round-IsStart (suc fuel) round n h =
      Keeps-then P (open_and_begin w round n) _ (open_and_begin-IsKept round n h)
        (λ _ m k. apply_here-IsKept (start_round w fuel) (start_round-IsStart fuel) m k)
