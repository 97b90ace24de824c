-- ===== src/Decider/Guards.antt =====
-- When the coordinator goes on to decide.
use examples_service.Common.{◌≤◌, ◌≡◌, ◌⊎◌, Bool, true, false}
use examples_service.Common.{arith, length}
use examples_service.Policy.Number.{Number}
use examples_service.Policy.Strategy.{is_quorum_met}
use examples_service.Decider.{
  Bootstrap, State, HandlerContext, is_set, expected, begin_commit, try_commit,
}

-- The guards of `tryCommit`, passed.
pub record MayCommit {F : Number} (b : Bootstrap F) (force : Bool) (s : State F) : Type 0 where
  pub still_open : s.committed ≡ false
  pub known : is_set s.proposal_id ≡ true
  pub waited : (force ≡ true) ⊎ (expected b ≤ length s.signals)
  pub quorum : is_quorum_met b.policy_hints s.signals (expected b) ≡ true

module _ {F : Number} (b : Bootstrap F) where
  pub try_commit-cases :
      (ctx : HandlerContext) (force : Bool) (s : State F)
      → (try_commit b ctx force s ≡ s)
        ⊎ (MayCommit b force s × (try_commit b ctx force s ≡ begin_commit b ctx s))
  unfolding try_commit
  try_commit-cases ctx force s = ground arith
