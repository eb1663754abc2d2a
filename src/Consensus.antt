-- ===== src/Consensus.antt =====
-- Validator sets by height: src/consensus/validator.rs, `StoredValidatorSets`. The set of validators itself
-- (`SnapchainValidatorSet`) is a type parameter.
pub mod Latest
use hypersnap.Shared.{
  ℕ, Bool, true, false, ◌&&◌, ◌||◌, List, [], ◌∷◌, Result, ok, err, Error, leb, ltb, ◌==◌,
  if◌then◌else◌,
}

pub record StoredValidatorSet (V : Type 0) : Type 0 where
  pub effective_at : ℕ
  pub validators : V
  pub shard_ids : List ℕ

pub record StoredValidatorSets (V : Type 0) : Type 0 where
  pub shard_id : ℕ
  pub sets : List (StoredValidatorSet V)

-- `config.shard_ids.contains(&self.shard_id)`
unfoldable pub serves : List ℕ → ℕ → Bool
serves [] shard_id = false
serves (id ∷ shard_ids) shard_id = id == shard_id || serves shard_ids shard_id

module _ {V : Type 0} where
  -- The config may be used for the shard at the height.
  unfoldable pub is_effective : ℕ → ℕ → StoredValidatorSet V → Bool
  is_effective shard_id height config =
      serves config.shard_ids shard_id && leb config.effective_at height

  -- The loop, with the best config so far.
  unfoldable pub latest :
      ℕ → ℕ → StoredValidatorSet V → List (StoredValidatorSet V) → StoredValidatorSet V
  unfolding is_effective
  latest shard_id height result [] = result
  latest shard_id height result (config ∷ configs) =
      latest shard_id height
        (if is_effective shard_id height config && ltb result.effective_at config.effective_at
          then config
          else result)
        configs

  unfoldable pub get_validator_set : StoredValidatorSets V → ℕ → Result Error V
  unfolding latest
  get_validator_set stored height = elim stored.sets [
    | [] ↦ err Error.panic
    | first ∷ rest ↦ ok (latest stored.shard_id height first (first ∷ rest)).validators
  ]
