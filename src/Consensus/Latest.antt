-- ===== src/Consensus/Latest.antt =====
-- Which validator set is in force.
use hypersnap.Shared.{
  ℕ, ◌≤◌, ◌≡◌, ◌⊎◌, inl, inr, refl, ap, sym, ◌∙◌, true, ◌&&◌, List, [], ◌∷◌, ok, All, arith, ltb,
  Bool-cases, if◌then◌else◌,
}
use mathlib.Core.Path.{subst}
use hypersnap.Consensus.{
  StoredValidatorSet, StoredValidatorSets, is_effective, latest, get_validator_set,
}

module _ {V : Type 0} where
  abbrev pub OneOf : StoredValidatorSet V → List (StoredValidatorSet V) → Type 0
  OneOf r [] = ⊥
  OneOf r (c ∷ cs) = (r ≡ c) ⊎ OneOf r cs

  -- The config is the first one given, or one of the list that may be used; and none that may be used takes
  -- effect later.
  pub record IsLatest (shard_id height : ℕ) (first : StoredValidatorSet V)
      (configs : List (StoredValidatorSet V)) (r : StoredValidatorSet V) : Type 0 where
    pub chosen : (r ≡ first) ⊎ ((is_effective shard_id height r ≡ true) × OneOf r configs)
    pub not_before : first.effective_at ≤ r.effective_at
    pub latest_of :
        All (λ c. is_effective shard_id height c ≡ true → c.effective_at ≤ r.effective_at) configs

  latest-IsLatest :
      (shard_id height : ℕ) (first : StoredValidatorSet V) (configs : List (StoredValidatorSet V))
      → IsLatest shard_id height first configs (latest shard_id height first configs)
  unfolding latest
  latest-IsLatest shard_id height first [] = record {
    chosen = inl refl;
    not_before = omega arith;
    latest_of = tt;
  }
  latest-IsLatest shard_id height first (c ∷ cs) =
      elim (Bool-cases (is_effective shard_id height c && ltb first.effective_at c.effective_at)) [
        | inl better ↦
            let ih = latest-IsLatest shard_id height c cs in
            subst
              (λ b.
                IsLatest shard_id height first (c ∷ cs)
                  (latest shard_id height (if b then c else first) cs))
              (sym better)
              (record {
                chosen = elim ih.chosen [
                  | inl e ↦
                      inr (ap (is_effective shard_id height) e ∙ ground (arith, better), inl e)
                  | inr (effective, one) ↦ inr (effective, inr one)
                ];
                not_before = ground (arith, better, ih.not_before);
                latest_of = ((λ h. ih.not_before), ih.latest_of);
              })
        | inr worse ↦
            let ih = latest-IsLatest shard_id height first cs in
            subst
              (λ b.
                IsLatest shard_id height first (c ∷ cs)
                  (latest shard_id height (if b then c else first) cs))
              (sym worse)
              (record {
                chosen = elim ih.chosen [
                  | inl e ↦ inl e
                  | inr (effective, one) ↦ inr (effective, inr one)
                ];
                not_before = ih.not_before;
                latest_of = ((λ h. ground (arith, worse, h, ih.not_before)), ih.latest_of);
              })
      ]

  -- Where there is a first config, there is a validator set at every height: that of the first
  -- config or of one that serves the shard and is effective at the height, and no config that
  -- serves the shard and is effective at the height takes effect later.
  pub get_validator_set_latest :
      (stored : StoredValidatorSets V) (height : ℕ) (first : StoredValidatorSet V)
      (rest : List (StoredValidatorSet V))
      → stored.sets ≡ first ∷ rest
      → (r : StoredValidatorSet V) × (get_validator_set stored height ≡ ok r.validators)
        × ((r ≡ first) ⊎ ((is_effective stored.shard_id height r ≡ true) × OneOf r (first ∷ rest)))
        × All
            (λ c. is_effective stored.shard_id height c ≡ true → c.effective_at ≤ r.effective_at)
            (first ∷ rest)
  unfolding get_validator_set
  get_validator_set_latest stored height first rest h =
      let found = latest-IsLatest stored.shard_id height first (first ∷ rest) in
      (
        latest stored.shard_id height first (first ∷ rest),
        ground (arith, h),
        found.chosen,
        found.latest_of,
      )
