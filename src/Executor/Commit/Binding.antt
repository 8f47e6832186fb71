-- ===== src/Executor/Commit/Binding.antt =====
-- What the batch commitment of lib/src/executor/mod.rs binds: the whole summary of the batch.
use zksync_os_zisk.Prelude.{
  ◌≢◌, ◌≤◌, ℕ, ◌≡◌, refl, ap, ◌⊎◌, inl, inr, Option, none, some, List, length, length-append,
  length-take, arith,
}
use zksync_os_zisk.Prelude.Bytes.{be_bytes, length-be_bytes}
use zksync_os_zisk.Merkle.Hash
use zksync_os_zisk.Merkle.Hash.{Only, B256, IsB256, IsU64, Blake2s, Collision, UnlessCollision}
use zksync_os_zisk.Commitment.Hash.{
  widen_keccak, Keccak, KeccakCollision, UnlessKeccakCollision, keccak256_inj,
}
use zksync_os_zisk.Commitment.{
  chain_config_length, batch_output_preimage, ChainConfigLayout, ChainConfig, atlas_v4, atlas_v5,
  chain_config_words, chain_config_hash, state_commitment_hash, batch_output_hash_native,
}
use zksync_os_zisk.Commitment.State.{state_preimage, state_commitment_hash_inj}
use zksync_os_zisk.Commitment.Binding.{
  public_input_preimage, OptionFits, batch_public_input_hash_inj,
}
use zksync_os_zisk.Commitment.Output.{IsBatchOutputFields, SameOutput, batch_output_hash_native_inj}
use zksync_os_zisk.Commitment.Config.{
  config_preimage, IsChainConfig, SameCommitted, chain_config_hash_inj,
}
use zksync_os_zisk.Executor.Commit.{StateFields, Summary}
use zksync_os_zisk.Executor.Commit.Summarize.{state_hash, config_hash, commit}

-- The ranges of the source's types.
pub record IsStateFields (s : StateFields) : Type 0 where
  pub root_fits : IsB256 s.tree_root
  pub count_fits : IsU64 s.leaf_count
  pub number_fits : IsU64 s.block_number
  pub hashes_fit : IsB256 s.block_hashes
  pub time_fits : IsU64 s.last_block_timestamp

abbrev pub ConfigFits : Option (ChainConfigLayout × ChainConfig) → Type 0
ConfigFits none = Unit
ConfigFits (some (layout, config)) = IsChainConfig config

pub record IsSummary (m : Summary) : Type 0 where
  pub before_fits : IsStateFields m.before
  pub after_fits : IsStateFields m.after
  pub output_fits : IsBatchOutputFields m.output
  pub config_fits : ConfigFits m.config

-- One layout, and the same committed fields; or no config on either side.
abbrev pub SameConfigs :
    Option (ChainConfigLayout × ChainConfig) → Option (ChainConfigLayout × ChainConfig) → Type 0
SameConfigs none none = Unit
SameConfigs none (some d) = ⊥
SameConfigs (some c) none = ⊥
SameConfigs (some (layout, c)) (some (layout', d)) = (layout ≡ layout') × SameCommitted layout' c d

length-chain_config_words : (c : ChainConfig) → length (chain_config_words c) ≡ 192
unfolding chain_config_words
length-chain_config_words c = omega (
  arith,
  length-be_bytes 8 c.chain_id,
  length-be_bytes 8 c.max_tx_gas_limit,
  λ (ys : List ℕ). length-append (be_bytes 8 c.chain_id) ys,
  λ (ys : List ℕ). length-append (be_bytes 8 c.max_tx_gas_limit) ys,
)

some_hash : {x y : B256} → some x ≡ some y → x ≡ y
some_hash {x} e = ap (λ o. elim o [ some z ↦ z | none ↦ x ]) e

module _ ⦃H : Blake2s⦄ ⦃K : Keccak⦄ where
  -- `P` holds, or a second preimage is at hand: under Blake2s of one of the byte strings `Q`, or under
  -- Keccak-256 of one of the byte strings `R`.
  abbrev pub UnlessEither {ℓ} : (Q R : List ℕ → Type 0) → Type ℓ → Type ℓ
  UnlessEither Q R P = P ⊎ (Collision Q ⊎ KeccakCollision R)

  then_blake {ℓ κ} :
      {Q Q' R : List ℕ → Type 0} {P : Type ℓ} {T : Type κ}
      → ((m : List ℕ) → Q' m → Q m)
      → UnlessCollision Q' P
      → (P → UnlessEither Q R T)
      → UnlessEither Q R T
  then_blake sub u f = elim (Hash.widen sub u) [ inl p ↦ f p | inr c ↦ inr (inl c) ]

  then_keccak {ℓ κ} :
      {Q R R' : List ℕ → Type 0} {P : Type ℓ} {T : Type κ}
      → ((m : List ℕ) → R' m → R m)
      → UnlessKeccakCollision R' P
      → (P → UnlessEither Q R T)
      → UnlessEither Q R T
  then_keccak sub u f = elim (widen_keccak sub u) [ inl p ↦ f p | inr c ↦ inr (inr c) ]

  keccak_then {ℓ κ} :
      {R : List ℕ → Type 0} {P : Type ℓ} {T : Type κ}
      → UnlessKeccakCollision R P
      → (P → UnlessKeccakCollision R T)
      → UnlessKeccakCollision R T
  keccak_then (inl p) f = f p
  keccak_then (inr c) f = inr c

  -- What the commitment to a state hashes.
  abbrev pub preimage_of : StateFields → List ℕ
  preimage_of s =
      state_preimage s.tree_root s.leaf_count s.block_number s.block_hashes s.last_block_timestamp

  -- What the commitment to an optional chain config hashes.
  abbrev pub ConfigHashed : Option (ChainConfigLayout × ChainConfig) → List ℕ → Type 0
  ConfigHashed none m = ⊥
  ConfigHashed (some (layout, c)) m = Only (config_preimage layout c) m

  -- The byte strings that the commitment to a batch hashes with Blake2s, and with Keccak-256.
  abbrev pub StatesHashed : Summary → List ℕ → Type 0
  StatesHashed b m = Only (preimage_of b.before) m ⊎ Only (preimage_of b.after) m

  abbrev pub BatchHashed : Summary → List ℕ → Type 0
  BatchHashed b m =
      Only
        (public_input_preimage (state_hash b.before) (state_hash b.after) (config_hash b.config)
          (batch_output_hash_native b.layout b.output))
        m
      ⊎ (ConfigHashed b.config m ⊎ Only (batch_output_preimage b.layout b.output) m)

  state_hash_inj :
      (a b : StateFields)
      → IsStateFields a
      → IsStateFields b
      → state_hash a ≡ state_hash b
      → UnlessCollision (Only (preimage_of b)) (a ≡ b)
  unfolding state_hash
  state_hash_inj a b ha hb e =
      Hash.and_then
        (state_commitment_hash_inj a.tree_root b.tree_root a.leaf_count b.leaf_count a.block_number
          b.block_number a.block_hashes b.block_hashes a.last_block_timestamp b.last_block_timestamp
          ha.root_fits hb.root_fits ha.count_fits hb.count_fits ha.number_fits hb.number_fits
          ha.hashes_fit hb.hashes_fit ha.time_fits hb.time_fits e)
        λ (e₁, e₂, e₃, e₄, e₅). inl λ i. record {
          tree_root = e₁ i;
          leaf_count = e₂ i;
          block_number = e₃ i;
          block_hashes = e₄ i;
          last_block_timestamp = e₅ i;
        }

  cross_layout :
      (k l : ChainConfigLayout) (c d : ChainConfig)
      → chain_config_length k ≢ chain_config_length l
      → chain_config_length k ≤ 192
      → chain_config_length l ≤ 192
      → chain_config_hash k c ≡ chain_config_hash l d
      → UnlessKeccakCollision (Only (config_preimage l d)) (⊥)
  unfolding chain_config_hash
  cross_layout k l c d differ hk hl e = keccak_then (keccak256_inj _ _ refl e) λ p. absurd (
      differ (
        omega (
          arith,
          ap length p,
          length-take (chain_config_length k) (chain_config_words c)
              (omega (arith, length-chain_config_words c)),
          length-take (chain_config_length l) (chain_config_words d)
              (omega (arith, length-chain_config_words d)),
        )))

  config_hash_inj :
      (a b : Option (ChainConfigLayout × ChainConfig))
      → ConfigFits a
      → ConfigFits b
      → config_hash a ≡ config_hash b
      → UnlessKeccakCollision (ConfigHashed b) (SameConfigs a b)
  unfolding config_hash
  config_hash_inj none none ha hb e = inl tt
  config_hash_inj none (some (l, d)) ha hb e = cc
  config_hash_inj (some (k, c)) none ha hb e = cc
  config_hash_inj (some (atlas_v4, c)) (some (atlas_v4, d)) ha hb e =
      keccak_then (chain_config_hash_inj atlas_v4 c d ha hb (some_hash e)) λ p. inl (refl, p)
  config_hash_inj (some (atlas_v5, c)) (some (atlas_v5, d)) ha hb e =
      keccak_then (chain_config_hash_inj atlas_v5 c d ha hb (some_hash e)) λ p. inl (refl, p)
  config_hash_inj (some (atlas_v4, c)) (some (atlas_v5, d)) ha hb e =
      keccak_then
        (cross_layout atlas_v4 atlas_v5 c d (omega arith) (omega arith) (omega arith) (some_hash e))
        λ no. absurd no
  config_hash_inj (some (atlas_v5, c)) (some (atlas_v4, d)) ha hb e =
      keccak_then
        (cross_layout atlas_v5 atlas_v4 c d (omega arith) (omega arith) (omega arith) (some_hash e))
        λ no. absurd no

  config_hash-OptionFits :
      (c : Option (ChainConfigLayout × ChainConfig)) → OptionFits (config_hash c)
  unfolding config_hash chain_config_hash
  config_hash-OptionFits none = tt
  config_hash-OptionFits (some (layout, c)) = K.keccak256-IsB256 _

  state_hash-IsB256 : (s : StateFields) → IsB256 (state_hash s)
  unfolding state_hash state_commitment_hash
  state_hash-IsB256 s = H.blake2s-IsB256 _

  output_hash-IsB256 : (m : Summary) → IsB256 (batch_output_hash_native m.layout m.output)
  unfolding batch_output_hash_native
  output_hash-IsB256 m = K.keccak256-IsB256 _

  -- Two batches with one commitment have the same state before and after (tree root, leaf count, block
  -- number, commitment to the block hashes, timestamp), the same output layout, the same output in the
  -- fields of that layout, and both no chain config or one layout and the same chain config in its
  -- fields, unless a second preimage of a byte string that the second commitment hashes is at
  -- hand. All values are in the range of
  -- their types.
  pub commit_inj :
      (a b : Summary)
      → IsSummary a
      → IsSummary b
      → commit a ≡ commit b
      → UnlessEither (StatesHashed b) (BatchHashed b) (
          (a.before ≡ b.before)
          × (a.after ≡ b.after)
          × (a.layout ≡ b.layout)
          × SameOutput b.layout a.output b.output
          × SameConfigs a.config b.config)
  unfolding commit
  commit_inj a b ha hb e =
      then_keccak (λ m h. inl h)
        (batch_public_input_hash_inj (state_hash a.before) (state_hash a.after)
          (batch_output_hash_native a.layout a.output) (state_hash b.before) (state_hash b.after)
          (batch_output_hash_native b.layout b.output) (config_hash a.config) (config_hash b.config)
          (state_hash-IsB256 a.before) (state_hash-IsB256 a.after) (output_hash-IsB256 a)
          (state_hash-IsB256 b.before) (state_hash-IsB256 b.after) (output_hash-IsB256 b)
          (config_hash-OptionFits a.config) (config_hash-OptionFits b.config) e)
        λ (e₁, e₂, e₃, e₄).
          then_blake (λ m h. inl h)
            (state_hash_inj a.before b.before ha.before_fits hb.before_fits e₁)
            λ before.
              then_blake (λ m h. inr h)
                (state_hash_inj a.after b.after ha.after_fits hb.after_fits e₂)
                λ after.
                  then_keccak (λ m h. inr (inl h))
                    (config_hash_inj a.config b.config ha.config_fits hb.config_fits e₃)
                    λ config.
                      then_keccak (λ m h. inr (inr h))
                        (batch_output_hash_native_inj a.layout b.layout a.output b.output
                          ha.output_fits hb.output_fits e₄)
                        λ (layout, output). inl (before, after, layout, output, config)
