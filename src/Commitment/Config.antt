-- ===== src/Commitment/Config.antt =====
-- The chain config hash of lib/src/commitment.rs determines the config.
use zksync_os_zisk.Prelude.{
  ℕ, zero, suc, ◌+◌, ◌≡◌, refl, ap, sym, ◌∙◌, inl, List, [], ◌∷◌, ◌++◌, length, take, drop, get_or,
  arith,
}
use zksync_os_zisk.Prelude.Bytes.{be_bytes, be_bytes_inj, length-be_bytes}
use zksync_os_zisk.Merkle.Hash.{Only, IsU64}
use zksync_os_zisk.Types.{bool_byte}
use zksync_os_zisk.Types.Log.{bool_byte_inj}
use zksync_os_zisk.Commitment.Hash.{Keccak, keccak256_inj, UnlessKeccakCollision, and_then}
use zksync_os_zisk.Commitment.{
  chain_config_length, ChainConfigLayout, atlas_v4, atlas_v5, ChainConfig, chain_config_words,
  chain_config_hash, u256_of_u64, byte_word,
}

-- The ranges of the source's types.
pub record IsChainConfig (c : ChainConfig) : Type 0 where
  pub chain_id_fits : IsU64 c.chain_id
  pub limit_fits : IsU64 c.max_tx_gas_limit

take-past : (n m : ℕ) (xs ys : List ℕ) → length xs ≡ n → take (n + m) (xs ++ ys) ≡ xs ++ take m ys
take-past zero m [] ys e = let z : 0 + m ≡ m = omega arith in rw z refl
take-past zero m (x ∷ xs) ys e = absurd (omega arith)
take-past (suc n) m [] ys e = absurd (omega arith)
take-past (suc n) m (x ∷ xs) ys e =
    let z : suc n + m ≡ suc (n + m) = omega arith in
    rw z (ap (λ l. x ∷ l) (take-past n m xs ys (omega arith)))

-- Equal in the fields that every layout commits.
pub record SameConfig (a b : ChainConfig) : Type 0 where
  pub chain_ids : a.chain_id ≡ b.chain_id
  pub fris : a.fri_proof_verification_enabled ≡ b.fri_proof_verification_enabled
  pub limits : a.max_tx_gas_limit ≡ b.max_tx_gas_limit
  pub contents : a.pubdata_content ≡ b.pubdata_content

peel :
    (a b : ChainConfig) (xs ys : List ℕ)
    → IsChainConfig a
    → IsChainConfig b
    → u256_of_u64 a.chain_id
        ++ (byte_word (bool_byte a.fri_proof_verification_enabled)
            ++ (u256_of_u64 a.max_tx_gas_limit ++ (byte_word a.pubdata_content ++ xs)))
      ≡ u256_of_u64 b.chain_id
        ++ (byte_word (bool_byte b.fri_proof_verification_enabled)
            ++ (u256_of_u64 b.max_tx_gas_limit ++ (byte_word b.pubdata_content ++ ys)))
    → SameConfig a b × (xs ≡ ys)
peel a b xs ys ha hb e =
    let (ei, e₁) =
      be_bytes_inj 8 a.chain_id b.chain_id _ _ ha.chain_id_fits hb.chain_id_fits (ap (drop 24) e) in
    let ef = bool_byte_inj _ _ (ap (λ l. get_or l 31 0) e₁) in
    let (el, e₂) =
      be_bytes_inj 8 a.max_tx_gas_limit b.max_tx_gas_limit _ _ ha.limit_fits hb.limit_fits
        (ap (drop 56) e₁) in
    (
      record { chain_ids = ei; fris = ef; limits = el; contents = ap (λ l. get_or l 31 0) e₂ },
      ap (drop 32) e₂,
    )

-- The two words that came with AtlasV5.
abbrev flag_words : ChainConfig → List ℕ
flag_words c =
    byte_word (bool_byte c.l1_tx_filtering_enabled)
    ++ (byte_word (bool_byte c.large_contracts_enabled) ++ [])

abbrev config_with : ChainConfig → List ℕ → List ℕ
config_with c rest =
    u256_of_u64 c.chain_id
    ++ (byte_word (bool_byte c.fri_proof_verification_enabled)
        ++ (u256_of_u64 c.max_tx_gas_limit ++ (byte_word c.pubdata_content ++ rest)))

words_v4 : (c : ChainConfig) → take 128 (chain_config_words c) ≡ config_with c []
unfolding chain_config_words
words_v4 c =
    rw
      (
        take-past 8 96 (be_bytes 8 c.chain_id) _ (length-be_bytes 8 c.chain_id),
        take-past 8 32 (be_bytes 8 c.max_tx_gas_limit) _ (length-be_bytes 8 c.max_tx_gas_limit),
      )
      refl

words_v5 : (c : ChainConfig) → take 192 (chain_config_words c) ≡ config_with c (flag_words c)
unfolding chain_config_words
words_v5 c =
    rw
      (
        take-past 8 160 (be_bytes 8 c.chain_id) _ (length-be_bytes 8 c.chain_id),
        take-past 8 96 (be_bytes 8 c.max_tx_gas_limit) _ (length-be_bytes 8 c.max_tx_gas_limit),
      )
      refl

-- Equal in the fields that the layout commits.
abbrev pub SameCommitted : ChainConfigLayout → ChainConfig → ChainConfig → Type 0
SameCommitted atlas_v4 a b = SameConfig a b
SameCommitted atlas_v5 a b =
    SameConfig a b
    × (a.l1_tx_filtering_enabled ≡ b.l1_tx_filtering_enabled)
    × (a.large_contracts_enabled ≡ b.large_contracts_enabled)

-- What the chain config hash hashes.
abbrev pub config_preimage : ChainConfigLayout → ChainConfig → List ℕ
config_preimage layout c = take (chain_config_length layout) (chain_config_words c)

module _ ⦃K : Keccak⦄ where
  -- Chain configs with one hash under a layout are equal in the fields that it commits, unless a
  -- second preimage of what the second hash is taken of is at hand. The chain ids and the gas limits
  -- are u64 numbers.
  pub chain_config_hash_inj :
      (layout : ChainConfigLayout) (a b : ChainConfig)
      → IsChainConfig a
      → IsChainConfig b
      → chain_config_hash layout a ≡ chain_config_hash layout b
      → UnlessKeccakCollision (Only (config_preimage layout b)) (SameCommitted layout a b)
  unfolding chain_config_hash
  chain_config_hash_inj atlas_v4 a b ha hb e =
      and_then (keccak256_inj _ _ refl e)
        λ p. inl (peel a b [] [] ha hb (sym (words_v4 a) ∙ p ∙ words_v4 b)).0
  chain_config_hash_inj atlas_v5 a b ha hb e = and_then (keccak256_inj _ _ refl e) λ p.
      let (same, flags) =
        peel a b (flag_words a) (flag_words b) ha hb (sym (words_v5 a) ∙ p ∙ words_v5 b) in
      inl (
        same,
        bool_byte_inj _ _ (ap (λ l. get_or l 31 0) flags),
        bool_byte_inj _ _ (ap (λ l. get_or l 63 0) flags),
      )
