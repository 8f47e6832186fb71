-- ===== src/Executor.antt =====
-- The checks on a batch before it runs: lib/src/executor/mod.rs, from `zk_spec_id` to
-- `validate_expected_tree_roots`. A failed assertion is `err`.
pub mod Valid
pub mod TreeUpdate
pub mod Ring
pub mod Interop
pub mod Commit
pub mod Seal
use zksync_os_zisk.Prelude.{
  ℕ, zero, suc, ◌+◌, ◌/◌, ◌%◌, ◌^◌, ◌≡◌, Bool, true, false, not, ◌&&◌, ◌||◌, Option, none, some,
  List, [], ◌∷◌, ◌==◌, ltb, leb, if◌then◌else◌, Result, ok, err, ◌>>=◌, ◌>>◌, guard, from_option,
}
use zksync_os_zisk.Types.{BatchInput, BlockInput, BatchMeta}

-- The specs of the `zksync-os-revm` crate.
pub data ZkSpecId : Type 0 where
  atlas_v1 atlas_v2 atlas_v3 atlas_v4 atlas_v5 : ZkSpecId

-- The place of a spec among the releases.
abbrev pub tier : ZkSpecId → ℕ
tier atlas_v1 = 0
tier atlas_v2 = 1
tier atlas_v3 = 2
tier atlas_v4 = 3
tier atlas_v5 = 4

-- `ZkSpecId::is_enabled_in` of the crate: a spec is enabled in itself and in the later ones.
pub record SpecCrate : Type 0 where
  pub is_enabled_in : ZkSpecId → ZkSpecId → Bool
  pub is_enabled_in_lem : (a b : ZkSpecId) → is_enabled_in a b ≡ leb (tier a) (tier b)

abbrev pub ergs_per_gas : ℕ
ergs_per_gas = 256

-- `u64::MAX / ERGS_PER_GAS`
abbrev pub max_block_gas_limit : ℕ
max_block_gas_limit = 18446744073709551615 / ergs_per_gas

abbrev pub max_tx_gas_limit : ℕ
max_tx_gas_limit = max_block_gas_limit

-- `1 << 24`
abbrev pub default_max_tx_gas_limit : ℕ
default_max_tx_gas_limit = 16777216

unfoldable pub zk_spec_id : ℕ → Option ZkSpecId
zk_spec_id zero = some atlas_v1
zk_spec_id (suc zero) = some atlas_v2
zk_spec_id (suc (suc zero)) = some atlas_v3
zk_spec_id (suc (suc (suc zero))) = some atlas_v4
zk_spec_id (suc (suc (suc (suc zero)))) = some atlas_v5
zk_spec_id (suc (suc (suc (suc (suc n))))) = none

abbrev pub atlas_v4_min_protocol_minor : ℕ
atlas_v4_min_protocol_minor = 32

abbrev pub atlas_v5_min_protocol_minor : ℕ
atlas_v5_min_protocol_minor = 34

-- One constructor for each assertion.
pub data Rejection : Type 0 where
  unsupported_version spec_newer_than_version unknown_spec inconsistent_minor : Rejection
  flags_before_atlas_v5 no_blocks first_number first_timestamp : Rejection
  numbers_not_consecutive timestamps_decrease expected_tree_root : Rejection
  max_tx_gas_limit_too_low unknown_pubdata_content block_zero : Rejection
  block_gas_limit_too_high tx_gas_limit_too_high : Rejection

unfoldable pub minor_ok : ZkSpecId → ℕ → Bool
minor_ok atlas_v1 minor = leb minor 30
minor_ok atlas_v2 minor = leb minor 30
minor_ok atlas_v3 minor = minor == 31 || minor == 32
minor_ok atlas_v4 minor =
    leb atlas_v4_min_protocol_minor minor && ltb minor atlas_v5_min_protocol_minor
minor_ok atlas_v5 minor = leb atlas_v5_min_protocol_minor minor

-- The largest `spec_id` of a released wire version.
unfoldable pub version_allows : ℕ → ℕ → Bool
version_allows version spec_id =
    if version == 3 then leb spec_id 2 else if version == 5 then leb spec_id 3 else true

-- `windows(2)` over the blocks.
unfoldable pub check_windows : List BlockInput → Result Rejection (Unit {0})
check_windows [] = ok tt
check_windows (b ∷ []) = ok tt
check_windows (b ∷ c ∷ rest) =
    guard (c.number == (b.number + 1) % 2 ^ 64) numbers_not_consecutive
    >> (guard (leb b.timestamp c.timestamp) timestamps_decrease >> check_windows (c ∷ rest))

unfoldable pub check_roots : ℕ → List BlockInput → Result Rejection (Unit {0})
check_roots pinned [] = ok tt
check_roots pinned (b ∷ rest) =
    guard (b.expected_tree_root == 0 || b.expected_tree_root == pinned) expected_tree_root
    >> check_roots pinned rest

unfoldable pub validate_expected_tree_roots : BatchInput → Result Rejection (Unit {0})
unfolding check_roots
validate_expected_tree_roots input = check_roots input.batch_meta.tree_root_before input.blocks

abbrev pub min : ℕ → ℕ → ℕ
min a b = if leb a b then a else b

unfoldable pub check_gas_limits : ℕ → List BlockInput → Result Rejection (Unit {0})
check_gas_limits max_tx [] = ok tt
check_gas_limits max_tx (b ∷ rest) =
    guard (leb 1 b.number) block_zero
    >> (guard (leb b.gas_limit max_block_gas_limit) block_gas_limit_too_high
        >> (guard (leb (min b.gas_limit max_tx) max_tx_gas_limit) tx_gas_limit_too_high
            >> check_gas_limits max_tx rest))

module _ ⦃S : SpecCrate⦄ where
  unfoldable pub validate_atlas_v4_block_invariants :
      BatchInput → ZkSpecId → Result Rejection (Unit {0})
  unfolding check_gas_limits
  validate_atlas_v4_block_invariants input spec_id =
      if not (S.is_enabled_in atlas_v4 spec_id) then ok tt else (do
        guard (leb default_max_tx_gas_limit input.batch_meta.max_tx_gas_limit)
            max_tx_gas_limit_too_low
        guard (input.batch_meta.pubdata_content == 0 || input.batch_meta.pubdata_content == 1)
            unknown_pubdata_content
        check_gas_limits input.batch_meta.max_tx_gas_limit input.blocks)

  -- The checks of `validate_block_sequence`, over the blocks of the input.
  unfoldable pub validate_blocks :
      BatchInput → ZkSpecId → List BlockInput → Result Rejection (Unit {0})
  unfolding validate_atlas_v4_block_invariants check_windows validate_expected_tree_roots
  validate_blocks input spec_id [] = err no_blocks
  validate_blocks input spec_id (first ∷ rest) = do
    validate_atlas_v4_block_invariants input spec_id
    guard (first.number == (input.batch_meta.block_number_before + 1) % 2 ^ 64) first_number
    guard (leb input.batch_meta.last_block_timestamp_before first.timestamp) first_timestamp
    check_windows (first ∷ rest)
    validate_expected_tree_roots input

  unfoldable pub validate_block_sequence : BatchInput → ZkSpecId → Result Rejection (Unit {0})
  unfolding validate_blocks
  validate_block_sequence input spec_id = validate_blocks input spec_id input.blocks

  unfoldable pub resolve_spec_and_validate : BatchInput → Result Rejection ZkSpecId
  unfolding version_allows zk_spec_id minor_ok validate_block_sequence
  resolve_spec_and_validate input = do
    guard (input.version == 3 || (input.version == 5 || input.version == 6)) unsupported_version
    guard (version_allows input.version input.spec_id) spec_newer_than_version
    spec_id ← from_option (zk_spec_id input.spec_id) unknown_spec
    guard (minor_ok spec_id input.protocol_version_minor) inconsistent_minor
    guard
        (S.is_enabled_in atlas_v5 spec_id
          || not (
              input.batch_meta.l1_tx_filtering_enabled || input.batch_meta.large_contracts_enabled))
        flags_before_atlas_v5
    validate_block_sequence input spec_id
    ok spec_id
