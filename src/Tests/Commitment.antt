-- ===== src/Tests/Commitment.antt =====
-- The theorems on commitments, with toy hashes.
use zksync_os_zisk.Prelude.{
  ◌^◌, ◌≤◌, ◌<◌, ◌≡◌, refl, Option, none, some, List, [], ◌∷◌, length, true, replicate, arith,
}
use zksync_os_zisk.Merkle.Hash.{Only, B256}
use zksync_os_zisk.Types.{Bytes, L2ToL1LogEntry}
use zksync_os_zisk.Types.Log.{IsL2ToL1LogEntry, encode_inj}
use zksync_os_zisk.BlockRoots.{block_tx_tree_root, full_block_root, block_tx_tree_root_lem}
use zksync_os_zisk.Commitment.Hash.{UnlessKeccakCollision}
use zksync_os_zisk.Commitment.Binding.{public_input_preimage, batch_public_input_hash_inj}
use zksync_os_zisk.Commitment.{
  batch_output_preimage, BatchOutputFields, v31, l2_to_l1_logs_root, ChainConfig, atlas_v5,
}
use zksync_os_zisk.Commitment.Config.{
  config_preimage, IsChainConfig, SameCommitted, chain_config_hash_inj,
}
use zksync_os_zisk.Commitment.Output.{IsBatchOutputFields, SameOutput, batch_output_hash_native_inj}
use zksync_os_zisk.Commitment.Rolling.{OpsHashed, priority_ops_rolling_hash_inj}
use zksync_os_zisk.Commitment.Logs.{
  LogsHashed, full_logs_root, l2_to_l1_logs_root_lem, l2_to_l1_logs_root_inj,
}
use zksync_os_zisk.Tests.Toy.{toy_blake2s, toy_keccak}

abbrev two_hashes : List B256
two_hashes = 17 ∷ 2 ^ 255 ∷ []

block_tx_tree_root_lem_example :
    (length two_hashes ≤ 2 ^ 32 → block_tx_tree_root two_hashes ≡ some (full_block_root two_hashes))
    × (2 ^ 32 < length two_hashes → block_tx_tree_root two_hashes ≡ none)
block_tx_tree_root_lem_example = block_tx_tree_root_lem two_hashes

batch_public_input_hash_inj_example :
    UnlessKeccakCollision (Only (public_input_preimage 1 2 (some 4) 3)) (
      ◌≡◌ {A = B256} 1 1
      × ◌≡◌ {A = B256} 2 2
      × ◌≡◌ {A = Option B256} (some 4) (some 4)
      × ◌≡◌ {A = B256} 3 3)
batch_public_input_hash_inj_example =
    batch_public_input_hash_inj 1 2 3 1 2 3 (some 4) (some 4) (omega arith) (omega arith)
      (omega arith) (omega arith) (omega arith) (omega arith) (omega arith) (omega arith) refl

abbrev pub output : BatchOutputFields
output = record {
  chain_id = 270;
  first_block_timestamp = 1700000000;
  last_block_timestamp = 1700000100;
  da_commitment_scheme = 2;
  da_commitment = 11;
  number_of_layer1_txs = 1;
  number_of_layer2_txs = 9;
  priority_operations_hash = 12;
  l2_to_l1_logs_root_hash = 13;
  upgrade_tx_hash = 0;
  interop_roots_rolling_hash = 14;
  settlement_layer_chain_id = 1;
}

pub output-IsBatchOutputFields : IsBatchOutputFields output
output-IsBatchOutputFields = record {
  chain_id_fits = omega arith;
  first_fits = omega arith;
  last_fits = omega arith;
  da_commitment_fits = omega arith;
  l1_fits = omega arith;
  l2_fits = omega arith;
  priority_fits = omega arith;
  logs_fits = omega arith;
  upgrade_fits = omega arith;
  interop_fits = omega arith;
  sl_fits = omega arith;
}

batch_output_hash_native_inj_example :
    UnlessKeccakCollision
      (Only (batch_output_preimage v31 output))
      ((v31 ≡ v31) × SameOutput v31 output output)
batch_output_hash_native_inj_example =
    batch_output_hash_native_inj v31 v31 output output output-IsBatchOutputFields
      output-IsBatchOutputFields refl

priority_ops_rolling_hash_inj_example :
    UnlessKeccakCollision (OpsHashed two_hashes two_hashes) (two_hashes ≡ two_hashes)
priority_ops_rolling_hash_inj_example =
    priority_ops_rolling_hash_inj two_hashes two_hashes (omega arith, (omega arith, tt))
      (omega arith, (omega arith, tt)) refl

abbrev one_log : List Bytes
one_log = replicate 88 1 ∷ []

l2_to_l1_logs_root_lem_example :
    (length one_log ≤ 2 ^ 14 → l2_to_l1_logs_root one_log ≡ some (full_logs_root one_log))
    × (2 ^ 14 < length one_log → l2_to_l1_logs_root one_log ≡ none)
l2_to_l1_logs_root_lem_example = l2_to_l1_logs_root_lem one_log

l2_to_l1_logs_root_inj_example : UnlessKeccakCollision (LogsHashed one_log) (one_log ≡ one_log)
l2_to_l1_logs_root_inj_example =
    l2_to_l1_logs_root_inj one_log one_log (full_logs_root one_log) refl
      ((l2_to_l1_logs_root_lem one_log).0 (omega arith))
      ((l2_to_l1_logs_root_lem one_log).0 (omega arith))

abbrev log : L2ToL1LogEntry
log = record {
  l2_shard_id = 0;
  is_service = true;
  tx_number_in_block = 513;
  sender = 32776;
  key = 5;
  value = 6;
}

log-IsL2ToL1LogEntry : IsL2ToL1LogEntry log
log-IsL2ToL1LogEntry = record {
  shard_fits = omega arith;
  number_fits = omega arith;
  sender_fits = omega arith;
  key_fits = omega arith;
  value_fits = omega arith;
}

encode_inj_example : log ≡ log
encode_inj_example = encode_inj log log log-IsL2ToL1LogEntry log-IsL2ToL1LogEntry refl

abbrev config : ChainConfig
config = record {
  chain_id = 270;
  fri_proof_verification_enabled = true;
  max_tx_gas_limit = 16777216;
  pubdata_content = 1;
  l1_tx_filtering_enabled = true;
  large_contracts_enabled = true;
}

config-IsChainConfig : IsChainConfig config
config-IsChainConfig = record { chain_id_fits = omega arith; limit_fits = omega arith }

chain_config_hash_inj_example :
    UnlessKeccakCollision
      (Only (config_preimage atlas_v5 config))
      (SameCommitted atlas_v5 config config)
chain_config_hash_inj_example =
    chain_config_hash_inj atlas_v5 config config config-IsChainConfig config-IsChainConfig refl
