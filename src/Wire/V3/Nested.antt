-- ===== src/Wire/V3/Nested.antt =====
-- Writing a value of the frozen schema of lib/src/wire/v3.rs after reading it, and reading one after
-- writing it, give the value back: the types below the batch.
use mathlib.Core.Option
use mathlib.Core.Path.{ap₂}
use zksync_os_zisk.Prelude.{◌≡◌, refl, ap, Option, none, some, List, [], ◌∷◌, map}
use zksync_os_zisk.Wire.V3
use zksync_os_zisk.Wire.V3.Normalize
use zksync_os_zisk.Wire.V3.Freeze
use zksync_os_zisk.Merkle.Proof.{existing, non_existing}
use zksync_os_zisk.Merkle.Update.{update, insert}
use zksync_os_zisk.Types.{l1, l2, upgrade, system}

-- A function that undoes another does so in a list, beside a key, and under an option.
module _ {ℓ κ} {A : Type ℓ} {B : Type κ} where
  abbrev pub Undoes : (B → A) → (A → B) → Type ℓ
  Undoes g f = (a : A) → g (f a) ≡ a

  pub map-Undoes : (g : B → A) (f : A → B) → Undoes g f → (xs : List A) → map g (map f xs) ≡ xs
  map-Undoes g f h [] = refl
  map-Undoes g f h (x ∷ xs) = λ i. h x i ∷ map-Undoes g f h xs i

  pub option-Undoes :
      (g : B → A) (f : A → B) → Undoes g f → (o : Option A) → Option.map g (Option.map f o) ≡ o
  option-Undoes g f h none = refl
  option-Undoes g f h (some a) = ap some (h a)

pub keyed-Undoes {ℓ κ} :
    {K : Type 0} {A : Type ℓ} {B : Type κ} (g : B → A) (f : A → B)
    → Undoes g f
    → Undoes {A = K × A} {B = K × B} (λ (k, b). (k, g b)) (λ (k, a). (k, f a))
keyed-Undoes g f h (k, a) = λ i. (k, h a i)

pub slot_proof_entry_written : Undoes Freeze.slot_proof_entry Normalize.slot_proof_entry
unfolding Normalize.slot_proof_entry Freeze.slot_proof_entry
slot_proof_entry_written x = refl

pub slot_proof_entry_read : Undoes Normalize.slot_proof_entry Freeze.slot_proof_entry
unfolding Normalize.slot_proof_entry Freeze.slot_proof_entry
slot_proof_entry_read x = refl

pub neighbor_proof_entry_written : Undoes Freeze.neighbor_proof_entry Normalize.neighbor_proof_entry
unfolding Normalize.neighbor_proof_entry Freeze.neighbor_proof_entry
neighbor_proof_entry_written x =
    λ i. record { entry = slot_proof_entry_written x.entry i; leaf_key = x.leaf_key }

pub neighbor_proof_entry_read : Undoes Normalize.neighbor_proof_entry Freeze.neighbor_proof_entry
unfolding Normalize.neighbor_proof_entry Freeze.neighbor_proof_entry
neighbor_proof_entry_read x =
    λ i. record { entry = slot_proof_entry_read x.entry i; leaf_key = x.leaf_key }

pub storage_proof_written : Undoes Freeze.storage_proof Normalize.storage_proof
unfolding Normalize.storage_proof Freeze.storage_proof
storage_proof_written (V3.existing entry) = ap V3.existing (slot_proof_entry_written entry)
storage_proof_written (V3.non_existing left right) =
    ap₂ V3.non_existing (neighbor_proof_entry_written left) (neighbor_proof_entry_written right)

pub storage_proof_read : Undoes Normalize.storage_proof Freeze.storage_proof
unfolding Normalize.storage_proof Freeze.storage_proof
storage_proof_read (existing entry) = ap existing (slot_proof_entry_read entry)
storage_proof_read (non_existing left right) =
    ap₂ non_existing (neighbor_proof_entry_read left) (neighbor_proof_entry_read right)

pub tree_leaf_written : Undoes Freeze.tree_leaf Normalize.tree_leaf
unfolding Normalize.tree_leaf Freeze.tree_leaf
tree_leaf_written x = refl

pub tree_leaf_read : Undoes Normalize.tree_leaf Freeze.tree_leaf
unfolding Normalize.tree_leaf Freeze.tree_leaf
tree_leaf_read x = refl

pub write_op_written : Undoes Freeze.write_op Normalize.write_op
unfolding Normalize.write_op Freeze.write_op
write_op_written (V3.update index) = refl
write_op_written (V3.insert prev_index) = refl

pub write_op_read : Undoes Normalize.write_op Freeze.write_op
unfolding Normalize.write_op Freeze.write_op
write_op_read (update index) = refl
write_op_read (insert prev_index) = refl

pub batch_tree_update_written : Undoes Freeze.batch_tree_update Normalize.batch_tree_update
unfolding Normalize.batch_tree_update Freeze.batch_tree_update
batch_tree_update_written x = λ i. record {
  operations = map-Undoes Freeze.write_op Normalize.write_op write_op_written x.operations i;
  entries = x.entries;
  sorted_leaves =
      map-Undoes (λ (k, leaf). (k, Freeze.tree_leaf leaf))
        (λ (k, leaf). (k, Normalize.tree_leaf leaf))
        (keyed-Undoes Freeze.tree_leaf Normalize.tree_leaf tree_leaf_written) x.sorted_leaves i;
  intermediate_hashes = x.intermediate_hashes;
  leaf_count_before = x.leaf_count_before;
}

pub batch_tree_update_read : Undoes Normalize.batch_tree_update Freeze.batch_tree_update
unfolding Normalize.batch_tree_update Freeze.batch_tree_update
batch_tree_update_read x = λ i. record {
  operations = map-Undoes Normalize.write_op Freeze.write_op write_op_read x.operations i;
  entries = x.entries;
  sorted_leaves =
      map-Undoes (λ (k, leaf). (k, Normalize.tree_leaf leaf))
        (λ (k, leaf). (k, Freeze.tree_leaf leaf))
        (keyed-Undoes Normalize.tree_leaf Freeze.tree_leaf tree_leaf_read) x.sorted_leaves i;
  intermediate_hashes = x.intermediate_hashes;
  leaf_count_before = x.leaf_count_before;
}

pub tx_auth_written : Undoes Freeze.tx_auth Normalize.tx_auth
unfolding Normalize.tx_auth Freeze.tx_auth
tx_auth_written (V3.l1 tx_hash abi_encoded) = refl
tx_auth_written (V3.upgrade tx_hash abi_encoded) = refl
tx_auth_written (V3.l2 signed_bytes) = refl
tx_auth_written (V3.system tx_hash encoded_2718) = refl

pub tx_auth_read : Undoes Normalize.tx_auth Freeze.tx_auth
unfolding Normalize.tx_auth Freeze.tx_auth
tx_auth_read (l1 tx_hash abi_encoded) = refl
tx_auth_read (upgrade tx_hash abi_encoded) = refl
tx_auth_read (l2 signed_bytes) = refl
tx_auth_read (system tx_hash encoded_2718) = refl

pub tx_input_written : Undoes Freeze.tx_input Normalize.tx_input
unfolding Normalize.tx_input Freeze.tx_input
tx_input_written x = λ i. record {
  chain_id = x.chain_id;
  gas_used_override = x.gas_used_override;
  force_fail = x.force_fail;
  auth = tx_auth_written x.auth i;
}

pub tx_input_read : Undoes Normalize.tx_input Freeze.tx_input
unfolding Normalize.tx_input Freeze.tx_input
tx_input_read x = λ i. record {
  chain_id = x.chain_id;
  gas_used_override = x.gas_used_override;
  force_fail = x.force_fail;
  auth = tx_auth_read x.auth i;
}

pub l2_to_l1_log_entry_written : Undoes Freeze.l2_to_l1_log_entry Normalize.l2_to_l1_log_entry
unfolding Normalize.l2_to_l1_log_entry Freeze.l2_to_l1_log_entry
l2_to_l1_log_entry_written x = refl

pub l2_to_l1_log_entry_read : Undoes Normalize.l2_to_l1_log_entry Freeze.l2_to_l1_log_entry
unfolding Normalize.l2_to_l1_log_entry Freeze.l2_to_l1_log_entry
l2_to_l1_log_entry_read x = refl

pub block_input_written : Undoes Freeze.block_input Normalize.block_input
unfolding Normalize.block_input Freeze.block_input
block_input_written x = λ i. record {
  number = x.number;
  timestamp = x.timestamp;
  base_fee = x.base_fee;
  gas_limit = x.gas_limit;
  coinbase = x.coinbase;
  prev_randao = x.prev_randao;
  transactions = map-Undoes Freeze.tx_input Normalize.tx_input tx_input_written x.transactions i;
  account_preimages = x.account_preimages;
  block_hashes = x.block_hashes;
  storage_proofs =
      map-Undoes (λ (k, proof). (k, Freeze.storage_proof proof))
        (λ (k, proof). (k, Normalize.storage_proof proof))
        (keyed-Undoes Freeze.storage_proof Normalize.storage_proof storage_proof_written)
        x.storage_proofs i;
  block_header_hash = x.block_header_hash;
  l2_to_l1_logs =
      map-Undoes Freeze.l2_to_l1_log_entry Normalize.l2_to_l1_log_entry l2_to_l1_log_entry_written
        x.l2_to_l1_logs i;
  expected_tree_root = x.expected_tree_root;
}

pub block_input_read : Undoes Normalize.block_input Freeze.block_input
unfolding Normalize.block_input Freeze.block_input
block_input_read x = λ i. record {
  number = x.number;
  timestamp = x.timestamp;
  base_fee = x.base_fee;
  gas_limit = x.gas_limit;
  coinbase = x.coinbase;
  prev_randao = x.prev_randao;
  transactions = map-Undoes Normalize.tx_input Freeze.tx_input tx_input_read x.transactions i;
  account_preimages = x.account_preimages;
  block_hashes = x.block_hashes;
  storage_proofs =
      map-Undoes (λ (k, proof). (k, Normalize.storage_proof proof))
        (λ (k, proof). (k, Freeze.storage_proof proof))
        (keyed-Undoes Normalize.storage_proof Freeze.storage_proof storage_proof_read)
        x.storage_proofs i;
  block_header_hash = x.block_header_hash;
  l2_to_l1_logs =
      map-Undoes Normalize.l2_to_l1_log_entry Freeze.l2_to_l1_log_entry l2_to_l1_log_entry_read
        x.l2_to_l1_logs i;
  expected_tree_root = x.expected_tree_root;
}
