-- ===== src/Commitment/Output.antt =====
-- The batch output hash of lib/src/commitment.rs determines its layout and the fields of that layout.
use zksync_os_zisk.Prelude.{
  ℕ, ◌+◌, ◌*◌, ◌≡◌, refl, ap, sym, ◌∙◌, inl, Bool, true, false, List, [], ◌∷◌, ◌++◌, length,
  length-append, replicate, get_or, drop, concat, arith,
}
use zksync_os_zisk.Prelude.Bytes.{be_bytes, be_bytes_inj, length-be_bytes}
use zksync_os_zisk.Merkle.Hash.{Only, IsB256, IsU64}
use zksync_os_zisk.Commitment.Hash.{Keccak, keccak256_inj, UnlessKeccakCollision, and_then}
use zksync_os_zisk.Commitment.{
  BatchOutputLayout, BatchOutputFields, u256_of_u64, when, has_v31_tail, has_chain_id, v30, v31,
  atlas_v4, batch_output_preimage, batch_output_hash_native,
}
use zksync_os_zisk.Commitment.Binding.{word_inj, length-word}

-- The ranges of the source's types.
pub record IsBatchOutputFields (o : BatchOutputFields) : Type 0 where
  pub chain_id_fits : IsU64 o.chain_id
  pub first_fits : IsU64 o.first_block_timestamp
  pub last_fits : IsU64 o.last_block_timestamp
  pub da_commitment_fits : IsB256 o.da_commitment
  pub l1_fits : IsU64 o.number_of_layer1_txs
  pub l2_fits : IsU64 o.number_of_layer2_txs
  pub priority_fits : IsB256 o.priority_operations_hash
  pub logs_fits : IsB256 o.l2_to_l1_logs_root_hash
  pub upgrade_fits : IsB256 o.upgrade_tx_hash
  pub interop_fits : IsB256 o.interop_roots_rolling_hash
  pub sl_fits : IsU64 o.settlement_layer_chain_id

-- Equal in the fields that a layout commits.
pub record SameOutput (layout : BatchOutputLayout) (a b : BatchOutputFields) : Type 0 where
  pub chain_ids : has_chain_id layout ≡ true → a.chain_id ≡ b.chain_id
  pub firsts : a.first_block_timestamp ≡ b.first_block_timestamp
  pub lasts : a.last_block_timestamp ≡ b.last_block_timestamp
  pub schemes : a.da_commitment_scheme ≡ b.da_commitment_scheme
  pub da_commitments : a.da_commitment ≡ b.da_commitment
  pub l1_counts : a.number_of_layer1_txs ≡ b.number_of_layer1_txs
  pub l2_counts : has_v31_tail layout ≡ true → a.number_of_layer2_txs ≡ b.number_of_layer2_txs
  pub priorities : a.priority_operations_hash ≡ b.priority_operations_hash
  pub logs_roots : a.l2_to_l1_logs_root_hash ≡ b.l2_to_l1_logs_root_hash
  pub upgrades : a.upgrade_tx_hash ≡ b.upgrade_tx_hash
  pub interops : a.interop_roots_rolling_hash ≡ b.interop_roots_rolling_hash
  pub settlements :
      has_v31_tail layout ≡ true → a.settlement_layer_chain_id ≡ b.settlement_layer_chain_id

u256_inj :
    (n m : ℕ) (xs ys : List (List ℕ))
    → IsU64 n
    → IsU64 m
    → concat (u256_of_u64 n ∷ xs) ≡ concat (u256_of_u64 m ∷ ys)
    → (n ≡ m) × (concat xs ≡ concat ys)
u256_inj n m xs ys hn hm e = be_bytes_inj 8 n m (concat xs) (concat ys) hn hm (ap (drop 24) e)

when_inj :
    (b : Bool) (n m : ℕ) (xs ys : List (List ℕ))
    → IsU64 n
    → IsU64 m
    → concat (when b (u256_of_u64 n) ∷ xs) ≡ concat (when b (u256_of_u64 m) ∷ ys)
    → (b ≡ true → n ≡ m) × (concat xs ≡ concat ys)
when_inj true n m xs ys hn hm e = let (en, tails) = u256_inj n m xs ys hn hm e in (λ t. en, tails)
when_inj false n m xs ys hn hm e = (λ t. absurd (cc), e)

length-u256 :
    (n : ℕ) (xs : List (List ℕ)) → length (concat (u256_of_u64 n ∷ xs)) ≡ 32 + length (concat xs)
length-u256 n xs = omega (arith, length-append (be_bytes 8 n) (concat xs), length-be_bytes 8 n)

-- The length of a word that a layout may leave out.
abbrev optional_word : Bool → ℕ
optional_word true = 32
optional_word false = 0

length-when :
    (b : Bool) (n : ℕ) (xs : List (List ℕ))
    → length (concat (when b (u256_of_u64 n) ∷ xs)) ≡ optional_word b + length (concat xs)
length-when true n xs = length-u256 n xs
length-when false n xs = omega arith

length-u64 :
    (n : ℕ) (xs : List (List ℕ)) → length (concat (be_bytes 8 n ∷ xs)) ≡ 8 + length (concat xs)
length-u64 n xs = omega (arith, length-append (be_bytes 8 n) (concat xs), length-be_bytes 8 n)

-- The length of a preimage tells its layout.
abbrev preimage_length : BatchOutputLayout → ℕ
preimage_length v30 = 272
preimage_length v31 = 336
preimage_length atlas_v4 = 304

preimage_length_inj : (k l : BatchOutputLayout) → preimage_length k ≡ preimage_length l → k ≡ l
preimage_length_inj v30 v30 e = refl
preimage_length_inj v30 v31 e = absurd (omega arith)
preimage_length_inj v30 atlas_v4 e = absurd (omega arith)
preimage_length_inj v31 v30 e = absurd (omega arith)
preimage_length_inj v31 v31 e = refl
preimage_length_inj v31 atlas_v4 e = absurd (omega arith)
preimage_length_inj atlas_v4 v30 e = absurd (omega arith)
preimage_length_inj atlas_v4 v31 e = absurd (omega arith)
preimage_length_inj atlas_v4 atlas_v4 e = refl

module _ (o : BatchOutputFields) (tail : Bool) where
  abbrev after_tail : List (List ℕ)
  after_tail = when tail (u256_of_u64 o.settlement_layer_chain_id) ∷ []

  abbrev from_hashes : List (List ℕ)
  from_hashes =
      be_bytes 32 o.priority_operations_hash
      ∷ be_bytes 32 o.l2_to_l1_logs_root_hash
      ∷ be_bytes 32 o.upgrade_tx_hash
      ∷ be_bytes 32 o.interop_roots_rolling_hash
      ∷ after_tail

  abbrev from_l1 : List (List ℕ)
  from_l1 =
      u256_of_u64 o.number_of_layer1_txs
      ∷ when tail (u256_of_u64 o.number_of_layer2_txs)
      ∷ from_hashes

  abbrev from_first : List (List ℕ)
  from_first =
      be_bytes 8 o.first_block_timestamp
      ∷ be_bytes 8 o.last_block_timestamp
      ∷ (replicate 31 0 ++ o.da_commitment_scheme ∷ [])
      ∷ be_bytes 32 o.da_commitment
      ∷ from_l1

length-from_hashes :
    (o : BatchOutputFields) (tail : Bool)
    → length (concat (from_hashes o tail)) ≡ 128 + optional_word tail
length-from_hashes o tail = omega (
  arith,
  length-word o.priority_operations_hash (
      be_bytes 32 o.l2_to_l1_logs_root_hash
      ∷ be_bytes 32 o.upgrade_tx_hash
      ∷ be_bytes 32 o.interop_roots_rolling_hash
      ∷ after_tail o tail),
  length-word o.l2_to_l1_logs_root_hash (
      be_bytes 32 o.upgrade_tx_hash ∷ be_bytes 32 o.interop_roots_rolling_hash ∷ after_tail o tail),
  length-word o.upgrade_tx_hash (be_bytes 32 o.interop_roots_rolling_hash ∷ after_tail o tail),
  length-word o.interop_roots_rolling_hash (after_tail o tail),
  length-when tail o.settlement_layer_chain_id [],
)

length-from_first :
    (o : BatchOutputFields) (tail : Bool)
    → length (concat (from_first o tail)) ≡ 240 + 2 * optional_word tail
length-from_first o tail = omega (
  arith,
  length-u64 o.first_block_timestamp (
      be_bytes 8 o.last_block_timestamp
      ∷ (replicate 31 0 ++ o.da_commitment_scheme ∷ [])
      ∷ be_bytes 32 o.da_commitment
      ∷ from_l1 o tail),
  length-u64 o.last_block_timestamp (
      (replicate 31 0 ++ o.da_commitment_scheme ∷ [])
      ∷ be_bytes 32 o.da_commitment
      ∷ from_l1 o tail),
  length-word o.da_commitment (from_l1 o tail),
  length-u256 o.number_of_layer1_txs
      (when tail (u256_of_u64 o.number_of_layer2_txs) ∷ from_hashes o tail),
  length-when tail o.number_of_layer2_txs (from_hashes o tail),
  length-from_hashes o tail,
)

length-preimage :
    (layout : BatchOutputLayout) (o : BatchOutputFields)
    → length (batch_output_preimage layout o) ≡ preimage_length layout
unfolding batch_output_preimage
length-preimage layout o =
    length-when (has_chain_id layout) o.chain_id (from_first o (has_v31_tail layout))
    ∙ ap (λ n. optional_word (has_chain_id layout) + n) (length-from_first o (has_v31_tail layout))
    ∙ sizes layout
  where
    sizes :
        (l : BatchOutputLayout)
        → optional_word (has_chain_id l) + (240 + 2 * optional_word (has_v31_tail l))
          ≡ preimage_length l
    sizes v30 = refl
    sizes v31 = refl
    sizes atlas_v4 = refl

preimage_inj :
    (l : BatchOutputLayout) (a b : BatchOutputFields)
    → IsBatchOutputFields a
    → IsBatchOutputFields b
    → batch_output_preimage l a ≡ batch_output_preimage l b
    → SameOutput l a b
unfolding batch_output_preimage
preimage_inj l a b ha hb e =
    let t = has_v31_tail l in
    let (chain, e₁) =
      when_inj (has_chain_id l) a.chain_id b.chain_id (from_first a t) (from_first b t)
        ha.chain_id_fits hb.chain_id_fits e in
    let (first, e₂) =
      be_bytes_inj 8 a.first_block_timestamp b.first_block_timestamp _ _ ha.first_fits hb.first_fits
        e₁ in
    let (last, e₃) =
      be_bytes_inj 8 a.last_block_timestamp b.last_block_timestamp _ _ ha.last_fits hb.last_fits
        e₂ in
    let (da, e₄) =
      word_inj a.da_commitment b.da_commitment (from_l1 a t) (from_l1 b t) ha.da_commitment_fits
        hb.da_commitment_fits (ap (drop 32) e₃) in
    let (l1, e₅) =
      u256_inj a.number_of_layer1_txs b.number_of_layer1_txs
        (when t (u256_of_u64 a.number_of_layer2_txs) ∷ from_hashes a t)
        (when t (u256_of_u64 b.number_of_layer2_txs) ∷ from_hashes b t) ha.l1_fits hb.l1_fits e₄ in
    let (l2, e₆) =
      when_inj t a.number_of_layer2_txs b.number_of_layer2_txs (from_hashes a t) (from_hashes b t)
        ha.l2_fits hb.l2_fits e₅ in
    let (prio, e₇) =
      be_bytes_inj 32 a.priority_operations_hash b.priority_operations_hash _ _ ha.priority_fits
        hb.priority_fits e₆ in
    let (logs, e₈) =
      be_bytes_inj 32 a.l2_to_l1_logs_root_hash b.l2_to_l1_logs_root_hash _ _ ha.logs_fits
        hb.logs_fits e₇ in
    let (upgrade, e₉) =
      be_bytes_inj 32 a.upgrade_tx_hash b.upgrade_tx_hash _ _ ha.upgrade_fits hb.upgrade_fits e₈ in
    let (interop, tails) =
      word_inj a.interop_roots_rolling_hash b.interop_roots_rolling_hash (after_tail a t)
        (after_tail b t) ha.interop_fits hb.interop_fits e₉ in
    let (sl, end) =
      when_inj t a.settlement_layer_chain_id b.settlement_layer_chain_id [] [] ha.sl_fits hb.sl_fits
        tails in
    record {
      chain_ids = chain;
      firsts = first;
      lasts = last;
      schemes = ap (λ xs. get_or xs 31 0) e₃;
      da_commitments = da;
      l1_counts = l1;
      l2_counts = l2;
      priorities = prio;
      logs_roots = logs;
      upgrades = upgrade;
      interops = interop;
      settlements = sl;
    }

module _ ⦃K : Keccak⦄ where
  -- Batch outputs with one hash have one layout and are equal in the fields that it commits, unless a
  -- second preimage of what the second hash is taken of is at hand. The fields are in the range of
  -- their types.
  pub batch_output_hash_native_inj :
      (k l : BatchOutputLayout) (a b : BatchOutputFields)
      → IsBatchOutputFields a
      → IsBatchOutputFields b
      → batch_output_hash_native k a ≡ batch_output_hash_native l b
      → UnlessKeccakCollision (Only (batch_output_preimage l b)) ((k ≡ l) × SameOutput l a b)
  unfolding batch_output_hash_native
  batch_output_hash_native_inj k l a b ha hb e = and_then (keccak256_inj _ _ refl e) λ p.
      let same : k ≡ l =
        preimage_length_inj k l (sym (length-preimage k a) ∙ ap length p ∙ length-preimage l b) in
      inl (same, preimage_inj l a b ha hb (rw same at p))
