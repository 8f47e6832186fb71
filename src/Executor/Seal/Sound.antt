-- ===== src/Executor/Seal/Sound.antt =====
-- A block that passes the check against the sealed header hash of lib/src/executor/evm.rs is the
-- sealed one.
use zksync_os_zisk.Prelude.{
  ◌⊎◌, inr, ℕ, ◌+◌, ◌%◌, ◌^◌, ◌<◌, ◌≤◌, ◌≡◌, ◌≢◌, refl, ap, sym, ◌∙◌, inl, Bool, true, false, not,
  ◌||◌, some, List, [], ◌∷◌, ◌==◌, length, All, arith, ok, ◌>>=◌, guard, from_option, >>=-eq-ok,
  >>-eq-ok, guard-eq-ok, from_option-eq-ok, ok_inj,
}
use zksync_os_zisk.Merkle.Hash.{widen, Only, B256, IsB256, Blake2s, UnlessCollision, and_then}
use zksync_os_zisk.Types.{BlockInput}
use zksync_os_zisk.Commitment.Hash
use zksync_os_zisk.Commitment.Hash.{Keccak, UnlessKeccakCollision}
use zksync_os_zisk.BlockRoots.{
  BlockTreeHashed, block_tx_tree_root, block_tx_tree_root-IsB256, block_tx_tree_root_inj,
}
use zksync_os_zisk.BlockHeader.{HeaderFields, compute_block_header_hash}
use zksync_os_zisk.BlockHeader.Binding.{header_preimage, IsHeader, compute_block_header_hash_inj}
use zksync_os_zisk.Executor.{ZkSpecId, SpecCrate, atlas_v4, tier}
use zksync_os_zisk.Executor.Commit.{TxOutput, BlockResult}
use zksync_os_zisk.Executor.Seal.{
  BlockExecution, SealPanic, missing_sealed_hash, wrong_sealed_hash, too_many_leaves, total_from,
  total_gas_used, header_roots, header_of, check_sealed, seal_block,
}

-- The header fields that the block carries are of their Rust types.
abbrev pub IsBlock : BlockInput → Type 0
IsBlock b =
    (b.coinbase < 2 ^ 160)
    × (b.number < 2 ^ 64)
    × (b.gas_limit < 2 ^ 64)
    × (b.timestamp < 2 ^ 64)
    × IsB256 b.prev_randao
    × (b.base_fee < 2 ^ 64)

total_from-lt : (n : ℕ) (results : List TxOutput) → n < 2 ^ 64 → total_from n results < 2 ^ 64
unfolding total_from
total_from-lt n [] h = h
total_from-lt n (t ∷ results) h = total_from-lt ((n + t.gas_used) % 2 ^ 64) results (omega arith)

guarded : (b : Bool) (reason : SealPanic) → guard b reason ≡ ok tt → b ≡ true
guarded true reason e = refl
guarded false reason e = cc

module _ ⦃H : Blake2s⦄ ⦃K : Keccak⦄ ⦃S : SpecCrate⦄ where
  header_roots_lem :
      (spec_id : ZkSpecId) (exec : BlockExecution) {roots : B256 × B256}
      → S.is_enabled_in atlas_v4 spec_id ≡ true
      → header_roots spec_id exec ≡ ok roots
      → (block_tx_tree_root exec.tx_hashes ≡ some roots.0)
        × (block_tx_tree_root exec.receipt_leaves ≡ some roots.1)
  unfolding header_roots
  header_roots_lem spec_id exec {roots} on e =
      let p : (from_option (block_tx_tree_root exec.tx_hashes) too_many_leaves >>= λ tx_root.
      from_option (block_tx_tree_root exec.receipt_leaves) too_many_leaves >>= λ receipts_root.
      ok (tx_root, receipts_root))
          ≡ ok roots =
        rw on at e in
      let (tx, et, rest) = >>=-eq-ok _ _ p in
      let (receipts, er, last) = >>=-eq-ok _ _ rest in
      let same : (tx, receipts) ≡ roots = ok_inj last in
      (
        from_option-eq-ok _ too_many_leaves et ∙ ap (λ (r : B256 × B256). some r.0) same,
        from_option-eq-ok _ too_many_leaves er ∙ ap (λ (r : B256 × B256). some r.1) same,
      )

  check_sealed_lem :
      (spec_id : ZkSpecId) (block : BlockInput) (computed : B256)
      → S.is_enabled_in atlas_v4 spec_id ≡ true
      → check_sealed spec_id block computed ≡ ok tt
      → (block.block_header_hash ≢ 0) × (computed ≡ block.block_header_hash)
  unfolding check_sealed
  check_sealed_lem spec_id block computed on e =
      let (present, rest) = guard-eq-ok _ missing_sealed_hash _ e in
      let agrees =
        guarded (block.block_header_hash == 0 || computed == block.block_header_hash)
          wrong_sealed_hash rest in
      checked (S.is_enabled_in atlas_v4 spec_id) block.block_header_hash computed on present agrees
    where
      checked :
          (on : Bool) (sealed computed : ℕ)
          → on ≡ true
          → (not on || not (sealed == 0)) ≡ true
          → (sealed == 0 || computed == sealed) ≡ true
          → (sealed ≢ 0) × (computed ≡ sealed)
      checked on sealed computed e p a = ground arith

  -- Under AtlasV4 or later, a block that is sealed carries a hash that is not zero. When that hash is
  -- the hash of a header, of the Rust types, whose two roots are those of some transaction hashes and
  -- receipt leaves, as many as were executed, then the header has the block's own fields, the
  -- authenticated parent hash and the gas of the execution, and the executed transactions and
  -- receipts are those of the header, unless a second preimage of the encoding of the header, or of a
  -- byte string that one of the two trees of the header hashes, is at hand.
  pub seal_block_sound :
      (spec_id : ZkSpecId) (block : BlockInput) (parent_hash : B256) (exec : BlockExecution)
      → (result : BlockResult) (header : HeaderFields) (txs receipts : List B256) → 3 ≤ tier spec_id
      → IsBlock block
      → IsB256 parent_hash
      → All IsB256 exec.tx_hashes
      → All IsB256 exec.receipt_leaves
      → IsHeader header
      → All IsB256 txs
      → All IsB256 receipts
      → length exec.tx_hashes ≡ length txs
      → length exec.receipt_leaves ≡ length receipts
      → block_tx_tree_root txs ≡ some header.transactions_root
      → block_tx_tree_root receipts ≡ some header.receipts_root
      → block.block_header_hash ≡ compute_block_header_hash header
      → seal_block spec_id block parent_hash exec ≡ ok result
      → (block.block_header_hash ≢ 0)
        × UnlessKeccakCollision (Only (header_preimage header)) (
            (header
              ≡ header_of block parent_hash
                  (header.transactions_root, header.receipts_root)
                  (total_gas_used exec.tx_results))
            × UnlessCollision
                (λ m. BlockTreeHashed txs m ⊎ BlockTreeHashed receipts m)
                ((exec.tx_hashes ≡ txs) × (exec.receipt_leaves ≡ receipts)))
  unfolding seal_block
  seal_block_sound spec_id block parent_hash exec result header txs receipts late
        (hc, hn, hl, ht, hm, hf) hp het her hh htx hre lt lr et er sealed e =
      let on : S.is_enabled_in atlas_v4 spec_id ≡ true =
        S.is_enabled_in_lem atlas_v4 spec_id ∙ ground arith in
      let (roots, eroots, rest) = >>=-eq-ok (header_roots spec_id exec) _ e in
      let (xt, xr) = header_roots_lem spec_id exec on eroots in
      let gas = total_gas_used exec.tx_results in
      let mine = header_of block parent_hash roots gas in
      let (checked, last) =
        >>-eq-ok (check_sealed spec_id block (compute_block_header_hash mine)) _ rest in
      let (present, agrees) =
        check_sealed_lem spec_id block (compute_block_header_hash mine) on checked in
      let (room_t, typed_t) = block_tx_tree_root-IsB256 exec.tx_hashes roots.0 het xt in
      let (room_r, typed_r) = block_tx_tree_root-IsB256 exec.receipt_leaves roots.1 her xr in
      let typed : IsHeader mine = (
        hp,
        hc,
        typed_t,
        typed_r,
        hn,
        hl,
        total_from-lt 0 exec.tx_results (omega arith),
        ht,
        hm,
        hf,
      ) in
      (
        present,
        Hash.and_then (compute_block_header_hash_inj mine header typed hh (agrees ∙ sealed)) λ same.
            let back : header ≡ mine = sym same in
            let same_t : header.transactions_root ≡ roots.0 =
              ap (λ (h : HeaderFields). h.transactions_root) back in
            let same_r : header.receipts_root ≡ roots.1 =
              ap (λ (h : HeaderFields). h.receipts_root) back in
            inl (
              back ∙ (λ i. header_of block parent_hash (sym same_t i, sym same_r i) gas),
              and_then
                  (widen (λ m x. inl x)
                    (block_tx_tree_root_inj exec.tx_hashes txs roots.0 het htx lt room_t xt
                      (et ∙ ap some same_t)))
                  λ eq_t.
                    and_then
                      (widen (λ m x. inr x)
                        (block_tx_tree_root_inj exec.receipt_leaves receipts roots.1 her hre lr
                          room_r xr (er ∙ ap some same_r)))
                      λ eq_r. inl (eq_t, eq_r),
            ),
      )
