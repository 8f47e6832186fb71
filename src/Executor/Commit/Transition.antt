-- ===== src/Executor/Commit/Transition.antt =====
-- The state transition that lib/src/executor/mod.rs commits: from the tree and the chain of block
-- hashes behind the state before the batch to the tree behind the state after it.
use zksync_os_zisk.Prelude.{
  ◌⊎◌, inr, ℕ, ◌^◌, ◌<◌, ◌≡◌, ap, sym, ◌∙◌, inl, List, [], ◌∷◌, map, length, Result, ok, err,
  >>=-eq-ok, >>-eq-ok, ok_inj,
}
use zksync_os_zisk.Merkle.Hash.{widen, B256, Blake2s, UnlessCollision, and_then}
use zksync_os_zisk.Merkle.Tree.{TreeHashed, Store, IsLinked, tree_root, value_of}
use zksync_os_zisk.Merkle.Proof.Sound.{StoreFits}
use zksync_os_zisk.Types.{BatchInput, BlockInput, encode}
use zksync_os_zisk.Commitment.Hash.{Keccak}
use zksync_os_zisk.Executor.{ZkSpecId, SpecCrate, atlas_v4}
use zksync_os_zisk.Executor.TreeUpdate.{lookup, verify_tree_update}
use zksync_os_zisk.Executor.TreeUpdate.Writes.{or_else}
use zksync_os_zisk.Executor.TreeUpdate.Refines.{UpdateFits, verify_tree_update_refines}
use zksync_os_zisk.Executor.Ring.{
  verify_block_hashes_blake_before, reconstruct_block_hashes_blake_after,
}
use zksync_os_zisk.Executor.Ring.Window.{NumbersFit}
use zksync_os_zisk.Executor.Ring.Chain.{
  RingHashed, window, slots_from, HashesFit, IsChain, ring_commitment,
  verify_block_hashes_blake_before_sound,
}
use zksync_os_zisk.Executor.Commit.{
  Evm, Imports, CommitPanic, lift, ring_panic, tree_panic, StateFields, Summary, Ran,
  execute_blocks, last_of, last_hash_of, no_txs, count_blocks,
}
use zksync_os_zisk.Executor.Commit.Summarize.{
  state_after_of, check_upgrade, derive_interop, output_of, summarize_blocks, summarize_list,
  summarize,
}

lift-eq-ok :
    {E A : Type 0} (f : E → CommitPanic) (r : Result E A) {a : A} → lift f r ≡ ok a → r ≡ ok a
lift-eq-ok f (ok b) e = ap ok (ok_inj e)
lift-eq-ok f (err x) e = absurd (cc)

module _ ⦃S : SpecCrate⦄ ⦃H : Blake2s⦄ ⦃K : Keccak⦄ ⦃I : Imports⦄ {D : Type 0} (E : Evm D) where
  state_after_of-eq-ok :
      (input : BatchInput) (first : BlockInput) (rest : List BlockInput) (ring : List B256)
      (ran : Ran D) (after : StateFields)
      → state_after_of E input first rest ring ran ≡ ok after
      → (verify_tree_update input.batch_meta (E.revm_writes ran.final)
          ≡ ok (after.tree_root, after.leaf_count))
        × (reconstruct_block_hashes_blake_after first.number
              (last_of first rest).number
              ring
              ran.computed
              (last_hash_of ran.results 0)
            ≡ ok after.block_hashes)
        × (after.block_number ≡ (last_of first rest).number)
  unfolding state_after_of
  state_after_of-eq-ok input first rest ring ran after e =
      let (updated, e₁, r₁) =
        >>=-eq-ok (lift tree_panic (verify_tree_update input.batch_meta (E.revm_writes ran.final)))
          _ e in
      let (hashes, e₂, r₂) =
        >>=-eq-ok
          (lift ring_panic (
            reconstruct_block_hashes_blake_after first.number (last_of first rest).number ring
              ran.computed (last_hash_of ran.results 0)))
          _ r₁ in
      let same = ok_inj r₂ in
      (
        lift-eq-ok tree_panic _ e₁ ∙ ap (λ (a : StateFields). ok (a.tree_root, a.leaf_count)) same,
        lift-eq-ok ring_panic _ e₂ ∙ ap (λ (a : StateFields). ok a.block_hashes) same,
        ap (λ (a : StateFields). a.block_number) (sym same),
      )

  -- The parts of a run that has a summary.
  abbrev Parts : BatchInput → BlockInput → List BlockInput → Summary → Type 0
  Parts input first rest m =
      (ring : List B256) × (ran : Ran D) × (verify_block_hashes_blake_before input.batch_meta first
        ≡ ok ring)
      × (execute_blocks E (first ∷ rest) (E.seed ring first.number) [] ≡ ok ran)
      × (state_after_of E input first rest ring ran ≡ ok m.after)
      × (m.before.tree_root ≡ input.batch_meta.tree_root_before)
      × (m.before.leaf_count ≡ input.batch_meta.leaf_count_before)

  summarize_blocks-eq-ok :
      (input : BatchInput) (spec_id : ZkSpecId) (first : BlockInput) (rest : List BlockInput)
      (m : Summary)
      → summarize_blocks E input spec_id first rest ≡ ok m
      → Parts input first rest m
  unfolding summarize_blocks
  summarize_blocks-eq-ok input spec_id first rest m e =
      let (ring, e₁, r₁) =
        >>=-eq-ok (lift ring_panic (verify_block_hashes_blake_before input.batch_meta first)) _ e in
      let (ran, e₂, r₂) =
        >>=-eq-ok (execute_blocks E (first ∷ rest) (E.seed ring first.number) []) _ r₁ in
      let (after, e₃, r₃) = >>=-eq-ok (state_after_of E input first rest ring ran) _ r₂ in
      let (t, e₄, r₄) =
        >>=-eq-ok
          (count_blocks input.batch_meta (S.is_enabled_in atlas_v4 spec_id) (first ∷ rest) no_txs) _
          r₃ in
      let (e₅, r₅) = >>-eq-ok (check_upgrade input.batch_meta t) _ r₄ in
      let (derived, e₆, r₆) =
        >>=-eq-ok (derive_interop input.batch_meta spec_id after.tree_root) _ r₅ in
      let (output, e₇, r₇) =
        >>=-eq-ok
          (output_of input spec_id first (last_of first rest) t derived
            (map (λ r. map (λ log. encode log) r.l2_to_l1_logs) ran.results))
          _ r₆ in
      let same = ok_inj r₇ in
      (
        ring,
        ran,
        lift-eq-ok ring_panic _ e₁,
        e₂,
        e₃ ∙ ap (λ (m : Summary). ok m.after) same,
        ap (λ (m : Summary). m.before.tree_root) (sym same),
        ap (λ (m : Summary). m.before.leaf_count) (sym same),
      )

  module _ (input : BatchInput) (first : BlockInput) (rest : List BlockInput) (s : Store)
      (chain : ℕ → B256) (m : Summary) where
    -- The blocks ran on the window of the chain, and their writes went into the tree `s`, with the
    -- root and the leaf count after the batch; the ring after it is rebuilt from that window and the
    -- computed hashes.
    abbrev pub Committed : Type 0
    Committed =
        (ran : Ran D) × (execute_blocks E (first ∷ rest)
            (E.seed (slots_from 256 0 (window chain first.number)) first.number) []
          ≡ ok ran)
        × (reconstruct_block_hashes_blake_after first.number (last_of first rest).number
              (slots_from 256 0 (window chain first.number)) ran.computed
              (last_hash_of ran.results 0)
            ≡ ok m.after.block_hashes)
        × (s' : Store) × (m.after.tree_root ≡ tree_root s')
        × (m.after.leaf_count ≡ length s')
        × IsLinked s'
        × ((j : B256) → value_of s' j ≡ or_else (lookup j (E.revm_writes ran.final)) (value_of s j))
        × (m.before.tree_root ≡ tree_root s)
        × (m.before.leaf_count ≡ length s)

    run_transition :
        (spec_id : ZkSpecId)
        → UpdateFits input.batch_meta.tree_update s
        → StoreFits s
        → IsLinked s
        → tree_root s ≡ input.batch_meta.tree_root_before
        → length s ≡ input.batch_meta.leaf_count_before
        → first.number < 2 ^ 64
        → NumbersFit first.block_hashes
        → HashesFit first.block_hashes
        → IsChain chain
        → input.batch_meta.block_hashes_blake_before ≡ ring_commitment chain first.number
        → summarize_blocks E input spec_id first rest ≡ ok m
        → UnlessCollision (λ x. RingHashed chain first.number x ⊎ TreeHashed s x) Committed
    run_transition spec_id room fits linked root count number numbers hashes typed pinned e =
        let (ring, ran, checked, executed, after, before_root, before_count) =
          summarize_blocks-eq-ok input spec_id first rest m e in
        let (updated, ringed, last) =
          state_after_of-eq-ok input first rest ring ran m.after after in
        and_then
          (widen (λ x h. inl h)
            (verify_block_hashes_blake_before_sound input.batch_meta first chain ring number numbers
              hashes typed pinned checked))
          λ same.
            and_then
              (widen (λ x h. inr h)
                (verify_tree_update_refines input.batch_meta (E.revm_writes ran.final) s
                  m.after.tree_root m.after.leaf_count room fits linked root count updated))
              λ (s', er, en, linked', values). inl (
                ran,
                ap (λ (r : List B256). execute_blocks E (first ∷ rest) (E.seed r first.number) [])
                      (sym same)
                    ∙ executed,
                ap
                      (λ (r : List B256).
                        reconstruct_block_hashes_blake_after first.number
                          (last_of first rest).number r ran.computed (last_hash_of ran.results 0))
                      (sym same)
                    ∙ ringed,
                s',
                er,
                en,
                linked',
                values,
                before_root ∙ sym root,
                before_count ∙ sym count,
              )

  -- Let a linked tree `s` have the root and the leaf count of the state before the batch, let the
  -- pinned commitment to the block hashes be that of the window of a chain before the first block,
  -- and let all values be in the range of their types, with room in the tree. If the run gives a
  -- summary, then, unless a second preimage of what the pinned commitment or the tree `s` hashes is
  -- at hand, the blocks were executed on that window; the root and the leaf count after the batch are
  -- those of a linked tree that holds the writes of the execution over the values of `s`; the ring
  -- after the batch is rebuilt from that window and the computed header hashes; and the committed
  -- state before is that of `s`.
  pub summarize_sound :
      (input : BatchInput) (spec_id : ZkSpecId) (first : BlockInput) (rest : List BlockInput)
      (s : Store) (chain : ℕ → B256) (m : Summary)
      → input.blocks ≡ first ∷ rest
      → UpdateFits input.batch_meta.tree_update s
      → StoreFits s
      → IsLinked s
      → tree_root s ≡ input.batch_meta.tree_root_before
      → length s ≡ input.batch_meta.leaf_count_before
      → first.number < 2 ^ 64
      → NumbersFit first.block_hashes
      → HashesFit first.block_hashes
      → IsChain chain
      → input.batch_meta.block_hashes_blake_before ≡ ring_commitment chain first.number
      → summarize E input spec_id ≡ ok m
      → UnlessCollision
          (λ x. RingHashed chain first.number x ⊎ TreeHashed s x)
          (Committed input first rest s chain m)
  unfolding summarize summarize_list
  summarize_sound input spec_id first rest s chain m blocks room fits linked root count number
        numbers hashes typed pinned e =
      run_transition input first rest s chain m spec_id room fits linked root count number numbers
        hashes typed pinned
        (ap (λ (l : List BlockInput). summarize_list E input spec_id l) (sym blocks) ∙ e)
