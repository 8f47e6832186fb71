-- ===== src/Executor/Interop/Sound.antt =====
-- The values that lib/src/executor/interop.rs derives are those of the tree.
use zksync_os_zisk.Prelude.{
  ◌⊎◌, inr, ℕ, ◌/◌, ◌%◌, ◌^◌, ◌<◌, ◌≡◌, refl, ap, sym, ◌∙◌, inl, Option, ◌==◌, ==→eq, Result, ok,
  err, guard-eq-ok, >>=-eq-ok, ok_inj, arith,
}
use zksync_os_zisk.Types.{Address, InteropSlotProofs, InteropCommitmentTreeProofs}
use zksync_os_zisk.Merkle.Hash.{widen, B256, IsB256, Blake2s, UnlessCollision, and_then}
use zksync_os_zisk.Merkle.Tree.{TreeHashed, Store, IsLinked, tree_root, value_of}
use zksync_os_zisk.Merkle.Proof.{StorageProof, ProofError, verify}
use zksync_os_zisk.Merkle.Proof.Sound.{IsStorageProof, StoreFits, verify_sound}
use zksync_os_zisk.Commitment.Hash.{Keccak}
use zksync_os_zisk.AccountProps.{derive_flat_storage_key}
use zksync_os_zisk.Executor.Interop.{
  wrong_root, chain_id_exceeds_u64, or_failed, or_zero, InteropCommitmentTreeRoots, nodes_root_slot,
  verify_slot, derive_sl_chain_id, derive_merkle_engine_root, derive_multichain_root,
  derive_interop_commitment_tree_roots, system_context_address, message_root_address,
  interop_commitment_tree_address,
}

or_failed-eq-ok : {A : Type 0} (r : Result ProofError A) {a : A} → or_failed r ≡ ok a → r ≡ ok a
or_failed-eq-ok (ok b) e = ap ok (ok_inj e)
or_failed-eq-ok (err p) e = absurd (cc)

module _ ⦃H : Blake2s⦄ where
  -- What a tree holds at a slot of an account, zero if it holds nothing.
  unfoldable pub stored : Store → Address → B256 → B256
  unfolding derive_flat_storage_key value_of
  stored s address slot = or_zero (value_of s (derive_flat_storage_key address slot))

  derive_flat_storage_key-IsB256 :
      (address : Address) (slot : B256) → IsB256 (derive_flat_storage_key address slot)
  unfolding derive_flat_storage_key
  derive_flat_storage_key-IsB256 address slot = H.blake2s-IsB256 _

  module _ (s : Store) (fits : StoreFits s) (linked : IsLinked s) where
    verify_slot_sound :
        (proof : StorageProof) (address : Address) (slot anchor : B256) (found : Option B256)
        → IsStorageProof proof
        → 0 < derive_flat_storage_key address slot
        → tree_root s ≡ anchor
        → verify_slot proof (derive_flat_storage_key address slot) anchor ≡ ok found
        → UnlessCollision (TreeHashed s) (stored s address slot ≡ or_zero found)
    unfolding verify_slot stored
    verify_slot_sound proof address slot anchor found typed pos root e =
        let key = derive_flat_storage_key address slot in
        let (verified, ran, rest) = >>=-eq-ok (or_failed (verify proof key)) _ e in
        let (same, out) = guard-eq-ok (verified.0 == anchor) wrong_root _ rest in
        let to_root : verified ≡ (tree_root s, found) =
          λ i. ((==→eq verified.0 anchor same ∙ sym root) i, ok_inj out i) in
        and_then
          (verify_sound proof key s found typed (derive_flat_storage_key-IsB256 address slot) pos
            fits linked (or_failed-eq-ok (verify proof key) ran ∙ ap ok to_root))
          λ h. inl (ap or_zero h)

  module _ ⦃K : Keccak⦄ where
    -- The slot of the root of a Merkle engine, whose height the tree holds.
    abbrev pub engine_slot : Store → Address → B256 → ℕ → B256
    engine_slot s address height_slot base = nodes_root_slot base (stored s address height_slot)

    -- The keys of the two slots that a read of an engine goes through are not zero.
    abbrev pub HasKeys : Store → Address → B256 → ℕ → Type 0
    HasKeys s address height_slot base =
        (0 < derive_flat_storage_key address height_slot)
        × (0 < derive_flat_storage_key address (engine_slot s address height_slot base))

    engine_root_sound :
        (s : Store)
        → StoreFits s
        → IsLinked s
        → (address : Address) (height_slot : B256) (base : ℕ)
          (height_proof root_proof : StorageProof) (anchor r : B256)
        → IsStorageProof height_proof
        → IsStorageProof root_proof
        → HasKeys s address height_slot base
        → tree_root s ≡ anchor
        → derive_merkle_engine_root address height_slot base height_proof root_proof anchor ≡ ok r
        → UnlessCollision
            (TreeHashed s)
            (r ≡ stored s address (engine_slot s address height_slot base))
    unfolding derive_merkle_engine_root
    engine_root_sound s fits linked address height_slot base height_proof root_proof anchor r hp rp
          (pos, pos') root e =
        let (height, read, rest) =
          >>=-eq-ok (verify_slot height_proof (derive_flat_storage_key address height_slot) anchor)
            _ e in
        let (value, read', out) =
          >>=-eq-ok
            (verify_slot root_proof
              (derive_flat_storage_key address (nodes_root_slot base (or_zero height))) anchor)
            _ rest in
        and_then
          (verify_slot_sound s fits linked height_proof address height_slot anchor height hp pos
            root read)
          λ same.
            let at_slot =
              ap (λ (h : B256). derive_flat_storage_key address (nodes_root_slot base h)) same in
            and_then
              (verify_slot_sound s fits linked root_proof address
                (engine_slot s address height_slot base) anchor value rp pos' root
                (ap (λ (k : B256). verify_slot root_proof k anchor) at_slot ∙ read'))
              λ h. inl (sym (ok_inj out) ∙ sym h)

    -- The multichain root that is derived from accepted proofs against the root of a linked tree is
    -- what the tree holds at the slot of the root that belongs to the height it holds, unless a
    -- second preimage of a byte string that the tree hashes is at hand.
    pub derive_multichain_root_sound :
        (proofs : InteropSlotProofs) (s : Store) (anchor r : B256)
        → StoreFits s
        → IsLinked s
        → IsStorageProof proofs.multichain_height
        → IsStorageProof proofs.multichain_root
        → HasKeys s message_root_address 4 6
        → tree_root s ≡ anchor
        → derive_multichain_root proofs anchor ≡ ok r
        → UnlessCollision
            (TreeHashed s)
            (r ≡ stored s message_root_address (engine_slot s message_root_address 4 6))
    unfolding derive_multichain_root
    derive_multichain_root_sound proofs s anchor r fits linked hp rp keys root e =
        engine_root_sound s fits linked message_root_address 4 6 proofs.multichain_height
          proofs.multichain_root anchor r hp rp keys root e

    -- Proofs with values in the range of their types.
    pub record AreTreeProofs (proofs : InteropCommitmentTreeProofs) : Type 0 where
      pub height_begin : IsStorageProof proofs.height_begin
      pub root_begin : IsStorageProof proofs.root_begin
      pub height_end : IsStorageProof proofs.height_end
      pub root_end : IsStorageProof proofs.root_end

    -- The root of the interop commitment tree that a state tree holds.
    abbrev pub commitment_tree_root : Store → B256
    commitment_tree_root s =
        stored s interop_commitment_tree_address (engine_slot s interop_commitment_tree_address 0 2)

    -- From accepted proofs against the roots of a linked tree before the batch and of one after it, the
    -- two roots that are derived are those that the trees hold, each at the slot that belongs to the
    -- height that its tree holds, unless a second preimage of a byte string that one of the
    -- two trees hashes is at hand. The keys read are not zero,
    -- and leaves and proofs have values in the range of their types.
    pub derive_interop_commitment_tree_roots_sound :
        (proofs : InteropCommitmentTreeProofs) (s s' : Store) (roots : InteropCommitmentTreeRoots)
        → StoreFits s
        → IsLinked s
        → StoreFits s'
        → IsLinked s'
        → AreTreeProofs proofs
        → HasKeys s interop_commitment_tree_address 0 2
        → HasKeys s' interop_commitment_tree_address 0 2
        → derive_interop_commitment_tree_roots proofs (tree_root s) (tree_root s') ≡ ok roots
        → UnlessCollision
            (λ m. TreeHashed s m ⊎ TreeHashed s' m)
            ((roots.begin ≡ commitment_tree_root s) × (roots.end ≡ commitment_tree_root s'))
    unfolding derive_interop_commitment_tree_roots
    derive_interop_commitment_tree_roots_sound proofs s s' roots fits linked fits' linked' typed
          keys keys' e =
        let (begin, read, rest) =
          >>=-eq-ok
            (derive_merkle_engine_root interop_commitment_tree_address 0 2 proofs.height_begin
              proofs.root_begin (tree_root s))
            _ e in
        let (end, read', out) =
          >>=-eq-ok
            (derive_merkle_engine_root interop_commitment_tree_address 0 2 proofs.height_end
              proofs.root_end (tree_root s'))
            _ rest in
        and_then
          (widen (λ m x. inl x)
            (engine_root_sound s fits linked interop_commitment_tree_address 0 2 proofs.height_begin
              proofs.root_begin (tree_root s) begin typed.height_begin typed.root_begin keys refl
              read))
          λ first.
            and_then
              (widen (λ m x. inr x)
                (engine_root_sound s' fits' linked' interop_commitment_tree_address 0 2
                  proofs.height_end proofs.root_end (tree_root s') end typed.height_end
                  typed.root_end keys' refl read'))
              λ second. inl (
                ap (λ (v : InteropCommitmentTreeRoots). v.begin) (sym (ok_inj out)) ∙ first,
                ap (λ (v : InteropCommitmentTreeRoots). v.end) (sym (ok_inj out)) ∙ second,
              )

  -- The settlement-layer chain id that is derived from an accepted proof against the root of a linked
  -- tree is the value that the tree holds at slot 0 of the system context, zero if it holds none,
  -- unless a second preimage of a byte string that the tree hashes is at hand. The key is not zero,
  -- and leaves and proof have values in the range of their types.
  pub derive_sl_chain_id_sound :
      (proof : StorageProof) (s : Store) (n : ℕ)
      → StoreFits s
      → IsLinked s
      → IsStorageProof proof
      → 0 < derive_flat_storage_key system_context_address 0
      → derive_sl_chain_id proof (tree_root s) ≡ ok n
      → UnlessCollision (TreeHashed s) ((n ≡ stored s system_context_address 0) × (n < 2 ^ 64))
  unfolding derive_sl_chain_id
  derive_sl_chain_id_sound proof s n fits linked typed pos e =
      let (value, read, rest) =
        >>=-eq-ok
          (verify_slot proof (derive_flat_storage_key system_context_address 0) (tree_root s)) _
          e in
      let (small, out) =
        guard-eq-ok (or_zero value / 2 ^ 64 == 0) chain_id_exceeds_u64 (ok (or_zero value % 2 ^ 64))
          rest in
      and_then
        (verify_slot_sound s fits linked proof system_context_address 0 (tree_root s) value typed
          pos refl read)
        λ same. inl (low (or_zero value) (==→eq _ _ small) (sym (ok_inj out)) same)
    where
      low : {n m : ℕ} (v : ℕ) → v / 2 ^ 64 ≡ 0 → n ≡ v % 2 ^ 64 → m ≡ v → (n ≡ m) × (n < 2 ^ 64)
      low v small e same = omega arith
