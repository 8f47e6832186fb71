-- ===== src/Executor/Valid.antt =====
-- What the checks of lib/src/executor/mod.rs establish of a batch.
use zksync_os_zisk.Prelude.{
  ℕ, zero, suc, ◌+◌, ◌%◌, ◌^◌, ◌≤◌, ◌<◌, ◌≡◌, ◌≢◌, refl, ap, sym, ◌∙◌, ◌⊎◌, Bool, true, false, not,
  ◌||◌, none, some, List, [], ◌∷◌, ◌==◌, leb, All, ok, guard-eq-ok, from_option, from_option-eq-ok,
  >>=-eq-ok, >>-eq-ok, ok_inj, arith,
}
use zksync_os_zisk.Types.{BatchInput, BlockInput}
use zksync_os_zisk.Executor.{
  ZkSpecId, atlas_v4, atlas_v5, tier, SpecCrate, zk_spec_id, minor_ok, version_allows,
  check_windows, check_roots, check_gas_limits, validate_expected_tree_roots,
  validate_atlas_v4_block_invariants, validate_blocks, validate_block_sequence,
  resolve_spec_and_validate, max_block_gas_limit, default_max_tx_gas_limit,
}

-- The blocks follow a block of the given number and timestamp, one number after another.
abbrev pub Follows : ℕ → ℕ → List BlockInput → Type 0
Follows number timestamp [] = Unit
Follows number timestamp (b ∷ rest) =
    (b.number ≡ (number + 1) % 2 ^ 64)
    × (timestamp ≤ b.timestamp)
    × Follows b.number b.timestamp rest

-- The expected tree root is zero or the root before the batch.
abbrev pub PinsRoot : ℕ → BlockInput → Type 0
PinsRoot pinned b = (b.expected_tree_root ≡ 0) ⊎ (b.expected_tree_root ≡ pinned)

pub record IsValidBatch (input : BatchInput) (spec_id : ZkSpecId) : Type 0 where
  pub supported : (input.version ≡ 3) ⊎ ((input.version ≡ 5) ⊎ (input.version ≡ 6))
  pub spec : tier spec_id ≡ input.spec_id
  pub v3_specs : input.version ≡ 3 → input.spec_id ≤ 2
  pub v5_specs : input.version ≡ 5 → input.spec_id ≤ 3
  pub flags : input.spec_id < 4 → input.batch_meta.l1_tx_filtering_enabled ≡ false
  pub large_flags : input.spec_id < 4 → input.batch_meta.large_contracts_enabled ≡ false
  pub not_empty : input.blocks ≢ []
  pub sequence :
      Follows input.batch_meta.block_number_before input.batch_meta.last_block_timestamp_before
        input.blocks
  pub pinned : All (PinsRoot input.batch_meta.tree_root_before) input.blocks
  pub limits :
      3 ≤ input.spec_id
      → All (λ b. (0 < b.number) × (b.gas_limit ≤ max_block_gas_limit)) input.blocks
  pub chain_limit : 3 ≤ input.spec_id → default_max_tx_gas_limit ≤ input.batch_meta.max_tx_gas_limit

windows_follow :
    (b : BlockInput) (rest : List BlockInput)
    → check_windows (b ∷ rest) ≡ ok tt
    → Follows b.number b.timestamp rest
unfolding check_windows
windows_follow b [] e = tt
windows_follow b (c ∷ rest) e =
    let (en, e₁) = guard-eq-ok (c.number == (b.number + 1) % 2 ^ 64) _ _ e in
    let (et, e₂) = guard-eq-ok (leb b.timestamp c.timestamp) _ _ e₁ in
    (ground arith, ground arith, windows_follow c rest e₂)

roots_pinned :
    (pinned : ℕ) (blocks : List BlockInput)
    → check_roots pinned blocks ≡ ok tt
    → All (PinsRoot pinned) blocks
unfolding check_roots
roots_pinned pinned [] e = tt
roots_pinned pinned (b ∷ rest) e =
    let (eb, e₁) =
      guard-eq-ok (b.expected_tree_root == 0 || b.expected_tree_root == pinned) _ _ e in
    (ground arith, roots_pinned pinned rest e₁)

limits_hold :
    (max_tx : ℕ) (blocks : List BlockInput)
    → check_gas_limits max_tx blocks ≡ ok tt
    → All (λ b. (0 < b.number) × (b.gas_limit ≤ max_block_gas_limit)) blocks
unfolding check_gas_limits
limits_hold max_tx [] e = tt
limits_hold max_tx (b ∷ rest) e =
    let (en, e₁) = guard-eq-ok (leb 1 b.number) _ _ e in
    let (eg, e₂) = guard-eq-ok (leb b.gas_limit max_block_gas_limit) _ _ e₁ in
    let (et, e₃) = guard-eq-ok _ _ _ e₂ in
    ((ground arith, ground arith), limits_hold max_tx rest e₃)

tier_of : (n : ℕ) (spec : ZkSpecId) → zk_spec_id n ≡ some spec → tier spec ≡ n
unfolding zk_spec_id
tier_of zero spec e = sym (ap (λ o. elim o [ some s ↦ tier s | none ↦ 0 ]) e)
tier_of (suc zero) spec e = sym (ap (λ o. elim o [ some s ↦ tier s | none ↦ 1 ]) e)
tier_of (suc (suc zero)) spec e = sym (ap (λ o. elim o [ some s ↦ tier s | none ↦ 2 ]) e)
tier_of (suc (suc (suc zero))) spec e = sym (ap (λ o. elim o [ some s ↦ tier s | none ↦ 3 ]) e)
tier_of (suc (suc (suc (suc zero)))) spec e =
    sym (ap (λ o. elim o [ some s ↦ tier s | none ↦ 4 ]) e)
tier_of (suc (suc (suc (suc (suc n))))) spec e = absurd (cc)

allows_v3 :
    (version spec_id : ℕ) → version_allows version spec_id ≡ true → version ≡ 3 → spec_id ≤ 2
unfolding version_allows
allows_v3 version spec_id e h = ground arith

allows_v5 :
    (version spec_id : ℕ) → version_allows version spec_id ≡ true → version ≡ 5 → spec_id ≤ 3
unfolding version_allows
allows_v5 version spec_id e h = ground arith

module _ ⦃S : SpecCrate⦄ where
  limits_valid :
      (input : BatchInput) (spec : ZkSpecId)
      → validate_atlas_v4_block_invariants input spec ≡ ok tt
      → 3 ≤ tier spec
      → (default_max_tx_gas_limit ≤ input.batch_meta.max_tx_gas_limit)
        × All (λ b. (0 < b.number) × (b.gas_limit ≤ max_block_gas_limit)) input.blocks
  unfolding validate_atlas_v4_block_invariants
  limits_valid input spec e le =
      let on : S.is_enabled_in atlas_v4 spec ≡ true =
        S.is_enabled_in_lem atlas_v4 spec ∙ ground arith in
      let (ed, e₁) =
        guard-eq-ok (leb default_max_tx_gas_limit input.batch_meta.max_tx_gas_limit) _ _
          (rw on at e) in
      let (ep, e₂) = guard-eq-ok _ _ _ e₁ in
      (ground arith, limits_hold input.batch_meta.max_tx_gas_limit input.blocks e₂)

  record Sequenced (input : BatchInput) (spec : ZkSpecId) (blocks : List BlockInput) : Type 0 where
    not_empty : blocks ≢ []
    invariants : validate_atlas_v4_block_invariants input spec ≡ ok tt
    sequence :
        Follows input.batch_meta.block_number_before input.batch_meta.last_block_timestamp_before
          blocks
    roots : validate_expected_tree_roots input ≡ ok tt

  blocks_valid :
      (input : BatchInput) (spec : ZkSpecId) (blocks : List BlockInput)
      → validate_blocks input spec blocks ≡ ok tt
      → Sequenced input spec blocks
  unfolding validate_blocks
  blocks_valid input spec [] e = absurd (cc)
  blocks_valid input spec (b ∷ rest) e =
      let (ei, e₁) = >>-eq-ok (validate_atlas_v4_block_invariants input spec) _ e in
      let (en, e₂) =
        guard-eq-ok (b.number == (input.batch_meta.block_number_before + 1) % 2 ^ 64) _ _ e₁ in
      let (et, e₃) =
        guard-eq-ok (leb input.batch_meta.last_block_timestamp_before b.timestamp) _ _ e₂ in
      let (ew, e₄) = >>-eq-ok (check_windows (b ∷ rest)) _ e₃ in
      record {
        not_empty = λ z. cc;
        invariants = ei;
        sequence = (ground arith, ground arith, windows_follow b rest ew);
        roots = e₄;
      }

  flags_off :
      (spec : ZkSpecId) (f g : Bool)
      → (S.is_enabled_in atlas_v5 spec || not (f || g)) ≡ true
      → tier spec < 4
      → (f ≡ false) × (g ≡ false)
  flags_off spec f g e lt =
      let off : S.is_enabled_in atlas_v5 spec ≡ false =
        S.is_enabled_in_lem atlas_v5 spec ∙ ground arith in
      both_off f g (rw off at e)
    where
      both_off : (f g : Bool) → not (f || g) ≡ true → (f ≡ false) × (g ≡ false)
      both_off true g e = absurd (cc)
      both_off false true e = absurd (cc)
      both_off false false e = (refl, refl)

  -- A batch that passes the checks has a supported version and the spec of its `spec_id`, which its
  -- version can carry. It has no flag that came with AtlasV5 before that spec, and at least one
  -- block. Its blocks are numbered one after another, from the block before the batch, as u64
  -- numbers, with timestamps that never decrease, and the expected tree root of each is zero or the
  -- root before the batch. From AtlasV4 on every block has a positive number and a gas limit within
  -- the protocol maximum, and the chain's transaction gas limit is at least the default.
  pub resolve_spec_and_validate_lem :
      (input : BatchInput) (spec : ZkSpecId)
      → resolve_spec_and_validate input ≡ ok spec
      → IsValidBatch input spec
  unfolding resolve_spec_and_validate
  resolve_spec_and_validate_lem input spec e =
      let (ev, e₁) =
        guard-eq-ok (input.version == 3 || (input.version == 5 || input.version == 6)) _ _ e in
      let (ea, e₂) = guard-eq-ok (version_allows input.version input.spec_id) _ _ e₁ in
      let (spec', es, e₃) = >>=-eq-ok (from_option (zk_spec_id input.spec_id) _) _ e₂ in
      let (em, e₄) = guard-eq-ok (minor_ok spec' input.protocol_version_minor) _ _ e₃ in
      let (ef, e₅) = guard-eq-ok _ _ _ e₄ in
      let (eq, e₆) = >>-eq-ok (validate_block_sequence input spec') _ e₅ in
      let same : spec' ≡ spec = ok_inj e₆ in
      let et : tier spec ≡ input.spec_id =
        rw (← same) (tier_of input.spec_id spec' (from_option-eq-ok _ _ es)) in
      let q =
        blocks_valid input spec input.blocks (unfold validate_block_sequence in rw same at eq) in
      let et' : tier spec' ≡ input.spec_id =
        tier_of input.spec_id spec' (from_option-eq-ok _ _ es) in
      let flags_off' = flags_off spec' _ _ ef in
      record {
        supported = ground arith;
        spec = et;
        v3_specs = allows_v3 input.version input.spec_id ea;
        v5_specs = allows_v5 input.version input.spec_id ea;
        flags = λ lt. (flags_off' (omega arith)).0;
        large_flags = λ lt. (flags_off' (omega arith)).1;
        not_empty = q.not_empty;
        sequence = q.sequence;
        pinned =
            roots_pinned input.batch_meta.tree_root_before input.blocks
              (unfold validate_expected_tree_roots in q.roots);
        limits = λ le. (limits_valid input spec q.invariants (omega arith)).1;
        chain_limit = λ le. (limits_valid input spec q.invariants (omega arith)).0;
      }
