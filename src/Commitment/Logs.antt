-- ===== src/Commitment/Logs.antt =====
-- The root of the L2 to L1 logs (lib/src/commitment.rs).
use zksync_os_zisk.Prelude.{
  ℕ, suc, ◌-◌, ◌^◌, ◌≤◌, ◌<◌, ◌≡◌, refl, ap, sym, ◌∙◌, inl, inr, ◌⊎◌, true, false, none, some, List,
  [], ◌∷◌, map, leb, Bool-cases, length, replicate, All, arith,
}
use mathlib.Core.Path.{ap₂}
use zksync_os_zisk.Merkle.Hash.{B256, IsB256}
use zksync_os_zisk.Types.{Bytes}
use zksync_os_zisk.FixedHeight.{empty_loop, full_levels}
use zksync_os_zisk.FixedHeight.Root.{pad, IsTable, empty_loop-IsTable, fold_leaves_lem}
use zksync_os_zisk.FixedHeight.Binding.{
  full_levels_inj, LevelsHashed, LevelsHashed-LevelsKnown, pad_inj, pad-IsB256,
}
use zksync_os_zisk.Commitment.Hash.{
  Keccak, KeccakCollision, keccak256_inj, UnlessKeccakCollision, and_then, keccak_compress,
  keccak_compress-IsB256, keccak_compress_inj, pair_preimage,
}
use zksync_os_zisk.Commitment.{fixed_height_keccak_root, empty_subtree_hashes, l2_to_l1_logs_root}

length-map : {A B : Type 0} (f : A → B) (xs : List A) → length (map f xs) ≡ length xs
length-map f [] = refl
length-map f (x ∷ xs) = ap suc (length-map f xs)

some_inj : {a b : B256} → some a ≡ some b → a ≡ b
some_inj e = ground arith

module _ ⦃K : Keccak⦄ where
  abbrev compress : B256 → B256 → B256
  compress l r = keccak_compress l r

  fixed_height_keccak_root_lem :
      (leaf : B256) (height : ℕ) (table leaves : List B256)
      → IsTable compress leaf height table
      → (length leaves ≤ 2 ^ height
          → fixed_height_keccak_root leaves table
            ≡ some (full_levels compress height (pad leaves leaf) 0))
        × (2 ^ height < length leaves → fixed_height_keccak_root leaves table ≡ none)
  unfolding fixed_height_keccak_root
  fixed_height_keccak_root_lem leaf height table leaves t =
      let eh : length table - 1 ≡ height = omega (arith, t.entries) in
      (
        λ le.
            let fits : leb (length leaves) (2 ^ height) ≡ true = ground arith in
            rw (eh, fits) (fold_leaves_lem compress leaf height table leaves t),
        λ lt.
            let refused : leb (length leaves) (2 ^ height) ≡ false = ground arith in
            rw (eh, refused) refl,
      )

  abbrev empty_log_hash : B256
  empty_log_hash = K.keccak256 (replicate 88 0)

  abbrev log_hashes : List Bytes → List B256
  log_hashes logs = map (λ log. K.keccak256 log) logs

  -- The root of the full tree of height 14 over the log hashes and the hash of the empty log.
  abbrev pub full_logs_root : List Bytes → B256
  full_logs_root logs = full_levels compress 14 (pad (log_hashes logs) empty_log_hash) 0

  -- At most 2 ^ 14 logs have the root of the full tree of height 14 over their hashes, padded with the
  -- hash of the empty log; more logs are refused.
  pub l2_to_l1_logs_root_lem :
      (logs : List Bytes)
      → (length logs ≤ 2 ^ 14 → l2_to_l1_logs_root logs ≡ some (full_logs_root logs))
        × (2 ^ 14 < length logs → l2_to_l1_logs_root logs ≡ none)
  unfolding l2_to_l1_logs_root empty_subtree_hashes
  l2_to_l1_logs_root_lem logs =
      let (within, beyond) =
        fixed_height_keccak_root_lem empty_log_hash 14 (empty_loop compress 14 empty_log_hash)
          (log_hashes logs) (empty_loop-IsTable compress 14 empty_log_hash) in
      (
        λ le. within (omega (arith, length-map (λ log. K.keccak256 log) logs)),
        λ lt. beyond (omega (arith, length-map (λ log. K.keccak256 log) logs)),
      )

  log_hashes-IsB256 : (logs : List Bytes) → All IsB256 (log_hashes logs)
  log_hashes-IsB256 [] = tt
  log_hashes-IsB256 (log ∷ logs) = (K.keccak256-IsB256 log, log_hashes-IsB256 logs)

  abbrev pub OneOf : List Bytes → List ℕ → Type 0
  OneOf [] m = ⊥
  OneOf (x ∷ xs) m = (m ≡ x) ⊎ OneOf xs m

  -- The byte strings that the logs root hashes: the logs, and those of the nodes of the tree.
  abbrev pub LogsHashed : List Bytes → List ℕ → Type 0
  LogsHashed logs m =
      OneOf logs m
      ⊎ LevelsHashed (λ l r. keccak_compress l r) pair_preimage 14
          (pad (map (λ log. K.keccak256 log) logs) (K.keccak256 (replicate 88 0))) m

  log_hashes_inj :
      {Q : List ℕ → Type 0} (xs ys : List Bytes)
      → ((m : List ℕ) → OneOf ys m → Q m)
      → log_hashes xs ≡ log_hashes ys
      → UnlessKeccakCollision Q (xs ≡ ys)
  log_hashes_inj [] [] known e = inl refl
  log_hashes_inj [] (y ∷ ys) known e = absurd (cc)
  log_hashes_inj (x ∷ xs) [] known e = absurd (cc)
  log_hashes_inj (x ∷ xs) (y ∷ ys) known e =
      and_then
        (keccak256_inj x y (known y (inl refl)) (ap (λ l. elim l [ [] ↦ 0 | ◌∷◌ h t ↦ h ]) e))
        λ heads.
          and_then
            (log_hashes_inj xs ys (λ m h. known m (inr h))
              (ap (λ l. elim l [ [] ↦ [] | ◌∷◌ h t ↦ t ]) e))
            λ tails. inl (ap₂ (λ z zs. z ∷ zs) heads tails)

  -- As many logs with one root are equal, unless a second preimage of a byte string
  -- that the root of the second list hashes is at hand.
  pub l2_to_l1_logs_root_inj :
      (xs ys : List Bytes) (root : B256)
      → length xs ≡ length ys
      → l2_to_l1_logs_root xs ≡ some root
      → l2_to_l1_logs_root ys ≡ some root
      → UnlessKeccakCollision (LogsHashed ys) (xs ≡ ys)
  l2_to_l1_logs_root_inj xs ys root el ex ey = elim (Bool-cases (leb (length xs) (2 ^ 14))) [
    | inr beyond ↦ absurd (no_root ((l2_to_l1_logs_root_lem xs).1 (ground arith)))
    | inl fits ↦
        let le = (let h : length xs ≤ 2 ^ 14 = ground arith in h) in
        let same : full_logs_root xs ≡ full_logs_root ys = some_inj (
          sym ((l2_to_l1_logs_root_lem xs).0 le)
          ∙ ex
          ∙ sym ey
          ∙ (l2_to_l1_logs_root_lem ys).0 (omega arith)) in
        and_then
          (full_levels_inj compress (KeccakCollision (LogsHashed ys))
            (λ c d. LogsHashed ys (pair_preimage c d)) keccak_compress-IsB256 keccak_compress_inj 14
            (pad (log_hashes xs) empty_log_hash) (pad (log_hashes ys) empty_log_hash)
            (LevelsHashed-LevelsKnown compress pair_preimage (LogsHashed ys) 14
              (pad (log_hashes ys) empty_log_hash) (λ m x. inr x))
            (pad-IsB256 empty_log_hash (log_hashes xs) (K.keccak256-IsB256 (replicate 88 0))
              (log_hashes-IsB256 xs))
            (pad-IsB256 empty_log_hash (log_hashes ys) (K.keccak256-IsB256 (replicate 88 0))
              (log_hashes-IsB256 ys))
            same)
          λ leaves.
            log_hashes_inj xs ys (λ m h. inl h)
              (pad_inj empty_log_hash (log_hashes xs) (log_hashes ys)
                (omega (
                  arith,
                  length-map (λ log. K.keccak256 log) xs,
                  length-map (λ log. K.keccak256 log) ys,
                ))
                (λ j lt. leaves j (omega (arith, length-map (λ log. K.keccak256 log) xs))))
  ]
    where
      no_root : l2_to_l1_logs_root xs ≡ none → ⊥
      no_root e = cc
