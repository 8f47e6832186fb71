-- ===== src/Aggregator/Binding.antt =====
-- What the committed output of guest-aggregator/src/lib.rs binds.
use zksync_os_zisk.Prelude.{
  ◌^◌, ◌<◌, ◌≡◌, refl, ap, sym, ◌∙◌, inl, List, [], ◌∷◌, ◌++◌, map, length, concat, All, ok,
  >>=-eq-ok, ok_inj, arith,
}
use mathlib.Core.List.{append_assoc}
use zksync_os_zisk.Prelude.Bytes.{be_bytes, be_bytes_inj, be_bytes_eq}
use zksync_os_zisk.Types.{Bytes}
use zksync_os_zisk.Commitment.Hash.{Keccak, keccak256_inj, UnlessKeccakCollision, and_then}
use zksync_os_zisk.Aggregator.{Words, finalize, range_public_input, vk_bytes}
use zksync_os_zisk.Aggregator.Fold.{holding}

-- Four words of 64 bits.
abbrev pub IsKey : Words → Type 0
IsKey vk = (length vk ≡ 4) × All (λ w. w < 2 ^ 64) vk

-- Batch public inputs are 32 bytes.
abbrev pub AreInputs : List Bytes → Type 0
AreInputs pis = All (λ pi. length pi ≡ 32) pis

words_inj :
    (xs ys : Words) (xt yt : Bytes)
    → length xs ≡ length ys
    → All (λ w. w < 2 ^ 64) xs
    → All (λ w. w < 2 ^ 64) ys
    → concat (map (λ w. be_bytes 8 w) xs) ++ xt ≡ concat (map (λ w. be_bytes 8 w) ys) ++ yt
    → (xs ≡ ys) × (xt ≡ yt)
words_inj [] [] xt yt el hx hy e = (refl, e)
words_inj [] (y ∷ ys) xt yt el hx hy e = absurd (omega arith)
words_inj (x ∷ xs) [] xt yt el hx hy e = absurd (omega arith)
words_inj (x ∷ xs) (y ∷ ys) xt yt el (hx, hxs) (hy, hys) e =
    let rest = λ (zs : Words). concat (map (λ w. be_bytes 8 w) zs) in
    let (same, tails) = be_bytes_inj 8 x y (rest xs ++ xt) (rest ys ++ yt) hx hy (
      sym (append_assoc (be_bytes 8 x) (rest xs) xt)
      ∙ e
      ∙ append_assoc (be_bytes 8 y) (rest ys) yt) in
    let (lists, ends) = words_inj xs ys xt yt (omega arith) hxs hys tails in
    ((λ i. same i ∷ lists i), ends)

module _ ⦃K : Keccak⦄ where
  -- What the committed output of two keys and some batch public inputs hashes.
  abbrev pub OutputHashed : Words → Words → List Bytes → Bytes → Type 0
  OutputHashed p q pis m =
      (range : Bytes) × (range_public_input pis ≡ ok range)
      × (m ≡ vk_bytes p ++ (vk_bytes q ++ range))

  -- Two aggregations with one committed output have the same two keys and the same range public
  -- input, unless a second preimage of what the second output hashes is at hand: for keys of four
  -- 64-bit words.
  pub finalize_inj :
      (p q p' q' : Words) (pis pis' : List Bytes) (out : Bytes)
      → IsKey p
      → IsKey q
      → IsKey p'
      → IsKey q'
      → finalize (holding (p, q) pis) ≡ ok out
      → finalize (holding (p', q') pis') ≡ ok out
      → UnlessKeccakCollision
          (OutputHashed p' q' pis')
          ((p ≡ p') × (q ≡ q') × (range_public_input pis ≡ range_public_input pis'))
  unfolding finalize
  finalize_inj p q p' q' pis pis' out hp hq hp' hq' e e' =
      let (range, found, end) = >>=-eq-ok (range_public_input pis) _ e in
      let (range', found', end') = >>=-eq-ok (range_public_input pis') _ e' in
      and_then
        (keccak256_inj (vk_bytes p ++ (vk_bytes q ++ range))
          (vk_bytes p' ++ (vk_bytes q' ++ range')) (range', found', refl)
          (be_bytes_eq 32 _ _ (K.keccak256-IsB256 _) (K.keccak256-IsB256 _)
            (ok_inj end ∙ sym (ok_inj end'))))
        λ m.
          let (ep, m₁) = words_inj p p' _ _ (hp.0 ∙ sym hp'.0) hp.1 hp'.1 m in
          let (eq, m₂) = words_inj q q' _ _ (hq.0 ∙ sym hq'.0) hq.1 hq'.1 m₁ in
          inl (ep, eq, found ∙ ap ok m₂ ∙ sym found')
