-- ===== src/Aggregator/Layout.antt =====
-- The layout of a proof stream, as the header of guest-aggregator/src/lib.rs draws it, and `parse`.
use zksync_os_zisk.Prelude.{
  ℕ, ◌+◌, ◌-◌, ◌≤◌, ◌≡◌, refl, ap, sym, ◌∙◌, subst, [], ◌∷◌, ◌++◌, ==→eq, length, length-append,
  get_or, take, drop, length-take, length-drop, take-drop, drop-drop, get_or-drop,
  take-append_exact, drop-append_exact, ok, guard-eq-ok, ok_inj, arith,
}
use zksync_os_zisk.Aggregator.{
  Words, ProofFrame, parse, program_vk, vadcop_vk, publics, vadcop_final_body_words,
  proof_stream_words, expected_n_publics, is_vadcop_final_proof, expected_hash_tag, wrong_length,
  minimal_proof, bad_publics_count, bad_hash_tag, not_a_leaf_proof,
}

-- `[minimal][n_publics][is_vadcop_final_proof][program_vk][publics][body][vadcop_vk][hash_tag]`
unfoldable pub stream : Words → Words → Words → Words → Words
stream pvk pubs body vvk =
    0
    ∷ expected_n_publics
    ∷ is_vadcop_final_proof
    ∷ (pvk ++ (pubs ++ (body ++ (vvk ++ expected_hash_tag ∷ []))))

-- The parts have their sizes.
pub record AreParts (pvk pubs body vvk : Words) : Type 0 where
  pub pvk_size : length pvk ≡ 4
  pub pubs_size : length pubs ≡ 64
  pub body_size : length body ≡ vadcop_final_body_words
  pub vvk_size : length vvk ≡ 4

three :
    (words : Words)
    → 3 ≤ length words
    → words ≡ get_or words 0 0 ∷ get_or words 1 0 ∷ get_or words 2 0 ∷ drop 3 words
three [] h = absurd (omega arith)
three (a ∷ []) h = absurd (omega arith)
three (a ∷ b ∷ []) h = absurd (omega arith)
three (a ∷ b ∷ c ∷ words) h = refl

single : (words : Words) → length words ≡ 1 → words ≡ get_or words 0 0 ∷ []
single [] e = absurd (omega arith)
single (x ∷ []) e = refl
single (x ∷ y ∷ words) e = absurd (omega arith)

-- The cuts of a list at four places.
cut :
    (n₁ n₂ n₃ n₄ : ℕ) (xs : Words)
    → length xs ≡ n₁ + n₂ + n₃ + n₄ + 1
    → xs
      ≡ take n₁ xs
        ++ (take n₂ (drop n₁ xs)
            ++ (take n₃ (drop (n₁ + n₂) xs)
                ++ (take n₄ (drop (n₁ + n₂ + n₃) xs) ++ get_or xs (n₁ + n₂ + n₃ + n₄) 0 ∷ [])))
cut n₁ n₂ n₃ n₄ xs size =
    let d = λ (n : ℕ). drop n xs in
    let more = λ (n k : ℕ).
      sym (take-drop k (drop n xs)) ∙ ap (λ l. take k (drop n xs) ++ l) (drop-drop k n xs) in
    let end : drop (n₁ + n₂ + n₃ + n₄) xs ≡ get_or xs (n₁ + n₂ + n₃ + n₄) 0 ∷ [] =
      single (drop (n₁ + n₂ + n₃ + n₄) xs) (length-drop (n₁ + n₂ + n₃ + n₄) xs ∙ omega arith)
      ∙ ap (λ (x : ℕ). x ∷ [])
          (get_or-drop (n₁ + n₂ + n₃ + n₄) 0 xs 0 ∙ ap (λ (k : ℕ). get_or xs k 0) (omega arith)) in
    sym (take-drop n₁ xs)
    ∙ ap (λ l. take n₁ xs ++ l)
        (more n₁ n₂
          ∙ ap (λ l. take n₂ (drop n₁ xs) ++ l)
              (more (n₁ + n₂) n₃
                ∙ ap (λ l. take n₃ (drop (n₁ + n₂) xs) ++ l)
                    (more (n₁ + n₂ + n₃) n₄ ∙ ap (λ l. take n₄ (drop (n₁ + n₂ + n₃) xs) ++ l) end)))

-- What `parse` checked.
parsed :
    (words : Words) (frame : ProofFrame)
    → parse words ≡ ok frame
    → (length words ≡ proof_stream_words)
      × (get_or words 0 0 ≡ 0)
      × (get_or words 1 0 ≡ expected_n_publics)
      × (get_or words 46216 0 ≡ expected_hash_tag)
      × (get_or words 2 0 ≡ is_vadcop_final_proof)
      × (record { words = words } ≡ frame)
unfolding parse
parsed words frame e =
    let (e₀, r₀) = guard-eq-ok _ (wrong_length (length words)) _ e in
    let (e₁, r₁) = guard-eq-ok _ (minimal_proof (get_or words 0 0)) _ r₀ in
    let (e₂, r₂) = guard-eq-ok _ (bad_publics_count (get_or words 1 0)) _ r₁ in
    let (e₃, r₃) = guard-eq-ok _ (bad_hash_tag (get_or words 46216 0)) _ r₂ in
    let (e₄, r₄) = guard-eq-ok _ (not_a_leaf_proof (get_or words 2 0)) _ r₃ in
    (==→eq _ _ e₀, ==→eq _ _ e₁, ==→eq _ _ e₂, ==→eq _ _ e₃, ==→eq _ _ e₄, ok_inj r₄)

-- A frame over the words is a stream of its parts.
abbrev pub IsLaidOut : Words → ProofFrame → Type 0
IsLaidOut words frame =
    (body : Words) × AreParts (program_vk frame) (publics frame) body (vadcop_vk frame)
    × (frame.words ≡ words)
    × (words ≡ stream (program_vk frame) (publics frame) body (vadcop_vk frame))

laid_out :
    (words : Words)
    → length words ≡ proof_stream_words
    → get_or words 0 0 ≡ 0
    → get_or words 1 0 ≡ expected_n_publics
    → get_or words 46216 0 ≡ expected_hash_tag
    → get_or words 2 0 ≡ is_vadcop_final_proof
    → IsLaidOut words (record { words = words })
unfolding program_vk publics vadcop_vk stream
laid_out words size minimal count tag leaf =
    let rest = drop 3 words in
    let left : length (drop 3 words) ≡ 46214 = length-drop 3 words ∙ omega (arith, size) in
    let key : take 4 (drop (length words - 1 - 4) words) ≡ take 4 (drop 46209 (drop 3 words)) =
      ap (λ (n : ℕ). take 4 (drop (n - 1 - 4) words)) size
      ∙ ap (take 4) (sym (drop-drop 46209 3 words)) in
    let last : get_or (drop 3 words) 46213 0 ≡ 0 = get_or-drop 3 46213 words 0 ∙ tag in
    (
      take 46141 (drop 68 rest),
      record {
        pvk_size = length-take 4 rest (omega (arith, left));
        pubs_size = length-take 64 (drop 7 words) (omega (arith, size, length-drop 7 words));
        body_size =
            length-take 46141 (drop 68 rest) (omega (arith, left, length-drop 68 (drop 3 words)));
        vvk_size =
            ap length key
            ∙ length-take 4 (drop 46209 rest)
                (omega (arith, left, length-drop 46209 (drop 3 words)));
      },
      refl,
      three words (omega (arith, size)) ∙ (λ i.
          minimal i
          ∷ count i
          ∷ leaf i
          ∷ (cut 4 64 46141 4 rest left ∙ (λ j.
                take 4 rest
                ++ (take 64 (drop-drop 4 3 words j)
                    ++ (take 46141 (drop 68 rest) ++ (sym key j ++ last j ∷ [])))))
              i),
    )

-- A stream that `parse` accepts is laid out as documented, with the two keys and the publics where the
-- frame reads them: the flag 0, the count 69, the leaf flag 1, four words of program key, 64 publics,
-- 46,141 words of body, four words of vadcop key, the tag 0.
pub parse-IsLaidOut :
    (words : Words) (frame : ProofFrame) → parse words ≡ ok frame → IsLaidOut words frame
parse-IsLaidOut words frame e =
    let (size, minimal, count, tag, leaf, same) = parsed words frame e in
    subst (IsLaidOut words) same (laid_out words size minimal count tag leaf)

module _ (pvk pubs body vvk : Words) (sizes : AreParts pvk pubs body vvk) where
  after_pvk : drop 7 (stream pvk pubs body vvk) ≡ pubs ++ (body ++ (vvk ++ expected_hash_tag ∷ []))
  unfolding stream
  after_pvk = drop-append_exact 4 pvk _ (sym sizes.pvk_size)

  after_pubs : drop 71 (stream pvk pubs body vvk) ≡ body ++ (vvk ++ expected_hash_tag ∷ [])
  after_pubs =
      sym (drop-drop 64 7 (stream pvk pubs body vvk))
      ∙ ap (drop 64) after_pvk
      ∙ drop-append_exact 64 pubs _ (sym sizes.pubs_size)

  after_body : drop 46212 (stream pvk pubs body vvk) ≡ vvk ++ expected_hash_tag ∷ []
  after_body =
      sym (drop-drop 46141 71 (stream pvk pubs body vvk))
      ∙ ap (drop 46141) after_pubs
      ∙ drop-append_exact 46141 body _ (sym sizes.body_size)

  after_vvk : drop 46216 (stream pvk pubs body vvk) ≡ expected_hash_tag ∷ []
  after_vvk =
      sym (drop-drop 4 46212 (stream pvk pubs body vvk))
      ∙ ap (drop 4) after_body
      ∙ drop-append_exact 4 vvk _ (sym sizes.vvk_size)

  pub length-stream : length (stream pvk pubs body vvk) ≡ proof_stream_words
  unfolding stream
  length-stream = omega (
    arith,
    length-append pvk (pubs ++ (body ++ (vvk ++ 0 ∷ []))),
    length-append pubs (body ++ (vvk ++ 0 ∷ [])),
    length-append body (vvk ++ 0 ∷ []),
    length-append vvk (0 ∷ []),
    sizes.pvk_size,
    sizes.pubs_size,
    sizes.body_size,
    sizes.vvk_size,
  )

  tag_read : get_or (stream pvk pubs body vvk) 46216 0 ≡ expected_hash_tag
  tag_read =
      sym (get_or-drop 46216 0 (stream pvk pubs body vvk) 0) ∙ ap (λ l. get_or l 0 0) after_vvk

  pub parse_accepts :
      parse (stream pvk pubs body vvk) ≡ ok (record { words = stream pvk pubs body vvk })
  unfolding parse
  parse_accepts = rw (length-stream, tag_read) (unfold stream in refl)

  -- A stream of four words of program key, 64 publics, a body of 46,141 words and four words of vadcop
  -- key, with the documented flags, is accepted by `parse`, and the frame reads back the two keys and
  -- the publics.
  pub parse-stream :
      (frame : ProofFrame) × (parse (stream pvk pubs body vvk) ≡ ok frame)
      × (program_vk frame ≡ pvk)
      × (publics frame ≡ pubs)
      × (vadcop_vk frame ≡ vvk)
  unfolding program_vk publics vadcop_vk
  parse-stream = (
    record { words = stream pvk pubs body vvk },
    parse_accepts,
    (unfold stream in take-append_exact 4 pvk _ (sym sizes.pvk_size)),
    ap (take 64) after_pvk ∙ take-append_exact 64 pubs _ (sym sizes.pubs_size),
    ap (λ (n : ℕ). take 4 (drop (n - 1 - 4) (stream pvk pubs body vvk))) length-stream
        ∙ ap (take 4) after_body
        ∙ take-append_exact 4 vvk _ (sym sizes.vvk_size),
  )
