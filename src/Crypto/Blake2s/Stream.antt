-- ===== src/Crypto/Blake2s/Stream.antt =====
-- What the hasher of lib/src/crypto/blake2s.rs keeps of its input: the bytes one after another,
-- whatever the pieces they came in.
use zksync_os_zisk.Prelude.{
  ℕ, zero, suc, ◌+◌, ◌%◌, ◌^◌, ◌≤◌, ◌<◌, ◌≡◌, refl, ap, sym, ◌∙◌, inl, inr, false, some, List, [],
  ◌∷◌, ◌++◌, ◌==◌, Bool-cases, if◌then◌else◌, length, length-append, take, drop, concat, take_all,
  length-take, length-drop, take-drop, take-append_exact, arith,
}
use mathlib.Core.List.{append_assoc, append-nil}
use zksync_os_zisk.Types.{Bytes}
use zksync_os_zisk.Crypto.Blake2s.{
  Slots, Blake2sf, Hasher, block_bytes, block_slots_of, compress, flush, fill, room, update_loop,
  update, updates,
}

-- What a hasher has taken in: the chaining state, the counter, and the bytes not yet compressed.
pub record Absorbed : Type 0 where
  pub state : Slots
  pub count : ℕ
  pub pending : Bytes

-- The buffer is a block, and as much of it counts as it can hold.
pub record IsHasher (s : Hasher) : Type 0 where
  pub block : length s.buf ≡ block_bytes
  pub within : s.buf_len ≤ block_bytes

module _ ⦃P : Blake2sf⦄ where
  unfoldable pub absorb_byte : Absorbed → ℕ → Absorbed
  unfolding block_slots_of compress
  absorb_byte a b =
      if length a.pending == block_bytes
      then record {
        state =
            compress a.state (block_slots_of a.pending) ((a.count + block_bytes) % 2 ^ 64) false;
        count = (a.count + block_bytes) % 2 ^ 64;
        pending = b ∷ [];
      }
      else record a { pending = a.pending ++ b ∷ [] }

  unfoldable pub absorb : Absorbed → Bytes → Absorbed
  unfolding absorb_byte
  absorb a [] = a
  absorb a (b ∷ input) = absorb (absorb_byte a b) input

  pub absorb-append : (a : Absorbed) (xs ys : Bytes) → absorb a (xs ++ ys) ≡ absorb (absorb a xs) ys
  unfolding absorb
  absorb-append a [] ys = refl
  absorb-append a (x ∷ xs) ys = absorb-append (absorb_byte a x) xs ys

  pub absorb_within :
      (h : Slots) (t : ℕ) (p xs : Bytes)
      → length p + length xs ≤ block_bytes
      → absorb (record { state = h; count = t; pending = p }) xs
        ≡ record { state = h; count = t; pending = p ++ xs }
  unfolding absorb absorb_byte
  absorb_within h t p [] le =
      ap (λ l. record { state = h; count = t; pending = l }) (sym (append-nil p))
  absorb_within h t p (x ∷ xs) le = elim (Bool-cases (length p == block_bytes)) [
    | inl full ↦ absurd (ground arith)
    | inr space ↦ rw space (
        absorb_within h t (p ++ x ∷ []) xs (omega (arith, length-append p (x ∷ [])))
        ∙ ap (λ l. record { state = h; count = t; pending = l }) (append_assoc p (x ∷ []) xs))
  ]

  -- A full block is compressed by the first byte that follows it.
  pub absorb_over :
      (h : Slots) (t : ℕ) (p : Bytes) (x : ℕ) (xs : Bytes)
      → length p ≡ block_bytes
      → absorb (record { state = h; count = t; pending = p }) (x ∷ xs)
        ≡ absorb
            (record {
              state = compress h (block_slots_of p) ((t + block_bytes) % 2 ^ 64) false;
              count = (t + block_bytes) % 2 ^ 64;
              pending = [];
            })
            (x ∷ xs)
  unfolding absorb absorb_byte
  absorb_over h t p x xs full = rw full refl

  unfoldable pub taken : Hasher → Absorbed
  taken s = record { state = s.h; count = s.t; pending = take s.buf_len s.buf }

  flush-IsHasher :
      (s : Hasher) → IsHasher s → IsHasher (flush s) × ((flush s).buf_len < block_bytes)
  unfolding flush
  flush-IsHasher s v = ground arith

  flush-taken :
      (s : Hasher) (b : ℕ) (input : Bytes)
      → IsHasher s
      → absorb (taken (flush s)) (b ∷ input) ≡ absorb (taken s) (b ∷ input)
  unfolding flush taken
  flush-taken s b input v = elim (Bool-cases (s.buf_len == block_bytes)) [
    | inr space ↦ rw space refl
    | inl full ↦
        let all : take s.buf_len s.buf ≡ s.buf =
          take_all s.buf_len s.buf (ground (arith, v.block)) in
        rw (full, all) (sym (absorb_over s.h s.t s.buf b input v.block))
  ]

  module _ (s : Hasher) (v : IsHasher s) (chunk : Bytes)
      (fits : s.buf_len + length chunk ≤ block_bytes) where
    fill-IsHasher : IsHasher (fill s chunk)
    unfolding fill
    fill-IsHasher = record {
      block =
          length-append (take s.buf_len s.buf) (chunk ++ drop (s.buf_len + length chunk) s.buf)
          ∙ omega (
            arith,
            length-append chunk (drop (s.buf_len + length chunk) s.buf),
            length-take s.buf_len s.buf (omega (arith, v.block, v.within)),
            length-drop (s.buf_len + length chunk) s.buf,
            v.block,
          );
      within = fits;
    }

    fill-taken : taken (fill s chunk) ≡ absorb (taken s) chunk
    unfolding fill taken
    fill-taken =
        let size : length (take s.buf_len s.buf) ≡ s.buf_len =
          length-take s.buf_len s.buf (omega (arith, v.block, v.within)) in
        let rest = drop (s.buf_len + length chunk) s.buf in
        let kept =
          ap (take (s.buf_len + length chunk))
            (sym (append_assoc (take s.buf_len s.buf) chunk rest))
          ∙ take-append_exact (s.buf_len + length chunk) (take s.buf_len s.buf ++ chunk) rest
              (omega (arith, length-append (take s.buf_len s.buf) chunk, size)) in
        ap (λ l. record { state = s.h; count = s.t; pending = l }) kept
        ∙ sym (absorb_within s.h s.t (take s.buf_len s.buf) chunk (omega (arith, size)))

  -- The loop ends within the fuel that the length of the input gives it.
  update_loop_lem :
      (fuel : ℕ) (s : Hasher) (input : Bytes)
      → IsHasher s
      → length input ≤ fuel
      → (s' : Hasher) × (update_loop fuel s input ≡ some s')
        × IsHasher s'
        × (taken s' ≡ absorb (taken s) input)
  unfolding update_loop absorb
  update_loop_lem fuel s [] v enough = (s, refl, v, refl)
  update_loop_lem zero s (b ∷ input) v enough = absurd (omega arith)
  update_loop_lem (suc fuel) s (b ∷ input) v enough =
      let all : Bytes = b ∷ input in
      let (v₁, space) = flush-IsHasher s v in
      let n = room (flush s) all in
      let some_room : 1 ≤ room (flush s) (b ∷ input) = ground arith in
      let n_le : room (flush s) (b ∷ input) ≤ suc (length input) = ground arith in
      let size = length-take (room (flush s) (b ∷ input)) (b ∷ input) n_le in
      let fits : (flush s).buf_len + length (take (room (flush s) (b ∷ input)) (b ∷ input))
          ≤ block_bytes =
        ground (arith, size) in
      let (s', ran, v', took) =
        update_loop_lem fuel (fill (flush s) (take n (b ∷ input))) (drop n (b ∷ input))
          (fill-IsHasher (flush s) v₁ (take n (b ∷ input)) fits)
          (omega (arith, length-drop n (b ∷ input), some_room)) in
      (
        s',
        ran,
        v',
        took
            ∙ ap (λ a. absorb a (drop n (b ∷ input)))
                (fill-taken (flush s) v₁ (take n (b ∷ input)) fits)
            ∙ sym (absorb-append (taken (flush s)) (take n (b ∷ input)) (drop n (b ∷ input)))
            ∙ ap (absorb (taken (flush s))) (take-drop n (b ∷ input))
            ∙ flush-taken s b input v,
      )

  update_lem :
      (s : Hasher) (input : Bytes)
      → IsHasher s
      → (s' : Hasher) × (update s input ≡ some s')
        × IsHasher s'
        × (taken s' ≡ absorb (taken s) input)
  unfolding update
  update_lem s input v = update_loop_lem (length input) s input v (omega arith)

  -- On a hasher whose buffer is a block with at most 64 bytes in use, the loop of `update` ends
  -- within as many rounds as the input has bytes, and leaves such a hasher.
  pub update-IsHasher :
      (s : Hasher) (input : Bytes)
      → IsHasher s
      → (s' : Hasher) × (update s input ≡ some s') × IsHasher s'
  update-IsHasher s input v = let (s', ran, v', took) = update_lem s input v in (s', ran, v')

  pub updates_lem :
      (s : Hasher) (parts : List Bytes)
      → IsHasher s
      → (s' : Hasher) × (updates s parts ≡ some s')
        × IsHasher s'
        × (taken s' ≡ absorb (taken s) (concat parts))
  unfolding updates absorb
  updates_lem s [] v = (s, refl, v, refl)
  updates_lem s (part ∷ parts) v =
      let (s₁, ran₁, v₁, took₁) = update_lem s part v in
      let (s', ran, v', took) = updates_lem s₁ parts v₁ in
      (
        s',
        rw (ran₁, updates) ran,
        v',
        took
            ∙ ap (λ a. absorb a (concat parts)) took₁
            ∙ sym (absorb-append (taken s) part (concat parts)),
      )
