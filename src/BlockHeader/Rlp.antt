-- ===== src/BlockHeader/Rlp.antt =====
-- The RLP encoder of lib/src/block_header.rs writes codes of which none is the beginning of another.
use zksync_os_zisk.Prelude.{
  ℕ, suc, ◌+◌, ◌*◌, ◌^◌, ◌<◌, ◌≤◌, ◌≡◌, refl, ap, sym, ◌∙◌, inl, inr, ◌⊎◌, ltb→lt, true, false,
  Bool-cases, [], ◌∷◌, ◌++◌, ◌==◌, ==→eq, ltb, if◌then◌else◌, length, get_or, drop, All, arith,
}
use zksync_os_zisk.Prelude.Bytes.{
  IsByte, be_bytes, from_be_acc, from_be_bytes, length-be_bytes, be_bytes-IsByte, from_be-be_bytes,
}
use zksync_os_zisk.Types.{Bytes}
use zksync_os_zisk.BlockHeader.{
  strip_leading_zeros, trim, be_bytes_trimmed, rlp_encode_bytes, rlp_encode_number,
  rlp_encode_list_header,
}

head_eq : {x y : ℕ} {xs ys : Bytes} → x ∷ xs ≡ y ∷ ys → x ≡ y
head_eq e = ap (λ l. get_or l 0 0) e

tail_eq : {x y : ℕ} {xs ys : Bytes} → x ∷ xs ≡ y ∷ ys → xs ≡ ys
tail_eq e = ap (λ l. drop 1 l) e

-- What follows two strings of one length.
append_inj :
    (xs ys as_ bs : Bytes) → length xs ≡ length ys → xs ++ as_ ≡ ys ++ bs → (xs ≡ ys) × (as_ ≡ bs)
append_inj [] [] as_ bs el e = (refl, e)
append_inj [] (y ∷ ys) as_ bs el e = absurd (omega arith)
append_inj (x ∷ xs) [] as_ bs el e = absurd (omega arith)
append_inj (x ∷ xs) (y ∷ ys) as_ bs el e =
    let (same, rest) = append_inj xs ys as_ bs (omega arith) (tail_eq e) in
    ((λ i. head_eq e i ∷ same i), rest)

pub append_inj_left : (xs as_ bs : Bytes) → xs ++ as_ ≡ xs ++ bs → as_ ≡ bs
append_inj_left xs as_ bs e = (append_inj xs xs as_ bs refl e).1

-- A short string is its own code, or has a first byte that gives its length.
short_code :
    (a : Bytes)
    → length a < 56
    → All IsByte a
    → ((x : ℕ) × (a ≡ x ∷ []) × (x < 128) × (rlp_encode_bytes a ≡ x ∷ []))
      ⊎ (rlp_encode_bytes a ≡ (0x80 + length a) ∷ a)
unfolding rlp_encode_bytes
short_code [] lt typed = inr refl
short_code (x ∷ []) lt typed = elim (Bool-cases (ltb x 0x80)) [
  | inl small ↦ inl (x, refl, ground (arith, small), rw small refl)
  | inr big ↦ inr (rw big refl)
]
short_code (x ∷ y ∷ a) lt typed =
    let few : ltb (suc (suc (length a))) 56 ≡ true = ground arith in
    let many : (suc (suc (length a)) == 1) ≡ false = ground arith in inr (rw (many, few) refl)

pub rlp_encode_bytes_inj :
    (a b xs ys : Bytes)
    → length a < 56
    → length b < 56
    → All IsByte a
    → All IsByte b
    → rlp_encode_bytes a ++ xs ≡ rlp_encode_bytes b ++ ys
    → (a ≡ b) × (xs ≡ ys)
rlp_encode_bytes_inj a b xs ys la lb ta tb e = elim (short_code a la ta) [
  | inl (x, ea, lx, ca) ↦ elim (short_code b lb tb) [
    | inl (y, eb, ly, cb) ↦
        let p : x ∷ xs ≡ y ∷ ys = rw (ca, cb) at e in
        (ea ∙ (λ i. head_eq p i ∷ []) ∙ sym eb, tail_eq p)
    | inr cb ↦
        let p : x ∷ xs ≡ (0x80 + length b) ∷ (b ++ ys) = rw (ca, cb) at e in
        absurd (omega (arith, head_eq p))
  ]
  | inr ca ↦ elim (short_code b lb tb) [
    | inl (y, eb, ly, cb) ↦
        let p : (0x80 + length a) ∷ (a ++ xs) ≡ y ∷ ys = rw (ca, cb) at e in
        absurd (omega (arith, head_eq p))
    | inr cb ↦
        let p : (0x80 + length a) ∷ (a ++ xs) ≡ (0x80 + length b) ∷ (b ++ ys) = rw (ca, cb) at e in
        append_inj a b xs ys (omega (arith, head_eq p)) (tail_eq p)
  ]
]

start : (b : ℕ) → b ≡ 0 → 0 ≡ 0 * 256 + b
start b e = omega arith

from_be-strip : (bytes : Bytes) → from_be_bytes (strip_leading_zeros bytes) ≡ from_be_bytes bytes
unfolding strip_leading_zeros from_be_acc
from_be-strip [] = refl
from_be-strip (b ∷ bytes) = elim (Bool-cases (b == 0)) [
  | inl z ↦ rw z (from_be-strip bytes ∙ ap (λ (n : ℕ). from_be_acc n bytes) (start b (==→eq b 0 z)))
  | inr nz ↦ rw nz refl
]

length-strip : (bytes : Bytes) → length (strip_leading_zeros bytes) ≤ length bytes
unfolding strip_leading_zeros
length-strip [] = omega arith
length-strip (b ∷ bytes) = ground (arith, length-strip bytes)

strip-IsByte : (bytes : Bytes) → All IsByte bytes → All IsByte (strip_leading_zeros bytes)
unfolding strip_leading_zeros
strip-IsByte [] h = tt
strip-IsByte (b ∷ bytes) (hb, h) = elim (Bool-cases (b == 0)) [
  | inl z ↦ rw z (strip-IsByte bytes h)
  | inr nz ↦ rw nz (hb, h)
]

-- The code of a number is that of its stripped bytes: of none for zero.
number_code :
    (bytes : Bytes) → rlp_encode_number bytes ≡ rlp_encode_bytes (strip_leading_zeros bytes)
unfolding rlp_encode_number
number_code bytes = by_length (strip_leading_zeros bytes)
  where
    by_length :
        (stripped : Bytes)
        → (if length stripped == 0 then 0x80 ∷ [] else rlp_encode_bytes stripped)
          ≡ rlp_encode_bytes stripped
    by_length [] = refl
    by_length (b ∷ stripped) = ground arith

-- The number at the front of a code is read back, with what follows it.
pub rlp_encode_number_inj :
    (n m : ℕ) (xs ys : Bytes)
    → n < 2 ^ 64
    → m < 2 ^ 64
    → rlp_encode_number (be_bytes 8 n) ++ xs ≡ rlp_encode_number (be_bytes 8 m) ++ ys
    → (n ≡ m) × (xs ≡ ys)
rlp_encode_number_inj n m xs ys hn hm e =
    let s = λ (k : ℕ). strip_leading_zeros (be_bytes 8 k) in
    let short = λ (k : ℕ).
      omega_short (strip_leading_zeros (be_bytes 8 k)) (be_bytes 8 k) (length-strip (be_bytes 8 k))
        (length-be_bytes 8 k) in
    let (same, rest) =
      rlp_encode_bytes_inj (s n) (s m) xs ys (short n) (short m)
        (strip-IsByte (be_bytes 8 n) (be_bytes-IsByte 8 n))
        (strip-IsByte (be_bytes 8 m) (be_bytes-IsByte 8 m))
        (ap (λ l. l ++ xs) (sym (number_code (be_bytes 8 n)))
          ∙ e
          ∙ ap (λ l. l ++ ys) (number_code (be_bytes 8 m))) in
    (
      sym (from_be-be_bytes 8 n hn)
          ∙ sym (from_be-strip (be_bytes 8 n))
          ∙ ap from_be_bytes same
          ∙ from_be-strip (be_bytes 8 m)
          ∙ from_be-be_bytes 8 m hm,
      rest,
    )
  where
    omega_short : (a b : Bytes) → length a ≤ length b → length b ≡ 8 → length a < 56
    omega_short a b le e = omega arith

length-trim : (b : ℕ) (bytes : Bytes) → 0 < length (trim (b ∷ bytes))
unfolding trim
length-trim b [] = omega arith
length-trim b (c ∷ bytes) = ground (arith, length-trim c bytes)

trimmed_pos : (n : ℕ) → 0 < length (be_bytes_trimmed n)
unfolding be_bytes_trimmed
trimmed_pos n = nonempty (be_bytes 8 n) (length-be_bytes 8 n)
  where
    nonempty : (bytes : Bytes) → length bytes ≡ 8 → 0 < length (trim bytes)
    nonempty [] e = absurd (omega arith)
    nonempty (b ∷ bytes) e = length-trim b bytes

-- The first bytes of a short and of a long list header differ.
cross : (n k : ℕ) → ltb n 56 ≡ true → 0 < k → 0xc0 + n ≡ 0xf7 + k → ⊥
cross n k sn pos e = omega (arith, ltb→lt n 56 sn)

-- What follows a list header is read back.
pub rlp_encode_list_header_inj :
    (n m : ℕ) (xs ys : Bytes)
    → rlp_encode_list_header n ++ xs ≡ rlp_encode_list_header m ++ ys
    → xs ≡ ys
unfolding rlp_encode_list_header
rlp_encode_list_header_inj n m xs ys e = elim (Bool-cases (ltb n 56)) [
  | inl sn ↦ elim (Bool-cases (ltb m 56)) [
    | inl sm ↦ let p : (0xc0 + n) ∷ xs ≡ (0xc0 + m) ∷ ys = rw (sn, sm) at e in tail_eq p
    | inr bm ↦
        let p : (0xc0 + n) ∷ xs
            ≡ (0xf7 + length (be_bytes_trimmed m)) ∷ (be_bytes_trimmed m ++ ys) =
          rw (sn, bm) at e in
        absurd (cross n (length (be_bytes_trimmed m)) sn (trimmed_pos m) (head_eq p))
  ]
  | inr bn ↦ elim (Bool-cases (ltb m 56)) [
    | inl sm ↦
        let p : (0xf7 + length (be_bytes_trimmed n)) ∷ (be_bytes_trimmed n ++ xs)
            ≡ (0xc0 + m) ∷ ys =
          rw (bn, sm) at e in
        absurd (cross m (length (be_bytes_trimmed n)) sm (trimmed_pos n) (sym (head_eq p)))
    | inr bm ↦
        let p : (0xf7 + length (be_bytes_trimmed n)) ∷ (be_bytes_trimmed n ++ xs)
            ≡ (0xf7 + length (be_bytes_trimmed m)) ∷ (be_bytes_trimmed m ++ ys) =
          rw (bn, bm) at e in
        (append_inj (be_bytes_trimmed n) (be_bytes_trimmed m) xs ys (omega (arith, head_eq p))
          (tail_eq p)).1
  ]
]
