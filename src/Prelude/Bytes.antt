-- ===== src/Prelude/Bytes.antt =====
-- Fixed-width words as bytes: `to_be_bytes`, `to_le_bytes` and `from_be_bytes` of the source.
use Prim.Native.Nat.{ℕ, zero, suc, ◌+◌, ◌*◌, ◌/◌, ◌%◌, ◌^◌, ◌<◌, ◌-◌}
use mathlib.Core.Path.{◌≡◌, refl, ap, sym, ◌∙◌}
use mathlib.Core.List.{List, [], ◌∷◌, ◌++◌, append_assoc}
use native.Mathlib.Omega.{arith}
use native.Mathlib.Nat.{pow-suc}
use zksync_os_zisk.Prelude.Lists.{length, All}

abbrev pub IsByte : ℕ → Type 0
IsByte b = b < 256

-- `k` bytes of `n`, the most significant first, in front of `rest`.
be_onto : ℕ → ℕ → List ℕ → List ℕ
be_onto zero n rest = rest
be_onto (suc k) n rest = be_onto k (n / 256) ((n % 256) ∷ rest)

unfoldable pub be_bytes : ℕ → ℕ → List ℕ
unfolding be_onto
be_bytes k n = be_onto k n []

-- `k` bytes of `n`, the least significant first.
unfoldable pub le_bytes : ℕ → ℕ → List ℕ
le_bytes zero n = []
le_bytes (suc k) n = (n % 256) ∷ le_bytes k (n / 256)

-- The number whose big-endian digits follow those of `acc`.
unfoldable pub from_be_acc : ℕ → List ℕ → ℕ
from_be_acc acc [] = acc
from_be_acc acc (b ∷ bs) = from_be_acc (acc * 256 + b) bs

abbrev pub from_be_bytes : List ℕ → ℕ
from_be_bytes bs = from_be_acc 0 bs

unfoldable pub from_le_bytes : List ℕ → ℕ
from_le_bytes [] = 0
from_le_bytes (b ∷ bs) = b + 256 * from_le_bytes bs

be_onto-append : (k n : ℕ) (rest : List ℕ) → be_onto k n rest ≡ be_onto k n [] ++ rest
unfolding be_onto
be_onto-append zero n rest = refl
be_onto-append (suc k) n rest =
    be_onto-append k (n / 256) ((n % 256) ∷ rest)
    ∙ sym (append_assoc (be_onto k (n / 256) []) ((n % 256) ∷ []) rest)
    ∙ ap (λ l. l ++ rest) (sym (be_onto-append k (n / 256) ((n % 256) ∷ [])))

be_onto_inj :
    (k n m : ℕ) (xs ys : List ℕ)
    → n < 256 ^ k
    → m < 256 ^ k
    → be_onto k n xs ≡ be_onto k m ys
    → (n ≡ m) × (xs ≡ ys)
unfolding be_onto
be_onto_inj zero n m xs ys hn hm e = (omega arith, e)
be_onto_inj (suc k) n m xs ys hn hm e =
    let ih =
      be_onto_inj k (n / 256) (m / 256) ((n % 256) ∷ xs) ((m % 256) ∷ ys)
        (omega (arith, pow-suc 256 k)) (omega (arith, pow-suc 256 k)) e in
    (ground (arith, ih), ground (arith, ih))

-- A big-endian word at the front of a byte string is read back, with what follows it.
pub be_bytes_inj :
    (k n m : ℕ) (xs ys : List ℕ)
    → n < 256 ^ k
    → m < 256 ^ k
    → be_bytes k n ++ xs ≡ be_bytes k m ++ ys
    → (n ≡ m) × (xs ≡ ys)
unfolding be_bytes
be_bytes_inj k n m xs ys hn hm e =
    be_onto_inj k n m xs ys hn hm (be_onto-append k n xs ∙ e ∙ sym (be_onto-append k m ys))

pub le_bytes_inj :
    (k n m : ℕ) (xs ys : List ℕ)
    → n < 256 ^ k
    → m < 256 ^ k
    → le_bytes k n ++ xs ≡ le_bytes k m ++ ys
    → (n ≡ m) × (xs ≡ ys)
unfolding le_bytes
le_bytes_inj zero n m xs ys hn hm e = (omega arith, e)
le_bytes_inj (suc k) n m xs ys hn hm e =
    let heads : (n % 256 ≡ m % 256) = ground arith in
    let ih =
      le_bytes_inj k (n / 256) (m / 256) xs ys (omega (arith, pow-suc 256 k))
        (omega (arith, pow-suc 256 k)) (ground arith) in
    (omega (arith, ih), ih.1)

length-be_onto : (k n : ℕ) (xs : List ℕ) → length (be_onto k n xs) ≡ k + length xs
unfolding be_onto
length-be_onto zero n xs = omega arith
length-be_onto (suc k) n xs = omega (arith, length-be_onto k (n / 256) ((n % 256) ∷ xs))

pub length-be_bytes : (k n : ℕ) → length (be_bytes k n) ≡ k
unfolding be_bytes
length-be_bytes k n = omega (arith, length-be_onto k n [])

pub length-le_bytes : (k n : ℕ) → length (le_bytes k n) ≡ k
unfolding le_bytes
length-le_bytes zero n = refl
length-le_bytes (suc k) n = ap suc (length-le_bytes k (n / 256))

be_onto-IsByte : (k n : ℕ) (xs : List ℕ) → All IsByte xs → All IsByte (be_onto k n xs)
unfolding be_onto
be_onto-IsByte zero n xs h = h
be_onto-IsByte (suc k) n xs h = be_onto-IsByte k (n / 256) ((n % 256) ∷ xs) (omega arith, h)

pub be_bytes-IsByte : (k n : ℕ) → All IsByte (be_bytes k n)
unfolding be_bytes
be_bytes-IsByte k n = be_onto-IsByte k n [] tt

-- Reading back a big-endian word gives the number.
from_be-be_onto :
    (k n acc : ℕ) (xs : List ℕ)
    → n < 256 ^ k
    → from_be_acc acc (be_onto k n xs) ≡ from_be_acc (acc * 256 ^ k + n) xs
unfolding be_onto from_be_acc
from_be-be_onto zero n acc xs h = ap (λ a. from_be_acc a xs) (omega arith)
from_be-be_onto (suc k) n acc xs h =
    from_be-be_onto k (n / 256) acc ((n % 256) ∷ xs) (omega (arith, pow-suc 256 k))
    ∙ ap (λ a. from_be_acc a xs) (omega (arith, ap (λ (t : ℕ). acc * t) (pow-suc 256 k)))

pub from_be-be_bytes : (k n : ℕ) → n < 256 ^ k → from_be_bytes (be_bytes k n) ≡ n
unfolding be_bytes
from_be-be_bytes k n h = from_be-be_onto k n 0 [] h ∙ (unfold from_be_acc in omega arith)

-- The same for a word on its own.
pub be_bytes_eq : (k n m : ℕ) → n < 256 ^ k → m < 256 ^ k → be_bytes k n ≡ be_bytes k m → n ≡ m
be_bytes_eq k n m hn hm e = (be_bytes_inj k n m [] [] hn hm (ap (λ l. l ++ []) e)).0

pub le_bytes_eq : (k n m : ℕ) → n < 256 ^ k → m < 256 ^ k → le_bytes k n ≡ le_bytes k m → n ≡ m
le_bytes_eq k n m hn hm e = (le_bytes_inj k n m [] [] hn hm (ap (λ l. l ++ []) e)).0

pub le_bytes-IsByte : (k n : ℕ) → All IsByte (le_bytes k n)
unfolding le_bytes
le_bytes-IsByte zero n = tt
le_bytes-IsByte (suc k) n = (omega arith, le_bytes-IsByte k (n / 256))

from_be_acc-lt :
    (acc : ℕ) (bs : List ℕ) → All IsByte bs → from_be_acc acc bs < (acc + 1) * 256 ^ length bs
unfolding from_be_acc
from_be_acc-lt acc [] h = omega arith
from_be_acc-lt acc (b ∷ bs) (hb, h) =
    rw (pow-suc 256 (length bs))
      (widen acc b (255 - b) (256 ^ length bs) (omega arith) (from_be_acc-lt (acc * 256 + b) bs h))
  where
    widen :
        (acc b k p : ℕ) {n : ℕ}
        → b + k ≡ 255
        → n < (acc * 256 + b + 1) * p
        → n < (acc + 1) * (p * 256)
    widen acc b k p e lt = omega (arith, ap (λ (t : ℕ). t * p) e)

-- A byte string stands for a number of its width.
pub from_be_bytes-lt : (bs : List ℕ) → All IsByte bs → from_be_bytes bs < 256 ^ length bs
from_be_bytes-lt bs h = omega (arith, from_be_acc-lt 0 bs h)

-- Reading back a little-endian word gives the number.
pub from_le-le_bytes : (k n : ℕ) → n < 256 ^ k → from_le_bytes (le_bytes k n) ≡ n
unfolding from_le_bytes le_bytes
from_le-le_bytes zero n h = omega arith
from_le-le_bytes (suc k) n h =
    omega (arith, from_le-le_bytes k (n / 256) (omega (arith, pow-suc 256 k)))
