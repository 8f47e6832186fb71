-- ===== src/Merkle/Update/Order.antt =====
-- Lists of indices in strictly ascending order.
use zksync_os_zisk.Prelude.{
  ℕ, zero, suc, ◌≤◌, ◌<◌, ◌≡◌, ◌≢◌, refl, ap, List, [], ◌∷◌, ◌++◌, some, get_elem?, set, All, arith,
}

-- Strictly ascending, from `lo` on.
abbrev pub Above : ℕ → List ℕ → Type 0
Above lo [] = Unit
Above lo (i ∷ is) = (lo ≤ i) × Above (suc i) is

abbrev pub Absent : ℕ → List ℕ → Type 0
Absent i is = All (λ j. i ≢ j) is

pub Above-le : {lo lo' : ℕ} (is : List ℕ) → lo' ≤ lo → Above lo is → Above lo' is
Above-le [] h a = tt
Above-le (i ∷ is) h (p, a) = (omega arith, a)

pub Above-Absent : {lo : ℕ} (j : ℕ) (is : List ℕ) → j < lo → Above lo is → Absent j is
Above-Absent j [] h a = tt
Above-Absent j (i ∷ is) h (p, a) = (omega arith, Above-Absent j is (omega arith) a)

pub Above-get : {lo : ℕ} (is : List ℕ) (p i : ℕ) → Above lo is → get_elem? is p ≡ some i → lo ≤ i
Above-get [] p i a h = cc
Above-get (x ∷ is) zero i (q, a) h = ground arith
Above-get (x ∷ is) (suc p) i (q, a) h = omega (arith, Above-get is p i a h)

-- An index stands at one position.
pub Above-position :
    (lo : ℕ) (is : List ℕ) (p q i : ℕ)
    → Above lo is
    → get_elem? is p ≡ some i
    → get_elem? is q ≡ some i
    → p ≡ q
Above-position lo [] p q i a hp hq = cc
Above-position lo (x ∷ is) zero zero i (l, a) hp hq = refl
Above-position lo (x ∷ is) zero (suc q) i (l, a) hp hq =
    absurd (ground (arith, Above-get is q i a hq))
Above-position lo (x ∷ is) (suc p) zero i (l, a) hp hq =
    absurd (ground (arith, Above-get is p i a hp))
Above-position lo (x ∷ is) (suc p) (suc q) i (l, a) hp hq =
    ap suc (Above-position (suc x) is p q i a hp hq)

pub Above-append :
    {lo : ℕ} (is : List ℕ) (n : ℕ)
    → lo ≤ n
    → Above lo is
    → All (λ i. i < n) is
    → Above lo (is ++ n ∷ [])
Above-append [] n h a b = (h, tt)
Above-append (i ∷ is) n h (p, a) (q, b) = (p, Above-append is n q a b)

module _ {ℓ} {A : Type ℓ} where
  pub All-append : (P : A → Type ℓ) (xs ys : List A) → All P xs → All P ys → All P (xs ++ ys)
  All-append P [] ys p q = q
  All-append P (x ∷ xs) ys (p, ps) q = (p, All-append P xs ys ps q)

  pub All-append_left : (P : A → Type ℓ) (xs ys : List A) → All P (xs ++ ys) → All P xs
  All-append_left P [] ys p = tt
  All-append_left P (x ∷ xs) ys (p, ps) = (p, All-append_left P xs ys ps)

  pub All-append_right : (P : A → Type ℓ) (xs ys : List A) → All P (xs ++ ys) → All P ys
  All-append_right P [] ys p = p
  All-append_right P (x ∷ xs) ys (p, ps) = All-append_right P xs ys ps

  pub All-map : (P Q : A → Type ℓ) (xs : List A) → ((x : A) → P x → Q x) → All P xs → All Q xs
  All-map P Q [] f h = tt
  All-map P Q (x ∷ xs) f (p, ps) = (f x p, All-map P Q xs f ps)

  -- The indices of a list of indexed items.
  abbrev pub indices : List (ℕ × A) → List ℕ
  indices [] = []
  indices ((i, x) ∷ xs) = i ∷ indices xs

  pub get_elem?-indices :
      (xs : List (ℕ × A)) (p i : ℕ) (x : A)
      → get_elem? xs p ≡ some (i, x)
      → get_elem? (indices xs) p ≡ some i
  get_elem?-indices [] p i x h = cc
  get_elem?-indices ((j, y) ∷ xs) zero i x h = ground arith
  get_elem?-indices ((j, y) ∷ xs) (suc p) i x h = get_elem?-indices xs p i x h

  pub indices-set :
      (xs : List (ℕ × A)) (p i : ℕ) (x y : A)
      → get_elem? xs p ≡ some (i, x)
      → indices (set xs p (i, y)) ≡ indices xs
  indices-set [] p i x y h = cc
  indices-set ((j, z) ∷ xs) zero i x y h = ap (λ k. k ∷ indices xs) (ground arith)
  indices-set ((j, z) ∷ xs) (suc p) i x y h = ap (λ l. j ∷ l) (indices-set xs p i x y h)

  pub indices-append :
      (xs : List (ℕ × A)) (i : ℕ) (x : A) → indices (xs ++ (i, x) ∷ []) ≡ indices xs ++ i ∷ []
  indices-append [] i x = refl
  indices-append ((j, y) ∷ xs) i x = ap (λ l. j ∷ l) (indices-append xs i x)
