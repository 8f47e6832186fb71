-- ===== src/Crypto/Blake2s/Software.antt =====
-- `software::blake2sf` of lib/src/crypto/blake2s.rs: the ten rounds on u32 words, and what the
-- precompile computes. A u32 sum has the modulus written out.
use Prim.Native.Nat.{bit_xor}
use zksync_os_zisk.Prelude.{ℕ, ◌+◌, ◌-◌, ◌*◌, ◌/◌, ◌%◌, ◌^◌, List, [], ◌∷◌, get_or, set}
use zksync_os_zisk.Crypto.Blake2s.{Slots, slot, Blake2sf}

abbrev pub sigma : List (List ℕ)
sigma =
    (0 ∷ 1 ∷ 2 ∷ 3 ∷ 4 ∷ 5 ∷ 6 ∷ 7 ∷ 8 ∷ 9 ∷ 10 ∷ 11 ∷ 12 ∷ 13 ∷ 14 ∷ 15 ∷ [])
    ∷ (14 ∷ 10 ∷ 4 ∷ 8 ∷ 9 ∷ 15 ∷ 13 ∷ 6 ∷ 1 ∷ 12 ∷ 0 ∷ 2 ∷ 11 ∷ 7 ∷ 5 ∷ 3 ∷ [])
    ∷ (11 ∷ 8 ∷ 12 ∷ 0 ∷ 5 ∷ 2 ∷ 15 ∷ 13 ∷ 10 ∷ 14 ∷ 3 ∷ 6 ∷ 7 ∷ 1 ∷ 9 ∷ 4 ∷ [])
    ∷ (7 ∷ 9 ∷ 3 ∷ 1 ∷ 13 ∷ 12 ∷ 11 ∷ 14 ∷ 2 ∷ 6 ∷ 5 ∷ 10 ∷ 4 ∷ 0 ∷ 15 ∷ 8 ∷ [])
    ∷ (9 ∷ 0 ∷ 5 ∷ 7 ∷ 2 ∷ 4 ∷ 10 ∷ 15 ∷ 14 ∷ 1 ∷ 11 ∷ 12 ∷ 6 ∷ 8 ∷ 3 ∷ 13 ∷ [])
    ∷ (2 ∷ 12 ∷ 6 ∷ 10 ∷ 0 ∷ 11 ∷ 8 ∷ 3 ∷ 4 ∷ 13 ∷ 7 ∷ 5 ∷ 15 ∷ 14 ∷ 1 ∷ 9 ∷ [])
    ∷ (12 ∷ 5 ∷ 1 ∷ 15 ∷ 14 ∷ 13 ∷ 4 ∷ 10 ∷ 0 ∷ 7 ∷ 6 ∷ 3 ∷ 9 ∷ 2 ∷ 8 ∷ 11 ∷ [])
    ∷ (13 ∷ 11 ∷ 7 ∷ 14 ∷ 12 ∷ 1 ∷ 3 ∷ 9 ∷ 5 ∷ 0 ∷ 15 ∷ 4 ∷ 8 ∷ 6 ∷ 2 ∷ 10 ∷ [])
    ∷ (6 ∷ 15 ∷ 14 ∷ 9 ∷ 11 ∷ 3 ∷ 0 ∷ 8 ∷ 12 ∷ 2 ∷ 13 ∷ 7 ∷ 1 ∷ 4 ∷ 10 ∷ 5 ∷ [])
    ∷ (10 ∷ 2 ∷ 8 ∷ 4 ∷ 7 ∷ 6 ∷ 1 ∷ 5 ∷ 15 ∷ 11 ∷ 9 ∷ 14 ∷ 3 ∷ 12 ∷ 13 ∷ 0 ∷ [])
    ∷ []

-- `u32::rotate_right`
unfoldable pub rotate_right : ℕ → ℕ → ℕ
rotate_right x n = x / 2 ^ n + x % 2 ^ n * 2 ^ (32 - n)

abbrev pub at : List ℕ → ℕ → ℕ
at v i = get_or v i 0

-- `v[a] = v[a].wrapping_add(v[b]).wrapping_add(x)`
unfoldable pub add : List ℕ → ℕ → ℕ → ℕ → List ℕ
add v a b x = set v a ((at v a + at v b + x) % 2 ^ 32)

-- `v[d] = (v[d] ^ v[a]).rotate_right(n)`
unfoldable pub mix : List ℕ → ℕ → ℕ → ℕ → List ℕ
unfolding rotate_right
mix v d a n = set v d (rotate_right (bit_xor (at v d) (at v a)) n)

unfoldable pub g : List ℕ → ℕ → ℕ → ℕ → ℕ → ℕ → ℕ → List ℕ
unfolding add mix
g v a b c d x y =
    let v = add v a b x in
    let v = mix v d a 16 in
    let v = add v c d 0 in
    let v = mix v b c 12 in
    let v = add v a b y in let v = mix v d a 8 in let v = add v c d 0 in mix v b c 7

unfoldable pub words : Slots → List ℕ
words [] = []
words (s ∷ slots) = (s % 2 ^ 32) ∷ (s / 2 ^ 32) % 2 ^ 32 ∷ words slots

unfoldable pub round : List ℕ → List ℕ → List ℕ → List ℕ
unfolding g
round m s w =
    let w = g w 0 4 8 12 (at m (at s 0)) (at m (at s 1)) in
    let w = g w 1 5 9 13 (at m (at s 2)) (at m (at s 3)) in
    let w = g w 2 6 10 14 (at m (at s 4)) (at m (at s 5)) in
    let w = g w 3 7 11 15 (at m (at s 6)) (at m (at s 7)) in
    let w = g w 0 5 10 15 (at m (at s 8)) (at m (at s 9)) in
    let w = g w 1 6 11 12 (at m (at s 10)) (at m (at s 11)) in
    let w = g w 2 7 8 13 (at m (at s 12)) (at m (at s 13)) in
    g w 3 4 9 14 (at m (at s 14)) (at m (at s 15))

unfoldable pub rounds : List ℕ → List (List ℕ) → List ℕ → List ℕ
unfolding round
rounds m [] w = w
rounds m (s ∷ rest) w = rounds m rest (round m s w)

unfoldable pub slots_of_words : List ℕ → Slots
unfolding slot
slots_of_words [] = []
slots_of_words (lo ∷ []) = []
slots_of_words (lo ∷ hi ∷ w) = slot lo hi ∷ slots_of_words w

unfoldable pub software_blake2sf : Slots → Slots → Slots
unfolding words rounds slots_of_words
software_blake2sf v m = slots_of_words (rounds (words m) sigma (words v))

instance unfoldable pub software : Blake2sf
unfolding software_blake2sf
software = record { blake2sf = software_blake2sf }
