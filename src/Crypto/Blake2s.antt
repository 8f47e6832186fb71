-- ===== src/Crypto/Blake2s.antt =====
-- lib/src/crypto/blake2s.rs: Blake2s-256 over the `blake2sf` permutation, which is a precompile on the
-- target and a parameter here. Arrays of bytes and of u64 slots are lists. Of the two paths of
-- `slots_of` and `write_bytes` this is the byte-wise one, taken at any alignment off the target.
pub mod Software
pub mod Stream
pub mod Digest
pub mod Fills
use Prim.Native.Nat.{bit_xor, bit_or}
use zksync_os_zisk.Prelude.{
  ℕ, zero, suc, ◌+◌, ◌-◌, ◌*◌, ◌%◌, ◌^◌, Bool, true, false, Option, none, some, List, [], ◌∷◌, ◌++◌,
  ◌==◌, leb, if◌then◌else◌, length, get_or, take, drop, replicate,
}
use zksync_os_zisk.Prelude.Bytes.{le_bytes, from_le_bytes}
use zksync_os_zisk.Types.{Bytes}

abbrev pub Slots : Type 0
Slots = List ℕ

abbrev pub iv : List ℕ
iv =
    0x6A09E667 ∷ 0xBB67AE85 ∷ 0x3C6EF372 ∷ 0xA54FF53A ∷ 0x510E527F ∷ 0x9B05688C ∷ 0x1F83D9AB
    ∷ 0x5BE0CD19 ∷ []

abbrev pub param_block_word0 : ℕ
param_block_word0 = 0x01010020

abbrev pub block_bytes : ℕ
block_bytes = 64

abbrev pub digest_bytes : ℕ
digest_bytes = 32

abbrev pub block_slots : ℕ
block_slots = 8

abbrev pub digest_slots : ℕ
digest_slots = 4

-- Two u32 words as one slot.
unfoldable pub slot : ℕ → ℕ → ℕ
slot lo hi = bit_or lo (hi * 2 ^ 32)

unfoldable pub iv_slots : Slots
unfolding slot
iv_slots =
    slot (get_or iv 0 0) (get_or iv 1 0)
    ∷ slot (get_or iv 2 0) (get_or iv 3 0)
    ∷ slot (get_or iv 4 0) (get_or iv 5 0)
    ∷ slot (get_or iv 6 0) (get_or iv 7 0)
    ∷ []

unfoldable pub initial_state : Slots
unfolding iv_slots
initial_state =
    bit_xor (get_or iv_slots 0 0) param_block_word0
    ∷ get_or iv_slots 1 0
    ∷ get_or iv_slots 2 0
    ∷ get_or iv_slots 3 0
    ∷ []

abbrev pub last_block_mask : ℕ
last_block_mask = 0xFFFFFFFF

-- The first `n` slots of a byte string, eight little-endian bytes each.
unfoldable pub read_slots : ℕ → Bytes → Slots
read_slots zero bytes = []
read_slots (suc n) bytes = from_le_bytes (take 8 bytes) ∷ read_slots n (drop 8 bytes)

unfoldable pub slots_of : Bytes → Slots
unfolding read_slots
slots_of bytes = read_slots digest_slots bytes

-- `Block::slots`
unfoldable pub block_slots_of : Bytes → Slots
unfolding read_slots
block_slots_of block = read_slots block_slots block

unfoldable pub bytes_of : Slots → Bytes
bytes_of [] = []
bytes_of (s ∷ slots) = le_bytes 8 s ++ bytes_of slots

pub record Blake2sf : Type 0 where
  pub blake2sf : Slots → Slots → Slots

-- The streaming hasher `Blake2s256`.
pub record Hasher : Type 0 where
  pub h : Slots
  pub buf : Bytes
  pub buf_len : ℕ
  pub t : ℕ

abbrev pub min : ℕ → ℕ → ℕ
min a b = if leb a b then a else b

-- `h[i] ^= v[i] ^ v[i + DIGEST_SLOTS]`, for as many `i` as `h` has slots.
unfoldable pub feed_forward : Slots → Slots → Slots → Slots
feed_forward [] lo hi = []
feed_forward (x ∷ h) lo hi =
    bit_xor x (bit_xor (get_or lo 0 0) (get_or hi 0 0)) ∷ feed_forward h (drop 1 lo) (drop 1 hi)

module _ ⦃P : Blake2sf⦄ where
  unfoldable pub compress : Slots → Slots → ℕ → Bool → Slots
  unfolding iv_slots feed_forward
  compress h m t last =
      let v =
        get_or h 0 0
        ∷ get_or h 1 0
        ∷ get_or h 2 0
        ∷ get_or h 3 0
        ∷ get_or iv_slots 0 0
        ∷ get_or iv_slots 1 0
        ∷ bit_xor (get_or iv_slots 2 0) t
        ∷ bit_xor (get_or iv_slots 3 0) (if last then last_block_mask else 0)
        ∷ [] in
      let v' = P.blake2sf v m in feed_forward h v' (drop digest_slots v')

  unfoldable pub node_hash : Bytes → Bytes → Bytes
  unfolding slots_of bytes_of compress initial_state
  node_hash lhs rhs =
      bytes_of (compress initial_state (slots_of lhs ++ slots_of rhs) block_bytes true)

  unfoldable pub new : Hasher
  unfolding initial_state
  new = record { h = initial_state; buf = replicate block_bytes 0; buf_len = 0; t = 0 }

  -- A full buffer is compressed once more input follows.
  unfoldable pub flush : Hasher → Hasher
  unfolding block_slots_of compress
  flush s =
      let t' = (s.t + block_bytes) % 2 ^ 64 in
      if s.buf_len == block_bytes
      then record s { h = compress s.h (block_slots_of s.buf) t' false; buf_len = 0; t = t' }
      else s

  -- `buf[buf_len..buf_len + take].copy_from_slice(chunk)`
  unfoldable pub fill : Hasher → Bytes → Hasher
  fill s chunk = record s {
    buf = take s.buf_len s.buf ++ (chunk ++ drop (s.buf_len + length chunk) s.buf);
    buf_len = s.buf_len + length chunk;
  }

  -- How much of the input the buffer takes in one round.
  abbrev pub room : Hasher → Bytes → ℕ
  room s input = min (block_bytes - s.buf_len) (length input)

  -- The loop of `update`, with as many rounds at most as the fuel says; `none` if they are used up.
  unfoldable pub update_loop : ℕ → Hasher → Bytes → Option Hasher
  unfolding flush fill
  update_loop fuel s [] = some s
  update_loop zero s (b ∷ input) = none
  update_loop (suc fuel) s (b ∷ input) =
      let s' = flush s in
      let n = room s' (b ∷ input) in
      update_loop fuel (fill s' (take n (b ∷ input))) (drop n (b ∷ input))

  unfoldable pub update : Hasher → Bytes → Option Hasher
  unfolding update_loop
  update s input = update_loop (length input) s input

  unfoldable pub finalize : Hasher → Bytes
  unfolding block_slots_of compress bytes_of
  finalize s = bytes_of (
      compress s.h (block_slots_of (take s.buf_len s.buf ++ replicate (block_bytes - s.buf_len) 0))
        ((s.t + s.buf_len) % 2 ^ 64) true)

  -- `update` on each of the inputs in turn.
  unfoldable pub updates : Hasher → List Bytes → Option Hasher
  unfolding update
  updates s [] = some s
  updates s (part ∷ parts) = elim (update s part) [ none ↦ none | some s' ↦ updates s' parts ]

  unfoldable pub hash_parts : List Bytes → Option Bytes
  unfolding updates finalize new
  hash_parts parts = elim (updates new parts) [ none ↦ none | some s ↦ some (finalize s) ]

  unfoldable pub digest : Bytes → Option Bytes
  unfolding hash_parts
  digest input = hash_parts (input ∷ [])
