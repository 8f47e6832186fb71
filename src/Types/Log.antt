-- ===== src/Types/Log.antt =====
-- The encoding of an L2 to L1 log (lib/src/types.rs): its length, and that it determines the log.
use zksync_os_zisk.Prelude.{
  ◌^◌, ◌<◌, ◌≡◌, refl, ap, Bool, true, false, ◌++◌, length, length-append, get_or, drop, arith,
}
use zksync_os_zisk.Prelude.Bytes.{be_bytes, be_bytes_inj, be_bytes_eq, length-be_bytes}
use zksync_os_zisk.Merkle.Hash.{IsB256}
use zksync_os_zisk.Types.{L2ToL1LogEntry, bool_byte, encode}

-- The ranges of the source's types.
pub record IsL2ToL1LogEntry (log : L2ToL1LogEntry) : Type 0 where
  pub shard_fits : log.l2_shard_id < 2 ^ 8
  pub number_fits : log.tx_number_in_block < 2 ^ 16
  pub sender_fits : log.sender < 2 ^ 160
  pub key_fits : IsB256 log.key
  pub value_fits : IsB256 log.value

-- The encoding of a log has 88 bytes.
length-encode : (log : L2ToL1LogEntry) → length (encode log) ≡ 88
unfolding encode
length-encode log = omega (
  arith,
  length-append (be_bytes 2 log.tx_number_in_block)
      (be_bytes 20 log.sender ++ (be_bytes 32 log.key ++ be_bytes 32 log.value)),
  length-append (be_bytes 20 log.sender) (be_bytes 32 log.key ++ be_bytes 32 log.value),
  length-append (be_bytes 32 log.key) (be_bytes 32 log.value),
  length-be_bytes 2 log.tx_number_in_block,
  length-be_bytes 20 log.sender,
  length-be_bytes 32 log.key,
  length-be_bytes 32 log.value,
)

pub bool_byte_inj : (x y : Bool) → bool_byte x ≡ bool_byte y → x ≡ y
bool_byte_inj true true e = refl
bool_byte_inj true false e = absurd (omega arith)
bool_byte_inj false true e = absurd (omega arith)
bool_byte_inj false false e = refl

-- Logs with fields in the range of their types and one encoding are equal.
pub encode_inj :
    (a b : L2ToL1LogEntry) → IsL2ToL1LogEntry a → IsL2ToL1LogEntry b → encode a ≡ encode b → a ≡ b
unfolding encode
encode_inj a b ha hb e =
    let es : a.l2_shard_id ≡ b.l2_shard_id = ap (λ l. get_or l 0 0) e in
    let ev : a.is_service ≡ b.is_service =
      bool_byte_inj a.is_service b.is_service (ap (λ l. get_or l 1 0) e) in
    let (en, e₁) =
      be_bytes_inj 2 a.tx_number_in_block b.tx_number_in_block _ _ ha.number_fits hb.number_fits
        (ap (drop 2) e) in
    let (ed, e₂) = be_bytes_inj 20 a.sender b.sender _ _ ha.sender_fits hb.sender_fits e₁ in
    let (ek, e₃) = be_bytes_inj 32 a.key b.key _ _ ha.key_fits hb.key_fits e₂ in
    let el : a.value ≡ b.value = be_bytes_eq 32 a.value b.value ha.value_fits hb.value_fits e₃ in
    λ i. record {
      l2_shard_id = es i;
      is_service = ev i;
      tx_number_in_block = en i;
      sender = ed i;
      key = ek i;
      value = el i;
    }
