-- ===== src/Wire/RoundTrip.antt =====
-- master/src/router.c: an envelope that is copied into a message is copied out of it as it was.
use void_os_merger.Base.{
  true, ℕ, zero, suc, ◌+◌, ◌*◌, ◌/◌, ◌^◌, ◌<◌, ◌≡◌, refl, ◌++◌, arith, length, drop, Bytes,
}
use void_os_merger.Wire.{
  int_length, holds_envelope, Envelope, bytes_of, number_of, encode, decode, envelope_size,
}

-- The first number that so many bytes do not hold.
bound : ℕ → ℕ
bound zero = 1
bound (suc width) = 256 * bound width

number_of-bytes_of : (width n : ℕ) → n < bound width → number_of (bytes_of width n) ≡ n
unfolding bound bytes_of number_of
number_of-bytes_of zero n h = omega arith
number_of-bytes_of (suc width) n h =
    omega (arith, number_of-bytes_of width (n / 256) (omega (arith, h)))

pub record IsEnvelope (e : Envelope) : Type 0 where
  pub protocol_version : e.protocol_version < 2 ^ 16
  pub message_code : e.message_code < 2 ^ 16
  pub payload_length : e.payload_length < 2 ^ 32
  pub sequence_id : e.sequence_id < 2 ^ 64
  pub timestamp_ms : e.timestamp_ms < 2 ^ 64

pub length-encode : (e : Envelope) (s : Bytes) → length (encode e ++ s) ≡ envelope_size + length s
unfolding encode bytes_of
length-encode e s = omega arith

pub drop-encode : (e : Envelope) (s : Bytes) → drop envelope_size (encode e ++ s) ≡ s
unfolding encode bytes_of
drop-encode e s = refl

-- An envelope whose numbers fit in their fields is read back from the start of a message as it was written,
-- whatever follows it.
pub decode-encode : (e : Envelope) (s : Bytes) → IsEnvelope e → decode (encode e ++ s) ≡ e
unfolding decode encode bytes_of bound
decode-encode e s h = λ i. record {
  protocol_version = number_of-bytes_of 2 e.protocol_version (omega (arith, h.protocol_version)) i;
  message_code = number_of-bytes_of 2 e.message_code (omega (arith, h.message_code)) i;
  payload_length = number_of-bytes_of 4 e.payload_length (omega (arith, h.payload_length)) i;
  sequence_id = number_of-bytes_of 8 e.sequence_id (omega (arith, h.sequence_id)) i;
  timestamp_ms = number_of-bytes_of 8 e.timestamp_ms (omega (arith, h.timestamp_ms)) i;
}

pub int_length-encode :
    (e : Envelope) (s : Bytes)
    → envelope_size + length s < 2 ^ 31
    → int_length (encode e ++ s) ≡ envelope_size + length s
int_length-encode e s h = omega (arith, length-encode e s, h)

pub holds_envelope-encode :
    (e : Envelope) (s : Bytes)
    → envelope_size + length s < 2 ^ 31
    → holds_envelope (encode e ++ s) ≡ true
holds_envelope-encode e s h = ground (arith, int_length-encode e s h, h)
