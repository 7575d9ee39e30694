-- ===== src/Master/Joins.antt =====
-- master/src/main.c and worker/src/main.c: a worker that joins.
use void_os_merger.Base.{
  ◌+◌, str_eq_self, ℕ, suc, ◌^◌, ◌<◌, ◌≡◌, refl, sym, ap, ◌∙◌, Bool, true, false, List, [], ◌∷◌,
  ◌++◌, arith, ltb, leb, ◌==◌, length, take, drop, Bytes, c_string, append_assoc, append_nil,
}
use void_os_merger.Wire.{
  Envelope, MessageCode, Part, encode, decode, envelope_size, payload_max_len, holds_envelope,
  parts_of, to_worker, to_router,
}
use void_os_merger.Wire.RoundTrip.{IsEnvelope, holds_envelope-encode, drop-encode, decode-encode}
use void_os_merger.Router.{buffered}
use void_os_merger.Router.Dispatch.{buffered-encode}
use void_os_merger.Worker.Main.{send_envelope, recv_envelope, await_join, reads, fails, ends}
use void_os_merger.Master.{
  Master, Stack, Step, goes_on, waits, join_response, handle_join, handle_envelope, handle_message,
  receive_rest, receive, id_buffer_size,
}
use void_os_merger.Master.Framing.{receive_framed}

-- A message with an envelope of version 1.
pub handle_message-encode :
    (now : ℕ) (stack : Stack) (identity : Bytes) (e : Envelope) (payload : Bytes) (m : Master)
    → IsEnvelope e
    → e.protocol_version ≡ 1
    → envelope_size + length payload < 2 ^ 31
    → handle_message now stack identity (encode e ++ payload) m
      ≡ handle_envelope now stack identity e (take payload_max_len payload ++ stack.message_tail) m
unfolding handle_message
handle_message-encode now stack identity e payload m v one fits =
    let read : decode (buffered (encode e ++ payload)) ≡ e =
      ap decode (buffered-encode e payload) ∙ decode-encode e _ v in
    let held : drop envelope_size (buffered (encode e ++ payload) ++ stack.message_tail)
        ≡ take payload_max_len payload ++ stack.message_tail =
      ap (λ s. drop envelope_size (s ++ stack.message_tail)) (buffered-encode e payload)
      ∙ (ap (drop envelope_size)
            (append_assoc (encode e) (take payload_max_len payload) stack.message_tail)
          ∙ drop-encode e _) in
    let long : holds_envelope (encode e ++ payload) ≡ true = holds_envelope-encode e payload fits in
    let first : (e.protocol_version == 1) ≡ true = ground (arith, one) in
    rw (read, held, long, first) refl

pub handle_envelope-handle_join :
    (now : ℕ) (stack : Stack) (identity : Bytes) (e : Envelope) (payload : Bytes) (m : Master)
    → e.message_code ≡ 3
    → handle_envelope now stack identity e payload m ≡ handle_join now stack identity e payload m
unfolding handle_envelope
handle_envelope-handle_join now stack identity e payload m c =
    let join : (e.message_code == 3) ≡ true = ground (arith, c) in rw join refl

-- An envelope that comes alone.
recv_envelope-encode :
    (stale : Bytes) (e : Envelope) (more : Bool) (rest : List Part)
    → IsEnvelope e
    → e.payload_length ≡ 0
    → (payload : Bytes) × (recv_envelope stale
          (record { content = encode e; has_more = more } ∷ rest)
        ≡ reads e payload rest)
unfolding recv_envelope
recv_envelope-encode stale e more rest v z =
    let alone : encode e ≡ encode e ++ [] = sym (append_nil (encode e)) in
    let read : decode (buffered (encode e)) ≡ e =
      ap (λ s. decode (buffered s)) alone
      ∙ (ap decode (buffered-encode e []) ∙ decode-encode e _ v) in
    let long : holds_envelope (encode e) ≡ true =
      ap holds_envelope alone ∙ holds_envelope-encode e [] (omega arith) in
    let fits : ltb payload_max_len e.payload_length ≡ false = ground (arith, z) in
    (
      take e.payload_length (drop envelope_size (buffered (encode e) ++ stale)),
      rw (read, long, fits) refl,
    )

await_join_fails :
    (n : ℕ) (stale : Bytes) (ps rest : List Part)
    → recv_envelope stale ps ≡ fails rest
    → await_join (suc n) stale ps ≡ await_join n stale rest
unfolding await_join
await_join_fails n stale ps rest e = ground arith

await_join_reads :
    (n : ℕ) (stale : Bytes) (ps rest : List Part) (e : Envelope) (payload : Bytes)
    → recv_envelope stale ps ≡ reads e payload rest
    → e.message_code ≡ 4
    → await_join (suc n) stale ps ≡ ends true rest
unfolding await_join
await_join_reads n stale ps rest e payload r c = ground arith

-- The delimiter costs one attempt.
await_join-response :
    (n : ℕ) (stale : Bytes) (e : Envelope)
    → IsEnvelope e
    → e.payload_length ≡ 0
    → e.message_code ≡ 4
    → await_join (suc (suc n)) stale (parts_of ([] ∷ encode e ∷ [])) ≡ ends true []
await_join-response n stale e v z c =
    let (payload, read) = recv_envelope-encode stale e false [] v z in
    await_join_fails (suc n) stale (parts_of ([] ∷ encode e ∷ [])) (parts_of (encode e ∷ []))
      (unfold recv_envelope parts_of in refl)
    ∙ await_join_reads n stale (parts_of (encode e ∷ [])) [] e payload (unfold parts_of in read) c

-- What a join leaves: an answer is sent that reaches the worker of this identity, whose wait it ends.
pub record IsJoined (identity stale : Bytes) (attempts : ℕ) (s : Step) (m : Master) : Type 0 where
  pub master : Master
  pub goes : s ≡ goes_on master
  pub response : List Bytes
  pub sent : master.outbox ≡ response ∷ m.outbox
  pub received : await_join attempts stale (to_worker identity response) ≡ ends true []

reaches :
    (identity : Bytes)
    → c_string identity ≡ identity
    → (message : Bytes)
    → to_worker identity (c_string identity ∷ [] ∷ message ∷ []) ≡ parts_of ([] ∷ message ∷ [])
reaches identity whole message = rw (whole, str_eq_self identity) refl

-- A worker whose join comes as a whole message of less than 2 ^ 31 bytes, with an identity of 1 to 63 bytes of which
-- none is 0, is answered in the round that takes it; the answer is addressed to its identity, and its wait ends
-- with true within any number of attempts from two on, with nothing left to read.
pub receive-IsJoined :
    (now : ℕ) (stack : Stack) (identity delimiter : Bytes) (e : Envelope) (payload : Bytes)
    (m : Master) (n : ℕ) (stale : Bytes)
    → 0 < length identity
    → length identity < id_buffer_size
    → IsEnvelope e
    → e.protocol_version ≡ 1
    → e.message_code ≡ 3
    → envelope_size + length payload < 2 ^ 31
    → c_string identity ≡ identity
    → now < 2 ^ 64
    → IsJoined identity stale
        (suc (suc n))
        (receive now stack (parts_of (identity ∷ delimiter ∷ (encode e ++ payload) ∷ [])) m)
        m
unfolding handle_join
receive-IsJoined now stack identity delimiter e payload m n stale some_bytes short v one join fits
      whole time =
    record {
      master =
          handle_join now stack identity e (take payload_max_len payload ++ stack.message_tail)
            (record m { inbox = [] });
      goes =
          unfold parts_of in
          receive_framed now stack _ _ _ [] m some_bytes short
          ∙ ap goes_on (
              handle_message-encode now stack identity e payload (record m { inbox = [] }) v one
                fits
              ∙ handle_envelope-handle_join now stack identity e _ (record m { inbox = [] }) join);
      response = c_string identity ∷ [] ∷ encode (join_response now e) ∷ [];
      sent = refl;
      received =
          ap (await_join (suc (suc n)) stale)
            (reaches identity whole (encode (join_response now e)))
          ∙ await_join-response n stale (join_response now e)
              (record {
                protocol_version = omega arith;
                message_code = omega arith;
                payload_length = omega arith;
                sequence_id = v.sequence_id;
                timestamp_ms = time;
              })
              refl refl;
    }

-- A worker sends its message as one part: the round that takes it waits for parts that do not come, so that a
-- master that has nothing else to read stands still with the first message of a worker.
pub receive-send_envelope :
    (now time : ℕ) (stack : Stack) (identity : Bytes) (code : MessageCode) (payload : Bytes)
    (m : Master)
    → 0 < length identity
    → length identity < id_buffer_size
    → receive now stack (to_router identity (send_envelope true time code payload).0) m ≡ waits
unfolding receive receive_rest send_envelope parts_of
receive-send_envelope now time stack identity code payload m some_bytes short =
    let nonempty : (length identity == 0) ≡ false = ground (arith, some_bytes) in
    let fits : leb id_buffer_size (length identity) ≡ false = ground (arith, short) in
    rw (nonempty, fits) refl
