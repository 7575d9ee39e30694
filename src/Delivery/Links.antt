-- ===== src/Delivery/Links.antt =====
-- master/src/router.c and worker/src/transport.c: what passes between the router and the workers.
-- The router asks for a socket of type 4, which is ZMQ_REP. Such a socket hands on what stands behind the empty
-- part that ends the address of a request, drops a message without one, and refuses to send where it has no
-- request to answer. The socket of the worker, a DEALER, sends what it is given.
use void_os_merger.Base.{
  ℕ, ◌≡◌, Bool, true, false, not, ◌||◌, ◌&&◌, Option, none, some, is_some, List, [], ◌∷◌, ◌++◌,
  ◌==◌, if◌then◌else◌, length, Bytes,
}
use void_os_merger.Wire.{Envelope, MessageCode, Part, parts_of}
use void_os_merger.Router
use void_os_merger.Router.{Router, Outcome, buffered, send_to_worker, run_once, envelope_for}
use void_os_merger.Worker.Transport
use void_os_merger.Worker.Transport.{
  Transport, TransportEvent, Polled, poll, read_part, note_message, faults, send,
}

abbrev pub all_sent : Router.Sends
all_sent = record { identity_sent = true; delimiter_sent = true; message_sent = true }

abbrev pub none_sent : Router.Sends
none_sent = record { identity_sent = false; delimiter_sent = false; message_sent = false }

-- What is behind the empty part that ends the address of a request, and none if the message has none with more behind it.
unfoldable pub request_of : List Bytes → Option (List Bytes)
request_of [] = none
request_of (p ∷ []) = none
request_of (p ∷ q ∷ ps) =
    let rest = request_of (q ∷ ps) in if length p == 0 then some (q ∷ ps) else rest

-- The parts that the REP socket of the router gives of a message.
abbrev pub request_parts : Option (List Bytes) → List Part
request_parts none = []
request_parts (some frames) = parts_of frames

abbrev pub to_rep : List Bytes → List Part
to_rep frames = request_parts (request_of frames)

-- What has passed: the messages that the router handed on and the parts that its socket took.
pub record Link : Type 0 where
  pub router : Router
  pub has_request : Bool
  pub handed : List (Bytes × Envelope × Bytes)
  pub sent : List Bytes

-- A worker's message to the router, at a time, or the router's to a worker.
pub data Message : Type 0 where
  reports : ℕ → MessageCode → Bytes → Transport → Message
  assigns : ℕ → Bytes → MessageCode → Bytes → Message

abbrev pub messages_of : Outcome → List (Bytes × Envelope × Bytes)
messages_of Outcome.overruns = []
messages_of Outcome.blocks = []
messages_of (Outcome.returns r) = r.messages

unfoldable pub pass : Link → Message → Link
pass l (reports now code payload t) =
    let frames = (send true now code payload t).frames in
    record l {
      has_request = l.has_request || is_some (request_of frames);
      handed =
          messages_of (run_once l.router (if l.has_request then [] else to_rep frames)) ++ l.handed;
    }
pass l (assigns now worker_id code payload) =
    let result =
      send_to_worker (if l.has_request then all_sent else none_sent) now worker_id code payload
        l.router in
    record l {
      router = result.router;
      has_request = l.has_request && not (length result.frames == 3);
      sent = result.frames ++ l.sent;
    }

unfoldable pub pass_all : Link → List Message → Link
pass_all l [] = l
pass_all l (m ∷ ms) = pass_all (pass l m) ms

-- A link on which nothing has passed.
record IsSilent (l : Link) : Type 0 where
  pub unasked : l.has_request ≡ false
  pub handed : l.handed ≡ []
  pub sent : l.sent ≡ []

abbrev pub new_link : Router → Link
new_link r = record {
  router = (Router.start true true r).0;
  has_request = false;
  handed = [];
  sent = [];
}
