-- ===== src/Master/Framing.antt =====
-- master/src/main.c: a round that finds whole messages in the inbox.
use void_os_merger.Base.{
  ℕ, ◌<◌, ◌≡◌, refl, sym, ap, ◌∙◌, ◌-◌, suc, subst, false, List, [], ◌∷◌, ◌++◌, arith, leb, ◌==◌,
  length, Bytes, Bool-cases, inl, inr,
}
use void_os_merger.Wire.{Envelope, Part, decode, holds_envelope}
use void_os_merger.Router.{buffered}
use void_os_merger.Cluster.{Snapshot}
use void_os_merger.Cluster.Invariant.{IsSound, register_worker-IsSound, process_heartbeat-IsSound}
use void_os_merger.Cluster.Reachable.{IsSoundSystem, with_state-IsSoundSystem}
use void_os_merger.Master.{
  Master, Stack, Step, goes_on, bump, handle_join, handle_heartbeat, handle_envelope,
  handle_message, receive_rest, receive, id_buffer_size,
}

-- Messages of three parts, the first with the identity of a worker: not empty, and short enough for its buffer.
abbrev pub IsFramed : List Part → Type 0
IsFramed [] = Unit
IsFramed (i ∷ d ∷ p ∷ rest) =
    (0 < length i.content) × (length i.content < id_buffer_size) × IsFramed rest
IsFramed _ = ⊥

pub append-IsFramed : (ps qs : List Part) → IsFramed ps → IsFramed qs → IsFramed (ps ++ qs)
append-IsFramed [] qs h k = k
append-IsFramed (i ∷ []) qs h k = absurd h
append-IsFramed (i ∷ d ∷ []) qs h k = absurd h
append-IsFramed (i ∷ d ∷ p ∷ rest) qs h k = (h.0, h.1, append-IsFramed rest qs h.2 k)

bump-IsSound : (s : Snapshot) → IsSound s → IsSound (bump s)
bump-IsSound s v = record {
  workers_fit = v.workers_fit;
  leases_fit = v.leases_fit;
  workers_distinct = v.workers_distinct;
  leases_distinct = v.leases_distinct;
  metrics = v.metrics;
  status = v.status;
}

-- The part of the state that a message may change, kept sound, with the inbox as it was.
pub record IsHandled (m n : Master) : Type 0 where
  pub system : IsSoundSystem n.system
  pub inbox : n.inbox ≡ m.inbox

unchanged : (m : Master) → IsSoundSystem m.system → IsHandled m m
unchanged m v = record { system = v; inbox = refl }

handle_join-IsHandled :
    (now : ℕ) (stack : Stack) (identity : Bytes) (env : Envelope) (payload : Bytes) (m : Master)
    → IsSoundSystem m.system
    → IsHandled m (handle_join now stack identity env payload m)
unfolding handle_join
handle_join-IsHandled now stack identity env payload m v = record {
  system =
      with_state-IsSoundSystem m.system _ v
        (bump-IsSound _ (register_worker-IsSound _ m.system.context.master_state v.state));
  inbox = refl;
}

handle_heartbeat-IsHandled :
    (now : ℕ) (stack : Stack) (identity : Bytes) (m : Master)
    → IsSoundSystem m.system
    → IsHandled m (handle_heartbeat now stack identity m)
unfolding handle_heartbeat
handle_heartbeat-IsHandled now stack identity m v = record {
  system =
      with_state-IsSoundSystem m.system _ v
        (bump-IsSound _ (process_heartbeat-IsSound _ now m.system.context.master_state v.state));
  inbox = refl;
}

handle_envelope-IsHandled :
    (now : ℕ) (stack : Stack) (identity : Bytes) (env : Envelope) (payload : Bytes) (m : Master)
    → IsSoundSystem m.system
    → IsHandled m (handle_envelope now stack identity env payload m)
unfolding handle_envelope
handle_envelope-IsHandled now stack identity env payload m v =
    elim (Bool-cases (env.message_code == 3)) [
      | inl j ↦ rw j (handle_join-IsHandled now stack identity env payload m v)
      | inr j ↦ rw j (elim (Bool-cases (env.message_code == 5)) [
        | inl h ↦ rw h (handle_heartbeat-IsHandled now stack identity m v)
        | inr h ↦ rw h (unchanged m v)
      ])
    ]

handle_message-IsHandled :
    (now : ℕ) (stack : Stack) (identity message : Bytes) (m : Master)
    → IsSoundSystem m.system
    → IsHandled m (handle_message now stack identity message m)
unfolding handle_message
handle_message-IsHandled now stack identity message m v =
    elim (Bool-cases (holds_envelope message)) [
      | inr short ↦ rw short (unchanged m v)
      | inl long ↦ rw long (elim (Bool-cases ((decode (buffered message)).protocol_version == 1)) [
        | inl one ↦ rw one (handle_envelope-IsHandled now stack identity _ _ m v)
        | inr other ↦ rw other (unchanged m v)
      ])
    ]

pub receive_framed :
    (now : ℕ) (stack : Stack) (i d p : Part) (rest : List Part) (m : Master)
    → 0 < length i.content
    → length i.content < id_buffer_size
    → receive now stack (i ∷ d ∷ p ∷ rest) m
      ≡ goes_on (handle_message now stack i.content p.content (record m { inbox = rest }))
unfolding receive receive_rest
receive_framed now stack i d p rest m some_bytes short =
    let nonempty : (length i.content == 0) ≡ false = ground (arith, some_bytes) in
    let fits : leb id_buffer_size (length i.content) ≡ false = ground (arith, short) in
    rw (nonempty, fits) refl

-- A round that goes on, with one message less, or with none if there was none.
pub record Taken (ps : List Part) (s : Step) : Type 0 where
  pub left : Master
  pub goes : s ≡ goes_on left
  pub system : IsSoundSystem left.system
  pub framed : IsFramed left.inbox
  pub consumed : length left.inbox ≡ length ps - 3

pub receive-Taken :
    (now : ℕ) (stack : Stack) (ps : List Part) (m : Master)
    → IsSoundSystem m.system
    → IsFramed ps
    → Taken ps (receive now stack ps m)
receive-Taken now stack [] m v f = record {
  left = record m { inbox = [] };
  goes = unfold receive in refl;
  system = v;
  framed = tt;
  consumed = omega arith;
}
receive-Taken now stack (i ∷ []) m v f = absurd f
receive-Taken now stack (i ∷ d ∷ []) m v f = absurd f
receive-Taken now stack (i ∷ d ∷ p ∷ rest) m v f =
    let handled =
      handle_message-IsHandled now stack i.content p.content (record m { inbox = rest }) v in
    record {
      left = handle_message now stack i.content p.content (record m { inbox = rest });
      goes = receive_framed now stack i d p rest m f.0 f.1;
      system = handled.system;
      framed = subst IsFramed (sym handled.inbox) f.2;
      consumed = ap length handled.inbox ∙ rest_length;
    }
  where
    rest_length : length rest ≡ suc (suc (suc (length rest))) - 3
    rest_length = omega arith
