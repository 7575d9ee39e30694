-- ===== src/Master/Collisions.antt =====
-- master/src/main.c and worker/src/main.c: workers that have the same number.
use void_os_merger.Base.{
  ℕ, ◌<◌, ◌≡◌, refl, ap, ◌∙◌, Bool, true, false, not, ◌&&◌, [], ◌∷◌, ◌++◌, arith, leb, ◌==◌,
  if◌then◌else◌, length, Bytes, c_string, is_some, some, none, Option, drop, take, atoi32,
}
use void_os_merger.Wire.{Envelope, encode}
use void_os_merger.Cluster.{WorkerMember, cluster_max_workers}
use void_os_merger.Cluster.Members.{worker_of}
use void_os_merger.Worker.Identity.{
  generate_worker_id, IsLettered, generate_worker_id_lettered, atoi32_letter,
}
use void_os_merger.Master.{Master, Stack, join_response, joining_worker, handle_join, worker_number}
use void_os_merger.Master.Registration.{is_taken, handle_join-worker_of}

-- The number of what stands behind the seven bytes of the prefix.
abbrev numbered : Stack → Bytes → ℕ
numbered stack identity = atoi32 (c_string (drop 7 (identity ++ 0 ∷ stack.identity_tail)))

pub worker_number_lettered :
    (stack : Stack) (word : Bytes) (pid time : ℕ)
    → IsLettered word
    → worker_number stack (generate_worker_id (some word) pid time) ≡ 1
unfolding worker_number
worker_number_lettered stack word pid time v =
    let zero_read : numbered stack (generate_worker_id (some word) pid time) ≡ 0 =
      ap (numbered stack) (generate_worker_id_lettered word pid time v)
      ∙ atoi32_letter v.letter (drop 10 (take 17 word)) (0 ∷ stack.identity_tail) v.from_a v.to_f in
    rw zero_read refl

chosen :
    (full : Bool) (found : Option WorkerMember) (w : WorkerMember)
    → full ≡ false
    → is_some (if (not full && not (is_some found)) && (1 == 1) then some w else found) ≡ true
chosen full none w h = rw h refl
chosen full (some v) w h = rw h refl

refused :
    (full there : Bool) (n : ℕ) (found : Option WorkerMember) (w : WorkerMember)
    → there ≡ true
    → (if (not full && not there) && (n == 1) then some w else found) ≡ found
refused full there n found w h = ground (arith, h)

-- What the second of two joins under the number 1 finds, if the table had room.
not_taken :
    (now : ℕ) (stack : Stack) (identity : Bytes) (e : Envelope) (payload : Bytes) (m : Master)
    → worker_number stack identity ≡ 1
    → length m.system.context.master_state.active_workers < cluster_max_workers
    → is_some (worker_of (handle_join now stack identity e payload m).system.context.master_state 1)
      ≡ true
unfolding joining_worker
not_taken now stack identity e payload m one room =
    let old = m.system.context.master_state in
    let w = joining_worker now stack identity e payload in
    ap is_some (handle_join-worker_of now stack identity e payload m 1)
    ∙ ap (λ k. is_some (if is_taken old k && (1 == k) then some w else worker_of old 1)) one
    ∙ chosen (leb cluster_max_workers (length old.active_workers)) (worker_of old 1) w
        (ground (arith, room))

-- Two workers whose network addresses have a letter at the tenth character take names that stand for the same
-- number, 1: where the table has room and both join under these names, the second join changes no
-- worker of the table, and is answered as the first one is.
pub handle_join-collides :
    (now now' : ℕ) (stack stack' : Stack) (word word' : Bytes) (pid pid' time time' : ℕ)
    (e e' : Envelope) (payload payload' : Bytes) (m : Master)
    → IsLettered word
    → IsLettered word'
    → length m.system.context.master_state.active_workers < cluster_max_workers
    → let id = generate_worker_id (some word) pid time in
      let id' = generate_worker_id (some word') pid' time' in
      let first = handle_join now stack id e payload m in
      let second = handle_join now' stack' id' e' payload' first in
      ((n : ℕ)
        → worker_of second.system.context.master_state n
          ≡ worker_of first.system.context.master_state n)
      × (second.outbox ≡ (c_string id' ∷ [] ∷ encode (join_response now' e') ∷ []) ∷ first.outbox)
unfolding joining_worker
handle_join-collides now now' stack stack' word word' pid pid' time time' e e' payload payload' m v
      w room =
    let id = generate_worker_id (some word) pid time in
    let id' = generate_worker_id (some word') pid' time' in
    let first = handle_join now stack id e payload m in
    let s = first.system.context.master_state in
    let added = joining_worker now' stack' id' e' payload' in
    let joins = handle_join-worker_of now' stack' id' e' payload' first in
    let one = worker_number_lettered stack word pid time v in
    let one' = worker_number_lettered stack' word' pid' time' w in
    (
      λ n.
          joins n
          ∙ ap (λ k. if is_taken s k && (n == k) then some added else worker_of s n) one'
          ∙ refused (leb cluster_max_workers (length s.active_workers)) (is_some (worker_of s 1)) n
              (worker_of s n) added (not_taken now stack id e payload m one room),
      unfold handle_join in refl,
    )
