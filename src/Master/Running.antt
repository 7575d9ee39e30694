-- ===== src/Master/Running.antt =====
-- master/src/main.c: the loop, from the start of the master on.
use void_os_merger.Base.{
  ℕ, ◌+◌, ◌-◌, ◌≡◌, refl, sym, ap, ◌∙◌, subst, List, [], ◌∷◌, ◌++◌, All, length, length-append,
  Bool-cases, inl, inr, leb, sub64, Bytes, add64,
}
use void_os_merger.Cluster.Reachable.{
  IsSoundSystem, IsSoundJournal, step-IsSoundSystem, started-IsSoundSystem,
}
use void_os_merger.Cluster.Snapshots.{Journal, Writing, persists, recovers, acquires, releases}
use void_os_merger.Master.Boot.{start_up}
use void_os_merger.Master.{
  Master, Step, goes_on, Round, round, finish_round, loop, tick_scheduler, persist_periodically,
  scheduler_tick_interval_ms,
}
use void_os_merger.Master.Framing.{IsFramed, append-IsFramed, receive-Taken}

-- How many parts wait after the rounds, where each takes the three of one message.
unfoldable pub backlog : List Round → ℕ → ℕ
backlog [] n = n
backlog (r ∷ rs) n = backlog rs (n + length r.arrivals - 3)

-- The loop goes on, in a sound state, with whole messages in its inbox.
pub record IsRunning (parts : ℕ) (s : Step) : Type 0 where
  pub master : Master
  pub goes : s ≡ goes_on master
  pub system : IsSoundSystem master.system
  pub framed : IsFramed master.inbox
  pub waiting : length master.inbox ≡ parts

-- What the rest of a round keeps.
record IsKept (m n : Master) : Type 0 where
  system : IsSoundSystem n.system
  inbox : n.inbox ≡ m.inbox

tick_scheduler-IsKept :
    (now : ℕ) (m : Master) → IsSoundSystem m.system → IsKept m (tick_scheduler now m)
unfolding tick_scheduler
tick_scheduler-IsKept now m v =
    elim (Bool-cases (leb scheduler_tick_interval_ms (sub64 now m.last_scheduler_tick_ms))) [
      | inl e ↦ rw e (record { system = v; inbox = refl })
      | inr e ↦ rw e (record { system = v; inbox = refl })
    ]

persist_periodically-IsKept :
    (now : ℕ) (writing : Writing) (m : Master)
    → IsSoundSystem m.system
    → IsKept m (persist_periodically now writing m)
unfolding persist_periodically
persist_periodically-IsKept now writing m v =
    elim (Bool-cases (leb 1000 (sub64 now m.last_wal_persist_ms))) [
      | inl e ↦
          rw e (record { system = step-IsSoundSystem m.system (persists writing) v; inbox = refl })
      | inr e ↦ rw e (record { system = v; inbox = refl })
    ]

finish_round-IsRunning :
    (r : Round) (m : Master)
    → IsSoundSystem m.system
    → IsFramed m.inbox
    → IsRunning (length m.inbox) (finish_round r (goes_on m))
finish_round-IsRunning r m v f =
    let ticked = tick_scheduler-IsKept r.now_ms m v in
    let kept =
      persist_periodically-IsKept r.now_ms r.writing (tick_scheduler r.now_ms m) ticked.system in
    let same = kept.inbox ∙ ticked.inbox in
    record {
      master = persist_periodically r.now_ms r.writing (tick_scheduler r.now_ms m);
      goes = refl;
      system = kept.system;
      framed = subst IsFramed (sym same) f;
      waiting = ap length same;
    }

round-IsRunning :
    (r : Round) (m : Master)
    → IsSoundSystem m.system
    → IsFramed m.inbox
    → IsFramed r.arrivals
    → IsRunning (length m.inbox + length r.arrivals - 3) (round r m)
unfolding round
round-IsRunning r m v f g =
    let arrived : Master = record m {
      inbox = m.inbox ++ r.arrivals;
      simulated_tick_count = add64 m.simulated_tick_count 1;
    } in
    let t =
      receive-Taken r.now_ms r.stack arrived.inbox arrived v
        (append-IsFramed m.inbox r.arrivals f g) in
    let n = finish_round-IsRunning r t.left t.system t.framed in
    record {
      master = n.master;
      goes = ap (finish_round r) t.goes ∙ n.goes;
      system = n.system;
      framed = n.framed;
      waiting = n.waiting ∙ (t.consumed ∙ ap (λ k. k - 3) (length-append m.inbox r.arrivals));
    }

loop_goes_on :
    (rs : List Round) (m : Master)
    → IsSoundSystem m.system
    → IsFramed m.inbox
    → All (λ r. IsFramed r.arrivals) rs
    → IsRunning (backlog rs (length m.inbox)) (loop rs (goes_on m))
unfolding loop backlog
loop_goes_on [] m v f a = record { master = m; goes = refl; system = v; framed = f; waiting = refl }
loop_goes_on (r ∷ rs) m v f a =
    let n = round-IsRunning r m v f a.0 in
    let rest = loop_goes_on rs n.master n.system n.framed a.1 in
    record {
      master = rest.master;
      goes = ap (loop rs) n.goes ∙ rest.goes;
      system = rest.system;
      framed = rest.framed;
      waiting = rest.waiting ∙ ap (backlog rs) n.waiting;
    }

start_up-IsSoundSystem :
    (uuid : Bytes) (epoch : ℕ) (journal : Journal)
    → IsSoundJournal journal
    → IsSoundSystem (start_up uuid epoch journal).system
unfolding start_up
start_up-IsSoundSystem uuid epoch journal h =
    let started_sound = started-IsSoundSystem uuid epoch journal h in
    let recovered = step-IsSoundSystem _ recovers started_sound in
    step-IsSoundSystem _ (releases _) (step-IsSoundSystem _ acquires recovered)

-- A master that starts with a journal that is sound or cannot be read, and to which only whole messages come,
-- with identities of 1 to 63 bytes, goes on through any number of rounds: it never waits for a part and never
-- overruns its buffer, each round takes one message if there is one, and the state of the cluster, the
-- journal and the snapshots are sound throughout.
pub loop-start_up-IsRunning :
    (uuid : Bytes) (epoch : ℕ) (journal : Journal) (rs : List Round)
    → IsSoundJournal journal
    → All (λ r. IsFramed r.arrivals) rs
    → IsRunning (backlog rs 0) (loop rs (goes_on (start_up uuid epoch journal)))
unfolding start_up
loop-start_up-IsRunning uuid epoch journal rs h a =
    loop_goes_on rs (start_up uuid epoch journal) (start_up-IsSoundSystem uuid epoch journal h) tt a
