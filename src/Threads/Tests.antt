-- ===== src/Threads/Tests.antt =====
-- A client connects, and a worker takes its descriptor.
use progetto_sistemi_operati.Base.{
  ℕ, ◌+◌, ◌≡◌, refl, sym, subst, ==_iff, ◌≢◌, List, [], ◌∷◌, Bool, true, false, leb, ◌==◌, arith,
  length,
}
use mathlib.Core.Bool.{false≢true}
use progetto_sistemi_operati.Base.Int.{pos}
use progetto_sistemi_operati.Files.Samples.{config, server}
use progetto_sistemi_operati.Files.State.{Server}
use progetto_sistemi_operati.Queue.{int_queue_size, init_queue, insert_queue, remove_queue}
use progetto_sistemi_operati.Queue.Fifo.{queued}
use progetto_sistemi_operati.Threads.Counts.{count}
use progetto_sistemi_operati.Threads.State.{System, write_to_pipe}
use progetto_sistemi_operati.Threads.Select.{
  handle_message, pass_on, may_leave, connection_accepted,
}
use progetto_sistemi_operati.Threads.Steps.{
  Step, accepts, announces, stops, wakes, skips, passes, obeys, ends_round, takes, init_system,
}
use progetto_sistemi_operati.Threads.Owned.{Owned, Watched, held, newcomer, announced}
use progetto_sistemi_operati.Threads.Waiting.{Waits}
use progetto_sistemi_operati.Threads.Reachable.{
  Reach, start, later, Reach-Waits, Reach-Owned, Reach-Watched, served_once, soft_exit,
}

-- The pipe is 0 and 1, the listening socket 2.
abbrev others : ℕ → Bool
others fd = leb fd 2

-- The server before the first client.
abbrev pub empty_server : Server
empty_server = record server { table = λ i. []; clients_to_notify = [] }

abbrev Runs : System → Type 0
Runs s = Reach config 8 2 0 1 2 others empty_server s

abbrev Goes : System → System → Type 0
Goes s t = Step config 8 2 0 1 others s t

not_empty : {m : ℕ × ℕ} {ms : List (ℕ × ℕ)} → m ∷ ms ≢ []
not_empty e = cc

only : (at : ℕ) (set : ℕ → Bool) → set at ≡ true → (fd : ℕ) → (fd == at) ≡ true → set fd ≡ true
only at set e fd same = subst (λ c. set c ≡ true) (sym ((==_iff fd at).0 same)) e

-- Descriptor 3 is accepted, announced, and joins the set.
joined : (s : System) × Runs s
unfolding init_system may_leave write_to_pipe handle_message connection_accepted count
joined =
    let a = later start (accepts _ 3 refl refl refl) in
    let b = later a (announces _ 3 refl) in
    let c = later b (
      wakes _ (λ fd. fd == 0) refl refl
        (record { members = only 0 _ refl; readable = λ r. not_empty; not_writing = refl })) in
    (_, later c (obeys _ _ _ 2 3 _ refl (omega arith) refl refl refl))

-- The round ends, and 3 is ready in the next.
ready : (s : System) × Runs s
unfolding joined may_leave
ready =
    let a = later joined.1 (skips _ _ 1 refl (omega arith) refl) in
    let b = later a (skips _ _ 2 refl (omega arith) refl) in
    let c = later b (skips _ _ 3 refl (omega arith) refl) in
    let d = later c (ends_round _ _ 4 refl (omega arith)) in
    (
      _,
      later d (
          wakes _ (λ fd. fd == 3) refl refl
            (record {
              members = only 3 _ refl;
              readable = λ r. absurd (false≢true r);
              not_writing = refl;
            })),
    )

-- Worker 0 takes it.
served : (s : System) × Runs s
unfolding ready pass_on count insert_queue remove_queue init_queue
served =
    let a = later ready.1 (skips _ _ 0 refl (omega arith) refl) in
    let b = later a (skips _ _ 1 refl (omega arith) refl) in
    let c = later b (skips _ _ 2 refl (omega arith) refl) in
    let d = later c (passes _ _ _ 3 refl (omega arith) refl (λ e. omega arith) refl) in
    (_, later d (takes _ 0 3 _ (omega arith) refl refl))

served_here : held 3 (served.0.workers 0) ≡ 1
unfolding served
served_here = refl

Reach-Waits_example : Waits served.0
Reach-Waits_example =
    Reach-Waits config 8 2 0 1 2 others empty_server refl refl (λ i. refl) refl served.1

Reach-Owned_example : Owned 2 0 1 others served.0
Reach-Owned_example =
    Reach-Owned config 8 2 0 1 2 others empty_server refl refl (λ i. refl) refl served.1

Reach-Watched_example :
    Watched 2 0 1 others served.0.select
      (newcomer served.0.accepted + announced served.0.pipe)
      (length served.0.clients)
Reach-Watched_example =
    Reach-Watched config 8 2 0 1 2 others empty_server refl refl (λ i. refl) refl served.1

served_once_example :
    ◌≡◌ {A = ℕ} 0 0
    × (served.0.select.set 3 ≡ false)
    × (count 3 (queued int_queue_size 0 served.0.queue) ≡ 0)
    × (count 3 served.0.pending ≡ 0)
served_once_example =
    served_once config 8 2 0 1 2 others empty_server refl refl (λ i. refl) refl 3 0 0 served.1
      (omega arith) (omega arith) (omega (arith, served_here)) (omega (arith, served_here))

-- SIGHUP without a client.
ended : (s : System) × Runs s
unfolding init_system may_leave write_to_pipe handle_message
ended =
    let a = later start (stops _ true refl refl) in
    let b = later a (
      wakes _ (λ fd. fd == 0) refl refl
        (record { members = only 0 _ refl; readable = λ r. not_empty; not_writing = refl })) in
    (_, later b (obeys _ _ _ 3 0 _ refl (omega arith) refl refl refl))

ended_leaves : (ended.0.sighup_received ≡ true) × (may_leave ended.0 ≡ true)
unfolding ended may_leave
ended_leaves = (refl, refl)

soft_exit_example :
    (ended.0.select.clients_connected ≡ pos 0)
    × (newcomer ended.0.accepted + announced ended.0.pipe ≡ length ended.0.clients)
soft_exit_example =
    soft_exit config 8 2 0 1 2 others empty_server refl refl (λ i. refl) refl ended.1 ended_leaves.0
      ended_leaves.1
