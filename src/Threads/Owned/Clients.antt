-- ===== src/Threads/Owned/Clients.antt =====
-- The steps of main of src/server/src/main.c keep the invariant.
use progetto_sistemi_operati.Base.{
  ℕ, ◌+◌, ◌≡◌, List, [], ◌∷◌, ◌++◌, Bool, false, none, some, ◌==◌, if◌then◌else◌, arith,
}
use progetto_sistemi_operati.Threads.Counts.{count-cons}
use progetto_sistemi_operati.Threads.State.{System, is_open, write_to_pipe}
use progetto_sistemi_operati.Threads.Owned.{tokens, announced, carried, Inv}

pub tokens-snoc :
    (fd kind c : ℕ) (ms : List (ℕ × ℕ))
    → tokens fd (ms ++ (kind, c) ∷ []) ≡ tokens fd ms + carried fd kind c
unfolding tokens
tokens-snoc fd kind c [] = omega arith
tokens-snoc fd kind c ((k, d) ∷ ms) = omega (arith, tokens-snoc fd kind c ms)

pub announced-snoc :
    (kind c : ℕ) (ms : List (ℕ × ℕ))
    → announced (ms ++ (kind, c) ∷ []) ≡ announced ms + (if kind == 2 then 1 else 0)
unfolding announced
announced-snoc kind c [] = omega arith
announced-snoc kind c ((k, d) ∷ ms) = omega (arith, announced-snoc kind c ms)

module _ (n_threads pipe_read pipe_write : ℕ) (others : ℕ → Bool) {s : System}
    (inv : Inv n_threads pipe_read pipe_write others s) where
  open inv use {places, watch, ring, agreed}

  pub accepts-Inv :
      (conn : ℕ)
      → s.accepted ≡ none
      → is_open others s conn ≡ false
      → Inv n_threads pipe_read pipe_write others
          (record s { clients = conn ∷ s.clients; accepted = some conn })
  accepts-Inv conn free closed = record {
    places = record {
      owned = λ fd. ground (arith, places.owned fd, count-cons fd conn s.clients);
      single = λ fd. ground (arith, places.single fd, count-cons fd conn s.clients);
      apart = λ fd o. ground (arith, places.apart fd o, count-cons fd conn s.clients);
    };
    watch = record {
      bounded = watch.bounded;
      pipe_ends = watch.pipe_ends;
      scanned = watch.scanned;
      counted = ground (arith, watch.counted);
    };
    ring = ring;
    agreed = agreed;
  }

  pub announces-Inv :
      (conn : ℕ)
      → s.accepted ≡ some conn
      → Inv n_threads pipe_read pipe_write others
          (write_to_pipe 2 conn (record s { accepted = none }))
  unfolding write_to_pipe
  announces-Inv conn e = record {
    places = record {
      owned = λ fd. ground (arith, places.owned fd, tokens-snoc fd 2 conn s.pipe);
      single = places.single;
      apart = places.apart;
    };
    watch = record {
      bounded = watch.bounded;
      pipe_ends = watch.pipe_ends;
      scanned = watch.scanned;
      counted = ground (arith, watch.counted, announced-snoc 2 conn s.pipe);
    };
    ring = ring;
    agreed = agreed;
  }

  pub stops-Inv :
      (sighup : Bool)
      → Inv n_threads pipe_read pipe_write others
          (write_to_pipe 3 0 (record s { running = false; sighup_received = sighup }))
  unfolding write_to_pipe
  stops-Inv sighup = record {
    places = record {
      owned = λ fd. ground (arith, places.owned fd, tokens-snoc fd 3 0 s.pipe);
      single = places.single;
      apart = places.apart;
    };
    watch = record {
      bounded = watch.bounded;
      pipe_ends = watch.pipe_ends;
      scanned = watch.scanned;
      counted = ground (arith, watch.counted, announced-snoc 3 0 s.pipe);
    };
    ring = ring;
    agreed = agreed;
  }
