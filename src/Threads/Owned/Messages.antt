-- ===== src/Threads/Owned/Messages.antt =====
-- The messages that thread_select of src/server/src/main.c reads from the pipe keep the invariant.
use progetto_sistemi_operati.Base.{
  ℕ, suc, max, ◌+◌, ◌≤◌, ◌<◌, ◌≡◌, inl, inr, ap, List, ◌∷◌, Bool, true, false, some, Bool-cases,
  length, leb, ◌==◌, if◌then◌else◌, arith, subst, ok, >>=-eq-ok, ok-injective,
}
use progetto_sistemi_operati.Base.Int.{ℤ, pos, ◌-ℤ◌, +ℤ_parts, -ℤ_parts, pos_part, neg_part}
use progetto_sistemi_operati.Session.{clear_session}
use progetto_sistemi_operati.Files.State.{Server, set_session}
use progetto_sistemi_operati.Files.Operations.Release.{filesystem_handle_connection_closed}
use progetto_sistemi_operati.Threads.Counts.{count, erase, count-erase, length-erase}
use progetto_sistemi_operati.Threads.State.{System, fd_set}
use progetto_sistemi_operati.Threads.Select.{
  client_gone, connection_closed, restore_client, connection_accepted, handle_message,
}
use progetto_sistemi_operati.Threads.Steps.{set_scan}
use progetto_sistemi_operati.Threads.Owned.{Inv, tokens, announced, newcomer, carried}
use progetto_sistemi_operati.Threads.Owned.Rounds.{rest-Scanned}

-- The state `s` before, and the message of `kind` about `fd` that it reads.
module _ (n_threads pipe_read pipe_write : ℕ) (others : ℕ → Bool) {s : System}
    (inv : Inv n_threads pipe_read pipe_write others s) (ready : ℕ → Bool) (kind fd : ℕ)
    (rest : List (ℕ × ℕ)) (at : s.select.scan ≡ some (ready, pipe_read))
    (read : s.pipe ≡ (kind, fd) ∷ rest) where
  open inv use {places, watch, ring, agreed}

  abbrev Next : System → Type 0
  Next t = Inv n_threads pipe_read pipe_write others (set_scan (some (ready, suc pipe_read)) t)

  token : (c : ℕ) → tokens c s.pipe ≡ carried c kind fd + tokens c rest
  unfolding tokens
  token c = ap (tokens c) read

  newcomers : announced s.pipe ≡ (if kind == 2 then 1 else 0) + announced rest
  unfolding announced
  newcomers = ap announced read

  -- A message of kind 0, 1 or 2 is about an open client, which is nowhere else.
  only_here : kind ≤ 2 → (0 < count fd s.clients) × (others fd ≡ false) × (s.select.set fd ≡ false)
  only_here h = (
    ground (arith, places.owned fd, token fd),
    ground (arith, places.owned fd, token fd, places.apart fd),
    ground (arith, places.owned fd, token fd, places.apart fd, places.single fd),
  )

  closed-Next :
      (srv : Server)
      → kind ≡ 0
      → Next (record s {
        pipe = rest;
        select = record s.select { clients_connected = s.select.clients_connected -ℤ pos 1 };
        server = srv;
        clients = erase fd s.clients;
      })
  closed-Next srv k =
      let (there, no_other, absent) = only_here (omega arith) in
      record {
        places = record {
          owned = λ c. ground (arith, places.owned c, token c, count-erase c fd s.clients there);
          single = λ c. ground (arith, places.single c, count-erase c fd s.clients there);
          apart = λ c o. ground (arith, places.apart c o, count-erase c fd s.clients there);
        };
        watch = record {
          bounded = watch.bounded;
          pipe_ends = watch.pipe_ends;
          scanned = rest-Scanned n_threads pipe_read pipe_write others inv ready pipe_read at;
          counted = ground (
            arith,
            watch.counted,
            newcomers,
            length-erase fd s.clients there,
            -ℤ_parts s.select.clients_connected (pos 1),
          );
        };
        ring = ring;
        agreed = agreed;
      }

  -- The client joins the set.
  joined-Next :
      (srv : Server) (connected most : ℤ)
      → kind ≤ 2
      → pos_part connected + (newcomer s.accepted + announced rest)
        ≡ length s.clients + neg_part connected
      → Next (record s {
        pipe = rest;
        server = srv;
        select = record s.select {
          set = fd_set fd s.select.set;
          max_fds = max s.select.max_fds fd;
          clients_connected = connected;
          max_clients_connected = most;
        };
      })
  joined-Next srv connected most k total =
      let (there, no_other, absent) = only_here k in
      record {
        places = record {
          owned = λ c. ground (arith, places.owned c, token c);
          single = places.single;
          apart = places.apart;
        };
        watch = record {
          bounded = λ c m. ground (arith, watch.bounded c);
          pipe_ends = λ c m o. ground (arith, watch.pipe_ends c);
          scanned = λ c later r ne.
              let (in_set, other) =
                rest-Scanned n_threads pipe_read pipe_write others inv ready pipe_read at c later r
                  ne in
              (ground arith, other);
          counted = total;
        };
        ring = ring;
        agreed = agreed;
      }

  -- Nothing but the scan goes on, and perhaps the end is noted.
  ignored-Next :
      (exits : Bool)
      → 3 ≤ kind
      → Next (record s { pipe = rest; select = record s.select { select_exit = exits } })
  ignored-Next exits k = record {
    places = record {
      owned = λ c. ground (arith, places.owned c, token c);
      single = places.single;
      apart = places.apart;
    };
    watch = record {
      bounded = watch.bounded;
      pipe_ends = watch.pipe_ends;
      scanned = rest-Scanned n_threads pipe_read pipe_write others inv ready pipe_read at;
      counted = ground (arith, watch.counted, newcomers);
    };
    ring = ring;
    agreed = agreed;
  }

  connection_closed-Next :
      (limit : ℕ) (t : System)
      → kind ≡ 0
      → connection_closed limit fd (record s { pipe = rest }) ≡ ok t
      → Next t
  unfolding connection_closed
  connection_closed-Next limit t k e = elim (Bool-cases (leb limit fd)) [
    | inl beyond ↦ cc (rw (beyond, connection_closed) at e)
    | inr inside ↦
        let was = record s { pipe = rest } in
        let (srv, closed, same) =
          >>=-eq-ok (filesystem_handle_connection_closed fd s.server)
            (λ srv. ok (client_gone fd was srv)) (rw (inside, connection_closed) at e) in
        subst Next (ok-injective same)
          (closed-Next (set_session fd (clear_session (srv.sessions fd)) srv) k)
  ]

  connection_accepted-Next :
      (limit : ℕ) (t : System)
      → kind ≡ 2
      → connection_accepted limit fd (record s { pipe = rest }) ≡ ok t
      → Next t
  unfolding connection_accepted
  connection_accepted-Next limit t k e = elim (Bool-cases (leb limit fd)) [
    | inl beyond ↦ cc (rw (beyond, connection_accepted) at e)
    | inr inside ↦ subst Next (ok-injective (rw (inside, connection_accepted) at e)) (
        joined-Next _ _ _ (omega arith)
          (ground (arith, watch.counted, newcomers, +ℤ_parts s.select.clients_connected (pos 1))))
  ]

  pub obeys-Inv :
      (limit : ℕ) (t : System)
      → handle_message limit kind fd (record s { pipe = rest }) ≡ ok t
      → Inv n_threads pipe_read pipe_write others (set_scan (some (ready, suc pipe_read)) t)
  unfolding handle_message restore_client
  obeys-Inv limit t e = elim (Bool-cases (kind == 0)) [
    | inl zero_kind ↦ connection_closed-Next limit t (ground arith) (rw zero_kind at e)
    | inr not_zero ↦ elim (Bool-cases (kind == 1)) [
      | inl one_kind ↦
          subst Next (ok-injective (rw (not_zero, one_kind) at e))
            (joined-Next _ _ _ (ground arith) (ground (arith, watch.counted, newcomers)))
      | inr not_one ↦ elim (Bool-cases (kind == 2)) [
        | inl two_kind ↦
            connection_accepted-Next limit t (ground arith) (rw (not_zero, not_one, two_kind) at e)
        | inr not_two ↦ elim (Bool-cases (kind == 3)) [
          | inl three_kind ↦
              subst Next (ok-injective (rw (not_zero, not_one, not_two, three_kind) at e))
                (ignored-Next true (ground arith))
          | inr other_kind ↦
              subst Next (ok-injective (rw (not_zero, not_one, not_two, other_kind) at e))
                (ignored-Next s.select.select_exit (ground arith))
        ]
      ]
    ]
  ]
