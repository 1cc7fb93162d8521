-- ===== src/Threads/Owned/Rounds.antt =====
-- The rounds of thread_select of src/server/src/main.c keep the invariant.
use progetto_sistemi_operati.Base.{
  ℕ, zero, suc, ◌+◌, ◌≤◌, ◌≡◌, ◌≢◌, inl, inr, ap, [], ◌∷◌, ◌++◌, Bool, true, false, Option, some,
  Option-cases, arith, subst, ◌∙◌,
}
use progetto_sistemi_operati.Queue.{Queue, int_queue_size, insert_queue}
use progetto_sistemi_operati.Queue.Fifo.{IsValid, queued, insert_queue-queued}
use progetto_sistemi_operati.Threads.Counts.{one, count, count-snoc}
use progetto_sistemi_operati.Threads.State.{System, is_open, fd_clr}
use progetto_sistemi_operati.Threads.Select.{highest_open, passed_on, pass_on}
use progetto_sistemi_operati.Threads.Steps.{set_scan}
use progetto_sistemi_operati.Threads.Owned.{Inv, in_set, elsewhere, Scanned}

pub le-highest_open :
    (is_open : ℕ → Bool) (n fd : ℕ) → fd ≤ n → is_open fd ≡ true → fd ≤ highest_open is_open n
unfolding highest_open
le-highest_open is_open zero fd h e = h
le-highest_open is_open (suc n) fd h e = ground (arith, le-highest_open is_open n fd)

module _ (n_threads pipe_read pipe_write : ℕ) (others : ℕ → Bool) {s : System}
    (inv : Inv n_threads pipe_read pipe_write others s) where
  open inv use {places, watch, ring, agreed}

  -- A new position of the loop, from which on the round is as it should be.
  pub set_scan-Inv :
      (scan : Option ((ℕ → Bool) × ℕ))
      → Scanned n_threads pipe_read pipe_write others s.select.set scan
      → Inv n_threads pipe_read pipe_write others (set_scan scan s)
  set_scan-Inv scan ahead = record {
    places = record { owned = places.owned; single = places.single; apart = places.apart };
    watch = record {
      bounded = watch.bounded;
      pipe_ends = watch.pipe_ends;
      scanned = ahead;
      counted = watch.counted;
    };
    ring = ring;
    agreed = agreed;
  }

  pub wakes-Scanned :
      (ready : ℕ → Bool)
      → ((fd : ℕ) → ready fd ≡ true → s.select.set fd ≡ true)
      → ready pipe_write ≡ false
      → Scanned n_threads pipe_read pipe_write others s.select.set (some (ready, 0))
  wakes-Scanned ready members not_writing fd at r ne =
      ground (arith, members fd r, watch.pipe_ends fd)

  -- The rest of the round behind a descriptor.
  pub rest-Scanned :
      (ready : ℕ → Bool) (fd : ℕ)
      → s.select.scan ≡ some (ready, fd)
      → Scanned n_threads pipe_read pipe_write others s.select.set (some (ready, suc fd))
  rest-Scanned ready fd e c at r ne =
      subst (Scanned n_threads pipe_read pipe_write others s.select.set) e watch.scanned c
        (omega arith) r ne

  member-is_open : (fd : ℕ) → s.select.set fd ≡ true → is_open others s fd ≡ true
  member-is_open fd e = ground (arith, places.owned fd)

  -- The descriptor of the loop has gone from the set into the queue.
  module _ (ready : ℕ → Bool) (fd : ℕ) (at : s.select.scan ≡ some (ready, fd))
      (is_ready : ready fd ≡ true) (client : fd ≢ pipe_read) (q : Queue ℕ)
      (valid : IsValid int_queue_size 0 q)
      (more : queued int_queue_size 0 q ≡ queued int_queue_size 0 s.queue ++ fd ∷ []) where
    in_round : (s.select.set fd ≡ true) × (others fd ≡ false)
    in_round =
        subst (Scanned n_threads pipe_read pipe_write others s.select.set) at watch.scanned fd
          (omega arith) is_ready client

    moved-owned :
        (c : ℕ)
        → count c s.clients
          ≡ in_set n_threads pipe_read pipe_write others (fd_clr fd s.select.set) c
            + elsewhere n_threads pipe_read pipe_write others (record s { queue = q }) c
    moved-owned c =
        let size : count c (queued int_queue_size 0 q)
            ≡ count c (queued int_queue_size 0 s.queue) + one c fd =
          ap (count c) more ∙ count-snoc c fd (queued int_queue_size 0 s.queue) in
        let (in_set, no_other) = in_round in ground (arith, places.owned c, size)

    moved-Inv :
        Inv n_threads pipe_read pipe_write others
          (set_scan (some (ready, suc fd)) (passed_on (is_open others s) fd q s))
    moved-Inv = record {
      places = record { owned = moved-owned; single = places.single; apart = places.apart };
      watch = record {
        bounded = λ c m.
            le-highest_open (is_open others s) s.select.max_fds c (ground (arith, watch.bounded c))
              (member-is_open c (ground arith));
        pipe_ends = λ c m. ground (arith, watch.pipe_ends c);
        scanned = λ c later r ne.
            let (in_set, no_other) = rest-Scanned ready fd at c later r ne in ground arith;
        counted = watch.counted;
      };
      ring = valid;
      agreed = agreed;
    }

  pub passes-Inv :
      (t : System) (ready : ℕ → Bool) (fd : ℕ)
      → s.select.scan ≡ some (ready, fd)
      → ready fd ≡ true
      → fd ≢ pipe_read
      → pass_on (is_open others s) fd s ≡ some t
      → Inv n_threads pipe_read pipe_write others (set_scan (some (ready, suc fd)) t)
  unfolding pass_on
  passes-Inv t ready fd at r ne passed =
      elim (Option-cases (insert_queue int_queue_size 0 fd s.queue)) [
        | inl full ↦ cc (rw (full, pass_on) at passed)
        | inr (q, inserted) ↦
            let (valid, more) = insert_queue-queued int_queue_size 0 fd s.queue q ring inserted in
            let found : some (passed_on (is_open others s) fd q s) ≡ some t =
              rw (inserted, pass_on) at passed in
            let same : passed_on (is_open others s) fd q s ≡ t = cc in
            subst
              (λ u. Inv n_threads pipe_read pipe_write others (set_scan (some (ready, suc fd)) u))
              same (moved-Inv ready fd at r ne q valid more)
      ]
