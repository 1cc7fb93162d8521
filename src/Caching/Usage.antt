-- ===== src/Caching/Usage.antt =====
-- The usage handlers of caching.c on the queue of files.
use progetto_sistemi_operati.Base.{
  if◌then◌else◌, ℕ, suc, ◌+◌, ◌-◌, ◌%◌, ◌<◌, ◌≡◌, refl, sym, ap, ◌∙◌, List, [], ◌∷◌, ◌++◌, length,
  get_or, get_or-append, set, length-set, length-append, arith, ok, exited, inl, inr, Bool-cases,
  Outcome, append_assoc, false,
}
use progetto_sistemi_operati.Base.Ring.{
  window, length-window, step-mod, next-mod, distance-mod, window-push, window-get,
}
use progetto_sistemi_operati.Caching.Config.{Config}
use progetto_sistemi_operati.Caching.State.{Cache, slot, next, find_used, shift_files}
use progetto_sistemi_operati.Caching.Fifo.{handle_usage_fifo}
use progetto_sistemi_operati.Caching.Lru.{handle_usage_lru}
use progetto_sistemi_operati.Caching.Policy.{is_fifo, handle_usage}
use progetto_sistemi_operati.Caching.Moves.{
  find_used_lem, find_used-exits, SomeAbove, NoneAbove, length-shift_files, window-shift_files',
}
use progetto_sistemi_operati.Caching.Valid.{IsValid, contents, length-contents, NotIn}

-- The ring as `handleUsageLRU` needs it: the queue is the `n` files from the head on.
pub record IsQueue (c : Cache) (n : ℕ) (q : List ℕ) : Type 0 where
  pub storage : length c.slots ≡ c.cache_size
  pub head_in : c.head < c.cache_size
  pub tail_at : c.tail ≡ (c.head + n) % c.cache_size
  pub fits : n < c.cache_size
  pub queue : window 0 c.slots c.cache_size c.head n ≡ q

module _ (file : ℕ) (xs ys : List ℕ) {c : Cache} {n : ℕ} (v : IsQueue c n (xs ++ file ∷ ys))
    (first : NotIn file xs) (near : NoneAbove c.cache_size c.head xs) where
  open c use {slots, cache_size as cs, head, tail}

  n-eq : n ≡ suc (length xs + length ys)
  n-eq =
      omega
        (arith, length-window 0 slots cs head n, ap length v.queue, length-append xs (file ∷ ys))

  used : Cache
  used = record c {
    slots = shift_files cs (suc (length xs)) ((head + length xs) % cs) (set slots tail file);
    tail = next cs tail;
    head = next cs head;
  }

  spot : find_used cs file slots cs head ≡ ok ((head + length xs) % cs)
  spot =
      find_used_lem cs file slots xs ys cs head n v.head_in v.queue first near (omega (arith, n-eq))

  slot-spot : slot slots ((head + length xs) % cs) ≡ file
  slot-spot =
      sym (window-get 0 slots cs head n (length xs) v.head_in (omega (arith, n-eq)))
      ∙ ap (λ w. get_or w (length xs) 0) v.queue
      ∙ get_or-append xs file ys 0

  usage-eq : handle_usage_lru file c ≡ ok used
  unfolding handle_usage_lru used
  usage-eq =
      let d : ((head + length xs) % cs + cs - head + 1) % cs ≡ suc (length xs) =
        distance-mod cs head (length xs) 1 v.head_in (omega (arith, n-eq)) (omega (arith, n-eq))
        ∙ omega arith in
      rw (spot, slot-spot, d)

  used-IsQueue : IsQueue used n (xs ++ ys ++ file ∷ [])
  unfolding used
  used-IsQueue = record {
    storage =
        length-shift_files cs (suc (length xs)) ((head + length xs) % cs) (set slots tail file)
        ∙ length-set slots tail file
        ∙ v.storage;
    head_in = omega (arith, n-eq);
    tail_at = ap (next cs) v.tail_at ∙ next-mod cs head n ∙ sym (step-mod cs head n);
    fits = v.fits;
    queue =
        window-shift_files' cs head n file (set slots tail file) xs (ys ++ file ∷ [])
          (omega (arith, length-set slots tail file)) v.head_in v.fits
          (ap (λ t. window 0 (set slots t file) cs head (suc n)) v.tail_at
            ∙ window-push 0 slots cs head n file (omega arith) v.head_in v.fits
            ∙ ap (λ q. q ++ file ∷ []) v.queue
            ∙ append_assoc xs (file ∷ ys) (file ∷ []))
        ∙ sym (append_assoc xs ys (file ∷ []));
  }

  -- What `handleUsageLRU` does to the queue.
  pub usage_lru-IsQueue :
      (c' : Cache) × (handle_usage_lru file c ≡ ok c')
      × IsQueue c' n (xs ++ ys ++ file ∷ [])
      × (c'.size ≡ c.size)
      × (c'.count ≡ c.count)
      × (c'.cache_size ≡ cs)
      × (c'.max_size ≡ c.max_size)
      × (c'.max_count ≡ c.max_count)
      × (c'.activations ≡ c.activations)
  unfolding used
  usage_lru-IsQueue = (used, usage-eq, used-IsQueue, refl, refl, refl, refl, refl, refl)

-- The order of the queue after a use of `file`, which stands between `xs` and `ys`.
abbrev pub after_use : Config → ℕ → List ℕ → List ℕ → List ℕ
after_use cfg file xs ys = if is_fifo cfg then xs ++ file ∷ ys else xs ++ ys ++ file ∷ []

module _ {cfg : Config} (file : ℕ) (xs ys : List ℕ) {c : Cache} (v : IsValid cfg c)
    (e : contents c ≡ xs ++ file ∷ ys) (first : NotIn file xs) where
  as-IsQueue : IsQueue c c.count (xs ++ file ∷ ys)
  as-IsQueue = record {
    storage = v.storage;
    head_in = v.head_in;
    tail_at = v.tail_at;
    fits = omega arith;
    queue = e;
  }

  -- What a use gives.
  pub record Used (r : Outcome Cache) : Type 0 where
    pub after : Cache
    pub returns : r ≡ ok after
    pub valid : IsValid cfg after
    pub queue : contents after ≡ after_use cfg file xs ys
    pub bytes : after.size ≡ c.size

  lru-Used : is_fifo cfg ≡ false → NoneAbove c.cache_size c.head xs → Used (handle_usage_lru file c)
  lru-Used p near =
      let (d, r, q, s, n, z, _, _, _) = usage_lru-IsQueue file xs ys as-IsQueue first near in
      record {
        after = d;
        returns = r;
        valid = record {
          storage = q.storage;
          sized = z ∙ v.sized;
          head_in = q.head_in;
          tail_at = rw n q.tail_at;
          fits = rw n v.fits;
        };
        queue = rw (n, p) q.queue;
        bytes = s;
      }

  -- Using a file that a valid ring holds, if the search for it meets no index above 100,
  -- succeeds: the ring stays valid, FIFO keeps the order, LRU moves the file to the end, and the
  -- size is the same.
  pub handle_usage-Used : NoneAbove c.cache_size c.head xs → Used (handle_usage cfg file c)
  unfolding handle_usage handle_usage_fifo
  handle_usage-Used near = elim (Bool-cases (is_fifo cfg)) [
    | inl p ↦ rw p (record { after = c; returns = refl; valid = v; queue = rw p e; bytes = refl })
    | inr p ↦ rw p (lru-Used p near)
  ]

  -- Under LRU the use of a file that a valid ring holds ends the whole server, if the search for
  -- it comes to an index above 100.
  pub handle_usage-exits :
      is_fifo cfg ≡ false → SomeAbove c.cache_size c.head xs → handle_usage cfg file c ≡ exited
  unfolding handle_usage handle_usage_lru
  handle_usage-exits p far =
      let short : length xs < c.cache_size =
        omega (arith, length-contents c, ap length e, length-append xs (file ∷ ys)) in
      rw (
        p,
        find_used-exits c.cache_size file c.slots xs (file ∷ ys) c.cache_size c.head c.count
            (omega arith) e first far short,
      )
