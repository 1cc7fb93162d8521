-- ===== src/Caching/Tests.antt =====
-- The ring of caching.c on small inputs.
use progetto_sistemi_operati.Base.{
  Option, ◌<◌, ◌^◌, ◌+◌, ℕ, ◌≡◌, refl, ◌↔◌, inl, [], ◌∷◌, ◌++◌, ok, exited, replicate, arith,
  str_eq,
}
use progetto_sistemi_operati.Base.Int.{pos, ◌-ℤ◌, ◌+ℤ◌}
use progetto_sistemi_operati.Caching.Config.{Config, fifo_name}
use progetto_sistemi_operati.Caching.State.{Cache, expel, scan, scan_step, collect, update_stats}
use progetto_sistemi_operati.Caching.Fifo.{handle_edit_fifo, move_to_front}
use progetto_sistemi_operati.Caching.Policy.{
  handle_insertion, handle_usage, handle_edit, handle_removal,
}
use progetto_sistemi_operati.Caching.Valid.{total, IsValid, contents, Accounted}
use progetto_sistemi_operati.Caching.Insertion.{
  insert_bounded, handle_insertion_refines, handle_insertion-Accounted_iff,
}
use progetto_sistemi_operati.Caching.Removal.{Removed, handle_removal-Removed}
use progetto_sistemi_operati.Caching.Usage.{Used, handle_usage-Used, handle_usage-exits}
use progetto_sistemi_operati.Caching.Plan.{others}
use progetto_sistemi_operati.Caching.Edit.Handlers.{Edited, handle_edit-Edited}

abbrev lru : Config
lru = record {
  cache_policy = b'L' ∷ b'R' ∷ b'U' ∷ [];
  max_memory_size = 25;
  max_file_count = 3;
  max_file_size = 20;
}

abbrev fifo : Config
fifo = record lru { cache_policy = fifo_name }

-- The files 8, 5 and 9, round the end of the ring; file p has p bytes.
abbrev bytes_of : ℕ → ℕ
bytes_of p = p

abbrev wrapped : Cache
wrapped = record {
  slots = 9 ∷ 7 ∷ 8 ∷ 5 ∷ [];
  cache_size = 4;
  head = 2;
  tail = 1;
  size = pos 22;
  count = 3;
  max_size = pos 22;
  max_count = 3;
  activations = 0;
}

wrapped-IsValid_lru : IsValid lru wrapped
wrapped-IsValid_lru = omega arith

wrapped-IsValid_fifo : IsValid fifo wrapped
wrapped-IsValid_fifo = omega arith

handle_insertion_refines_example :
    (c' : Cache) × (expelled : Option ℕ) × (handle_insertion lru bytes_of 0 wrapped
      ≡ ok (c', expelled))
    × IsValid lru c'
    × ((contents c', expelled) ≡ insert_bounded 3 0 (8 ∷ 5 ∷ 9 ∷ []))
handle_insertion_refines_example =
    handle_insertion_refines bytes_of 0 wrapped-IsValid_lru (omega arith)

handle_insertion-Accounted_iff_example :
    (c' : Cache) × (expelled : Option ℕ) × (handle_insertion fifo bytes_of 0 wrapped
      ≡ ok (c', expelled))
    × (Accounted bytes_of c' ↔ (◌≡◌ {A = ℕ} 8 5))
handle_insertion-Accounted_iff_example =
    handle_insertion-Accounted_iff bytes_of 0 wrapped-IsValid_fifo 8 5 (9 ∷ []) refl refl refl refl

handle_removal-Removed_example :
    Removed bytes_of 5
      (8 ∷ [])
      (9 ∷ [])
      wrapped-IsValid_fifo
      refl
      (omega arith)
      (handle_removal fifo bytes_of 5 wrapped)
handle_removal-Removed_example =
    handle_removal-Removed bytes_of 5 (8 ∷ []) (9 ∷ []) wrapped-IsValid_fifo refl (omega arith)

handle_usage-Used_example :
    Used 5 (8 ∷ []) (9 ∷ []) wrapped-IsValid_lru refl (omega arith) (handle_usage lru 5 wrapped)
handle_usage-Used_example =
    handle_usage-Used 5 (8 ∷ []) (9 ∷ []) wrapped-IsValid_lru refl (omega arith) (omega arith)

bytes-fit : 12 + total bytes_of (others 5 (contents wrapped)) < 2 ^ 31
unfolding others
bytes-fit = omega arith

handle_edit-Edited_example :
    Edited bytes_of 5 12
      (8 ∷ [])
      (9 ∷ [])
      wrapped-IsValid_fifo
      refl
      (omega arith)
      (omega arith)
      refl
      (omega arith)
      bytes-fit
      (handle_edit fifo bytes_of 5 12 wrapped)
unfolding str_eq
handle_edit-Edited_example =
    handle_edit-Edited bytes_of 5 12 (8 ∷ []) (9 ∷ []) wrapped-IsValid_fifo refl (omega arith)
      (omega arith) refl (omega arith) bytes-fit (inl refl)

edit_runs :
    handle_edit fifo bytes_of 9 21 wrapped
    ≡ ok (
      8 ∷ 5 ∷ [],
      record wrapped {
        slots = 9 ∷ 7 ∷ 8 ∷ 5 ∷ [];
        head = 0;
        size = pos 21;
        count = 1;
        activations = 1;
      },
    )
unfolding handle_edit str_eq handle_edit_fifo expel scan scan_step collect move_to_front
    update_stats ◌-ℤ◌ ◌+ℤ◌
edit_runs = refl

-- A large ring whose queue stands at the cells 100 and 101.
abbrev far : Cache
far = record wrapped {
  slots = replicate 100 0 ++ 7 ∷ 8 ∷ 0 ∷ [];
  cache_size = 103;
  head = 100;
  tail = 102;
  count = 2;
}

abbrev large : Config
large = record lru { max_file_count = 102 }

far-IsValid : IsValid large far
far-IsValid = omega arith

handle_usage-exits_example : handle_usage large 8 far ≡ exited
unfolding str_eq
handle_usage-exits_example =
    handle_usage-exits 8 (7 ∷ []) [] far-IsValid refl (omega arith) refl (inl (omega arith))
