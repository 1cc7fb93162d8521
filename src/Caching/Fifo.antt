-- ===== src/Caching/Fifo.antt =====
-- src/server/src/caching.c: the handlers of the FIFO policy.
use progetto_sistemi_operati.Base.{
  ℕ, ◌+◌, ◌-◌, ◌%◌, List, Option, none, some, set, max, ltb, if◌then◌else◌, Outcome, ok, fault,
  ◌>>=◌,
}
use progetto_sistemi_operati.Base.Int.{pos, ◌-ℤ◌}
use progetto_sistemi_operati.Caching.Config.{Config}
use progetto_sistemi_operati.Caching.State.{
  Cache, slot, next, prev, find_file, shift_files, expel, update_stats,
}

-- `handleInsertionFIFO`: the ring after the insertion, and the file to remove, if there is one.
-- The size subtracted is that of the file behind the one removed, as the code has it; with fewer
-- than two files in a full ring, that slot has no file, and the code follows what pointer it holds.
unfoldable pub handle_insertion_fifo : Config → (ℕ → ℕ) → ℕ → Cache → Outcome (Cache × Option ℕ)
handle_insertion_fifo cfg len file c =
    if ltb cfg.max_file_count (c.count + 1)
    then if ltb c.count 2
      then fault
      else ok (
        record c {
          slots = set c.slots c.tail file;
          head = next c.cache_size c.head;
          tail = next c.cache_size c.tail;
          size = c.size -ℤ pos (len (slot c.slots (next c.cache_size c.head)));
          max_count = max c.max_count c.count;
          activations = c.activations + 1;
        },
        some (slot c.slots c.head),
      )
    else ok (
      record c {
        slots = set c.slots c.tail file;
        tail = next c.cache_size c.tail;
        count = c.count + 1;
        max_count = max c.max_count (c.count + 1);
      },
      none,
    )

-- `handleUsageFIFO`
unfoldable pub handle_usage_fifo : ℕ → Cache → Outcome Cache
handle_usage_fifo file c = ok c

-- `head = (head + cacheSize - 1) % cacheSize; cache[head] = cache[indexOfEditedFile];`
unfoldable pub move_to_front : Option ℕ → ℕ → Cache → Cache
move_to_front none head c = record c { head = head }
move_to_front (some i) head c = record c {
  head = prev c.cache_size head;
  slots = set c.slots (prev c.cache_size head) (slot c.slots i);
}

-- `handleEditFIFO`: the files to remove, and the ring without them.
unfoldable pub handle_edit_fifo : Config → (ℕ → ℕ) → ℕ → ℕ → Cache → Outcome (List ℕ × Cache)
unfolding expel move_to_front update_stats
handle_edit_fifo cfg len file new_size c = expel cfg len file new_size c >>= λ r.
    ok (r.0, update_stats r.2 (move_to_front r.2.edited r.1 c))

-- `handleRemovalFIFO`
unfoldable pub handle_removal_fifo : (ℕ → ℕ) → ℕ → Cache → Outcome Cache
unfolding find_file shift_files
handle_removal_fifo len file c = find_file c.cache_size file c.slots c.cache_size c.head >>= λ i.
    ok (record c {
      slots = shift_files c.cache_size ((i + c.cache_size - c.head + 1) % c.cache_size) i c.slots;
      head = next c.cache_size c.head;
      size = c.size -ℤ pos (len file);
      count = c.count - 1;
    })
