-- ===== src/Caching/Lru.antt =====
-- src/server/src/caching.c: the handlers of the LRU policy.
use progetto_sistemi_operati.Base.{
  ℕ, ◌+◌, ◌-◌, ◌%◌, List, Option, none, some, set, max, ltb, if◌then◌else◌, Outcome, ok, fault,
  ◌>>=◌,
}
use progetto_sistemi_operati.Base.Int.{pos, ◌-ℤ◌}
use progetto_sistemi_operati.Caching.Config.{Config}
use progetto_sistemi_operati.Caching.State.{
  Cache, slot, next, find_file, find_used, shift_files, expel, update_stats,
}

-- `handleInsertionLRU`
unfoldable pub handle_insertion_lru : Config → (ℕ → ℕ) → ℕ → Cache → Outcome (Cache × Option ℕ)
handle_insertion_lru cfg len file c =
    if ltb cfg.max_file_count (c.count + 1)
    then if ltb c.count 2
      then fault
      else ok (
        record c {
          slots = set c.slots c.tail file;
          head = next c.cache_size c.head;
          tail = next c.cache_size c.tail;
          size = c.size -ℤ pos (len (slot c.slots (next c.cache_size c.head)));
          max_count = max c.max_count c.count;
          activations = c.activations + 1;
        },
        some (slot c.slots c.head),
      )
    else ok (
      record c {
        slots = set c.slots c.tail file;
        tail = next c.cache_size c.tail;
        count = c.count + 1;
        max_count = max c.max_count (c.count + 1);
      },
      none,
    )

-- `handleUsageLRU`
unfoldable pub handle_usage_lru : ℕ → Cache → Outcome Cache
unfolding find_used shift_files
handle_usage_lru file c = find_used c.cache_size file c.slots c.cache_size c.head >>= λ i.
    ok (record c {
      slots =
          shift_files c.cache_size ((i + c.cache_size - c.head + 1) % c.cache_size) i
            (set c.slots c.tail (slot c.slots i));
      tail = next c.cache_size c.tail;
      head = next c.cache_size c.head;
    })

-- The edited file goes to the tail, whether the first loop skipped it or not.
unfoldable pub move_to_back : Option ℕ → ℕ → ℕ → Cache → Outcome Cache
unfolding handle_usage_lru
move_to_back none file head c = handle_usage_lru file (record c { head = head })
move_to_back (some i) file head c = ok (record c {
  head = head;
  slots = set c.slots c.tail (slot c.slots i);
  tail = next c.cache_size c.tail;
})

-- `handleEditLRU`
unfoldable pub handle_edit_lru : Config → (ℕ → ℕ) → ℕ → ℕ → Cache → Outcome (List ℕ × Cache)
unfolding expel move_to_back update_stats
handle_edit_lru cfg len file new_size c = expel cfg len file new_size c >>= λ r.
    move_to_back r.2.edited file r.1 c >>= λ d. ok (r.0, update_stats r.2 d)

-- `handleRemovalLRU`, which shifts once less than `handleRemovalFIFO`
unfoldable pub handle_removal_lru : (ℕ → ℕ) → ℕ → Cache → Outcome Cache
unfolding find_file shift_files
handle_removal_lru len file c = find_file c.cache_size file c.slots c.cache_size c.head >>= λ i.
    ok (record c {
      slots = shift_files c.cache_size ((i + c.cache_size - c.head) % c.cache_size) i c.slots;
      head = next c.cache_size c.head;
      size = c.size -ℤ pos (len file);
      count = c.count - 1;
    })
