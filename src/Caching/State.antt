-- ===== src/Caching/State.antt =====
-- src/server/src/caching.c: the ring and its counters, and the loops that the policies share.
-- The size is an integer since the code subtracts from it with no check; the overflow of an `int`
-- is modelled where the code adds to the size. The file count is decremented only for a file that the ring holds.
use progetto_sistemi_operati.Base.{
  ℕ, zero, suc, ◌+◌, ◌-◌, ◌%◌, List, Option, none, some, get_or, set, replicate, max, ltb, ◌==◌,
  if◌then◌else◌, Outcome, ok, fault, stuck, exited, [], ◌∷◌, ◌>>=◌,
}
use progetto_sistemi_operati.Base.Int.{fits_int, ℤ, pos, ◌+ℤ◌, ◌-ℤ◌, ltb_ℤ, max_ℤ}
use progetto_sistemi_operati.Caching.Config.{Config}

pub record Cache : Type 0 where
  pub slots : List ℕ
  pub cache_size : ℕ
  pub head : ℕ
  pub tail : ℕ
  pub size : ℤ
  pub count : ℕ
  pub max_size : ℤ
  pub max_count : ℕ
  pub activations : ℕ

-- `malloc` leaves the slots as they are: `junk` stands for what they hold.
unfoldable pub init_caching_system : Config → ℕ → Cache
init_caching_system cfg junk = record {
  slots = replicate (suc cfg.max_file_count) junk;
  cache_size = suc cfg.max_file_count;
  head = 0;
  tail = 0;
  size = pos 0;
  count = 0;
  max_size = pos 0;
  max_count = 0;
  activations = 0;
}

-- `cache[i]`; every index below is reduced modulo the ring's size first.
abbrev pub slot : List ℕ → ℕ → ℕ
slot slots i = get_or slots i 0

-- `(i + 1) % cacheSize` and `(i + cacheSize - 1) % cacheSize`
abbrev pub next : ℕ → ℕ → ℕ
next cs i = (i + 1) % cs

abbrev pub prev : ℕ → ℕ → ℕ
prev cs i = (i + cs - 1) % cs

module _ (cs file : ℕ) (slots : List ℕ) where
  -- The search of the removal handlers. Without the file they go round for ever.
  unfoldable pub find_file : ℕ → ℕ → Outcome ℕ
  find_file zero i = stuck
  find_file (suc n) i =
      let rest = find_file n (next cs i) in if slot slots i == file then ok i else rest

  -- The search of `handleUsageLRU`, which calls `exit` at an index above 100.
  unfoldable pub find_used : ℕ → ℕ → Outcome ℕ
  find_used zero i = stuck
  find_used (suc n) i =
      let rest = find_used n (next cs i) in
      let on = if ltb 100 (next cs i) then exited else rest in
      if slot slots i == file then ok i else on

-- `n` rounds of the loop that moves the files before index `i` up by one.
unfoldable pub shift_files : ℕ → ℕ → ℕ → List ℕ → List ℕ
shift_files cs zero i slots = slots
shift_files cs (suc n) i slots =
    shift_files cs n (prev cs i) (set slots (next cs (prev cs i)) (slot slots (prev cs i)))

-- The variables of the first loop of the edit handlers.
pub record Scan : Type 0 where
  pub index : ℕ
  pub edited : Option ℕ
  pub expected : ℤ
  pub dim : ℕ
  pub file_count : ℕ

module _ (len : ℕ → ℕ) (limit cs file : ℕ) (slots : List ℕ) where
  -- One round: the edited file is skipped, any other is to be expelled.
  unfoldable pub scan_step : Scan → Scan
  scan_step s =
      if slot slots s.index == file
      then (record s { edited = some s.index; index = next cs s.index })
      else (record s {
        dim = s.dim + 1;
        expected = s.expected -ℤ pos (len (slot slots s.index));
        index = next cs s.index;
        file_count = s.file_count - 1;
      })

  -- `while(expectedFileSystemSize > configs.maxMemorySize)`. A loop that has gone round the whole
  -- ring would count files a second time; the model gives up there.
  unfoldable pub scan : ℕ → Scan → Outcome Scan
  scan zero s = stuck
  scan (suc n) s =
      let rest = scan n (scan_step s) in if ltb_ℤ (pos limit) s.expected then rest else ok s

module _ (cs file : ℕ) (slots : List ℕ) where
  -- The second loop: from `head` on, take the next `todo` files other than the edited one.
  -- It returns them with the new head.
  unfoldable pub collect : ℕ → ℕ → ℕ → Outcome (List ℕ × ℕ)
  collect n zero head = ok ([], head)
  collect zero (suc todo) head = stuck
  collect (suc n) (suc todo) head =
      let skipped = collect n (suc todo) (next cs head) in
      let rest = collect n todo (next cs head) in
      let taken : Outcome (List ℕ × ℕ) = rest >>= λ r. ok (slot slots head ∷ r.0, r.1) in
      if slot slots head == file then skipped else taken

-- What the edit handlers do up to the moving of the edited file: the files to expel, the new
-- head, and the variables of the first loop. The expected size is an `int`: the sum can overflow,
-- while the loop takes from it only as long as it is above the limit.
unfoldable pub expel : Config → (ℕ → ℕ) → ℕ → ℕ → Cache → Outcome (List ℕ × ℕ × Scan)
unfolding scan collect
expel cfg len file new_size c =
    let expected = c.size +ℤ (pos new_size -ℤ pos (len file)) in
    let expelled : Outcome (List ℕ × ℕ × Scan) =
      scan len cfg.max_memory_size cs file c.slots cs (record {
        index = c.head;
        edited = none;
        expected = expected;
        dim = 0;
        file_count = c.count;
      })
      >>= λ s. collect cs file c.slots cs s.dim c.head >>= λ r. ok (r.0, r.1, s) in
    if fits_int expected then expelled else fault
  where
    open c use {cache_size as cs}

-- The counters at the end of the edit handlers.
unfoldable pub update_stats : Scan → Cache → Cache
update_stats s c = record c {
  size = s.expected;
  max_size = max_ℤ c.max_size s.expected;
  count = s.file_count;
  max_count = max c.max_count s.file_count;
  activations = if s.dim == 0 then c.activations else c.activations + 1;
}
