-- ===== src/Caching/Policy.antt =====
-- src/server/src/caching.c: the exposed functions, which choose the policy by its name.
use progetto_sistemi_operati.Base.{ℕ, List, Option, Bool, str_eq, if◌then◌else◌, Outcome}
use progetto_sistemi_operati.Caching.Config.{Config, fifo_name}
use progetto_sistemi_operati.Caching.State.{Cache}
use progetto_sistemi_operati.Caching.Fifo.{
  handle_insertion_fifo, handle_usage_fifo, handle_edit_fifo, handle_removal_fifo,
}
use progetto_sistemi_operati.Caching.Lru.{
  handle_insertion_lru, handle_usage_lru, handle_edit_lru, handle_removal_lru,
}

-- `strcmp(configs.cachePolicy, "FIFO") == 0`
abbrev pub is_fifo : Config → Bool
is_fifo cfg = str_eq cfg.cache_policy fifo_name

unfoldable pub handle_insertion : Config → (ℕ → ℕ) → ℕ → Cache → Outcome (Cache × Option ℕ)
handle_insertion cfg len file c =
    if is_fifo cfg
    then handle_insertion_fifo cfg len file c
    else handle_insertion_lru cfg len file c

unfoldable pub handle_usage : Config → ℕ → Cache → Outcome Cache
handle_usage cfg file c = if is_fifo cfg then handle_usage_fifo file c else handle_usage_lru file c

unfoldable pub handle_edit : Config → (ℕ → ℕ) → ℕ → ℕ → Cache → Outcome (List ℕ × Cache)
handle_edit cfg len file new_size c =
    if is_fifo cfg
    then handle_edit_fifo cfg len file new_size c
    else handle_edit_lru cfg len file new_size c

unfoldable pub handle_removal : Config → (ℕ → ℕ) → ℕ → Cache → Outcome Cache
handle_removal cfg len file c =
    if is_fifo cfg then handle_removal_fifo len file c else handle_removal_lru len file c
