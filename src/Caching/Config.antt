-- ===== src/Caching/Config.antt =====
-- src/server/include/configuration.h: the part of `config` that the storage reads.
use progetto_sistemi_operati.Base.{ℕ, List, [], ◌∷◌}

pub record Config : Type 0 where
  pub cache_policy : List ℕ
  pub max_memory_size : ℕ
  pub max_file_count : ℕ
  pub max_file_size : ℕ

-- "FIFO"
abbrev pub fifo_name : List ℕ
fifo_name = b'F' ∷ b'I' ∷ b'F' ∷ b'O' ∷ []
