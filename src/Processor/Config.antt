-- ===== src/Processor/Config.antt =====
-- The default and the builders of `ProcessorConfig`, in crates/subdex/src/config.rs.
use subdex.Prelude.{ℕ, max}
use subdex.Processor.{ProcessorConfig}

abbrev pub default_config : ProcessorConfig
default_config = record { start_height = 0; batch_size = 100; max_reorg_depth = 64 }

abbrev pub from_height : ℕ → ProcessorConfig
from_height start_height = record default_config { start_height = start_height }

abbrev pub with_start_height : ℕ → ProcessorConfig → ProcessorConfig
with_start_height start_height c = record c { start_height = start_height }

unfoldable pub with_batch_size : ℕ → ProcessorConfig → ProcessorConfig
with_batch_size batch_size c = record c { batch_size = max batch_size 1 }

abbrev pub with_max_reorg_depth : ℕ → ProcessorConfig → ProcessorConfig
with_max_reorg_depth max_reorg_depth c = record c { max_reorg_depth = max_reorg_depth }
