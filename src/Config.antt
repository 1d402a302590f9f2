-- ===== src/Config.antt =====
-- io_iii/config.py: the loaded configuration, as dynamic values.
use io_iii_runtime.Prelude.{String}
use io_iii_runtime.Python.Value.{Fields}

pub record Io3Config : Type 0 where
  pub config_dir : String
  pub providers : Fields
  pub logging : Fields
  pub routing : Fields
  pub runtime : Fields
