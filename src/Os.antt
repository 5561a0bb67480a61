-- ===== src/Os.antt =====
-- The operating system as the program calls it: the files that it writes, and those that it reads. As
-- for `Cluster`, each call that may change the world outside takes it and returns the next one, and
-- nothing is assumed of the calls.
use kubejob.Prelude.{ℕ, String, Option, List}
use kubejob.Errors.{Err}

abbrev pub Bytes : Type 0
Bytes = List ℕ

-- `write_file` is io.Copy into the open file of that path. os.Open with io.Copy from it is `read_file`.
pub record Os (W : Type 0) : Type 0 where
  pub mkdir_all : String → W → Option Err × W
  pub create : String → W → Option Err × W
  pub write_file : String → Bytes → W → Option Err × W
  pub chmod : String → ℕ → W → Option Err × W
  pub remove : String → W → Option Err × W
  pub remove_all : String → W → Option Err × W
