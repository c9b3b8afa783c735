-- ===== src/Tests/Sample.antt =====
-- The tables at boot, with numbers for the console's vnodes.
use longcat_os.Base.{[]}
use longcat_os.Kernel.{Kernel, Proc, alive}
use longcat_os.Files.Refs.{Inv}
use longcat_os.Boot.{tables, tables-Inv, first_proc}

abbrev pub raw_proc : Proc
raw_proc = record {
  fds = [];
  pid = 77;
  exit_code = 0;
  state = alive;
  parent = 0;
  children = [];
  numthreads = 0;
}

abbrev pub kernel_proc : Proc
kernel_proc = first_proc raw_proc

abbrev pub booted : Kernel
booted = tables 10 11 12 raw_proc []

pub booted-Inv : Inv (λ i. 0) booted
booted-Inv = tables-Inv 10 11 12 raw_proc []
