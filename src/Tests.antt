-- ===== src/Tests.antt =====
-- Runs of the modelled system calls on small tables, and the theorems at concrete inputs.
mod Sample
mod FileTests
mod ProcTests
mod SynchTests
mod BitmapTests
mod ThreadTests
mod UioTests
mod VmTests
mod HeapTests
