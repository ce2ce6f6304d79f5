-- ===== src/Storage.antt =====
-- One access to a handler's store, as the environment lets it go: the lock of an in-memory store
-- can be poisoned, and each step of a database access (a connection from the pool, the start of a
-- transaction, the read, the write, the commit) can fail.
use stateset_icp_handler.Prelude.{Bool, true}

pub record Attempt : Type 0 where
  pub lock : Bool
  pub pool : Bool
  pub begin : Bool
  pub read : Bool
  pub write : Bool
  pub commit : Bool

-- An access in which nothing fails.
abbrev pub smooth : Attempt
smooth = record { lock = true; pool = true; begin = true; read = true; write = true; commit = true }
