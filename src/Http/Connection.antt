-- ===== src/Http/Connection.antt =====
-- The stream to the server, behind `Read` and `Write` of `embedded-io-async`: a parameter of what
-- downloads. Tests run it on a scripted server.
use rs_smarthome_nodes.Base.{ℕ, ◌≤◌, ◌<◌, ◌≡◌, Bool, Option, some, [], ◌++◌, length}
use rs_smarthome_nodes.Base.Bytes.{Bytes}

pub record Connection : Type 1 where
  pub Stream : Type 0
  -- `write_all` and `flush`; the flag tells that they succeeded
  pub write_all : Stream → Bytes → Stream × Bool
  pub flush : Stream → Stream × Bool
  -- `read` into a buffer of so many bytes; `none` is an error, and no byte the end of the stream
  pub read : Stream → ℕ → Stream × Option Bytes
  -- what the peer is going to have sent when it ends the stream
  pub unread : Stream → Bytes
  -- a read fills no more than the buffer, and takes what stands first
  pub read-le : (s : Stream) (cap : ℕ) {b : Bytes} → (read s cap).1 ≡ some b → length b ≤ cap
  pub read-unread :
      (s : Stream) (cap : ℕ) {b : Bytes}
      → (read s cap).1 ≡ some b
      → unread s ≡ b ++ unread (read s cap).0
  -- a read of no byte into a buffer is the end
  pub read_end : (s : Stream) (cap : ℕ) → 0 < cap → (read s cap).1 ≡ some [] → unread s ≡ []
