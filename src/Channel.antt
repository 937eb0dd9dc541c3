-- ===== src/Channel.antt =====
-- Bytes that go through a buffer, from a receive to a write, as in asio/echo/server.cc,
-- asio/echo/co_server.cc and each direction of asio/proxy/server.cc.
pub mod Relayed
use cc_snippets.Prelude.{ℕ, zero, suc, List, [], ◌∷◌, ◌++◌, take, drop, length, replicate}

abbrev pub buffer_size : ℕ
buffer_size = 1024

-- the socket operation that is pending
pub data Pending : Type 0 where
  nothing receiving : Pending
  sending : (bytes_to_send : ℕ) → Pending

-- How a socket operation ends: async_receive gives at most `buffer_size` bytes, and async_write has
-- then written all of them.
pub data Completion : Type 0 where
  fails : Completion
  succeeds : (bytes : List ℕ) → Completion

-- `buffer` is the whole buffer, with what it had before behind the bytes of the last receive;
-- `received` and `sent` are the bytes of the operations that succeeded.
pub record Channel : Type 0 where
  pub pending : Pending
  pub buffer : List ℕ
  pub received : List ℕ
  pub sent : List ℕ

-- `std::array<char, 1024>` of a new session, which leaves its bytes unset: 0 stands for such a byte
unfoldable pub new_buffer : List ℕ
new_buffer = replicate buffer_size 0

-- `resize` of a std::vector: the first bytes stay, and new ones are 0
unfoldable pub resize : ℕ → List ℕ → List ℕ
resize zero l = []
resize (suc n) [] = 0 ∷ resize n []
resize (suc n) (x ∷ l) = x ∷ resize n l

-- The bytes that a receive gives stand at the front of the buffer, and the rest of it stays.
unfoldable pub fill : List ℕ → Channel → Channel
fill bytes c =
    let got = take buffer_size bytes in
    record c { buffer = got ++ drop (length got) c.buffer; received = c.received ++ got }

-- a write of the first `n` bytes of the buffer has ended
unfoldable pub drain : ℕ → Channel → Channel
drain n c = record c { sent = c.sent ++ take n c.buffer }
