-- ===== src/Transfer.antt =====
-- The copy streams of the agent: agent_server.go sends and receives the archive in chunks, and
-- agent_client.go is its other end. A file is the list of its bytes.
pub mod Whole
use kubejob.Prelude.{
  ◌+◌, ℕ, zero, suc, String, ◌<>◌, Bool, true, false, Option, none, some, List, [], ◌∷◌, ◌++◌,
  length, take, drop, sprint, ◌==◌, if◌then◌else◌,
}
pub use kubejob.Os.{Bytes}
use kubejob.Errors.{Err, plain, wrapped}

abbrev pub default_stream_file_chunk_size : ℕ
default_stream_file_chunk_size = 1024

-- What the system and gRPC do on one side of a stream: how much `f.Read` gives of what is left, and
-- where reading, sending and writing fail, by what is left or by the chunk, with the error that the
-- loop then returns.
pub record Channel : Type 0 where
  pub read_length : Bytes → ℕ
  pub read_error : Bytes → Option Err
  pub send_error : Bytes → Option Err
  pub write_error : Bytes → Option Err

-- A round of a sender, after which come the others.
abbrev pub send_chunk :
    Option Err → Option Err → Bytes → Option Err × List Bytes → Option Err × List Bytes
send_chunk (some x) send_error chunk later = (some x, [])
send_chunk none (some x) chunk later = (some x, [])
send_chunk none none chunk (e, chunks) = (e, chunk ∷ chunks)

module _ (c : Channel) where
  -- The loops of `(*AgentServer).copyFrom` and `(*AgentClient).CopyTo`: the error that ends it, and
  -- the chunks that were sent. At the end of the file `f.Read` gives io.EOF and no bytes.
  unfoldable pub send_loop : ℕ → Bytes → Option Err × List Bytes
  send_loop rounds [] = (none, [])
  send_loop zero (b ∷ bytes) = (none, [])
  send_loop (suc rounds) (b ∷ bytes) =
      let n = c.read_length (b ∷ bytes) in
      let chunk = take n (b ∷ bytes) in
      send_chunk (c.read_error (b ∷ bytes)) (c.send_error chunk) chunk
        (send_loop rounds (drop n (b ∷ bytes)))

  -- A round takes a byte at least, so that a round for each byte is enough.
  abbrev pub send_file : Bytes → Option Err × List Bytes
  send_file file = send_loop (length file) file

  -- The loops of `(*AgentServer).copyTo` and `(*AgentClient).copyFrom`: the error, what is written,
  -- and `copiedLength`.
  unfoldable pub receive_loop : List Bytes → Bytes → ℕ → Option Err × Bytes × ℕ
  receive_loop [] written copied_length = (none, written, copied_length)
  receive_loop (chunk ∷ chunks) written copied_length = elim (c.write_error chunk) [
    | some x ↦ (some x, written, copied_length)
    | none ↦ receive_loop chunks (written ++ chunk) (copied_length + length chunk)
  ]

-- `(*AgentServer).CopyFrom`: an error is only logged, and the stream ends without one.
unfoldable pub server_copy_from : Channel → Bytes → Option Err × List Bytes
server_copy_from c file = let (e, chunks) = send_file c file in (none, chunks)

-- `(*AgentClient).copyFrom`, at the other end of a stream that ends with `server_error`.
unfoldable pub client_copy_from : Channel → Option Err × List Bytes → Option Err × Bytes
client_copy_from c (server_error, chunks) =
    let (e, written, n) = receive_loop c chunks [] 0 in
    elim e [
      | some x ↦ (some x, written)
      | none ↦ elim server_error [
        | some x ↦ (some (wrapped "job: failed to grpc stream copy" x), written)
        | none ↦ (none, written)
      ]
    ]

abbrev pub err_mismatch : ℕ → ℕ → Err
err_mismatch size copied = plain (
    "job: mismatch copied length. expected size "
    <> (sprint size <> (" but got copied size " <> sprint copied)))

-- `(*AgentClient).CopyTo` from the open archive on, with `(*AgentServer).copyTo` at the other end,
-- where the file was created: the client's error, and what the server has written.
unfoldable pub client_copy_to : Channel → Channel → Bytes → Option Err × Bytes
client_copy_to client server file =
    let (e, chunks) = send_file client file in
    let (e', written, copied_length) = receive_loop server chunks [] 0 in
    elim e [
      | some x ↦ (some x, written)
      | none ↦ elim e' [
        | some x ↦ (some (wrapped "job: failed to recv data with grpc stream" x), written)
        | none ↦
            if copied_length == length file
            then (none, written)
            else (some (err_mismatch (length file) copied_length), written)
      ]
    ]
