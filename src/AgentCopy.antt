-- ===== src/AgentCopy.antt =====
-- agent_client.go and agent_server.go, `CopyFrom` and `CopyTo`: what comes before and behind the streams
-- of Transfer, on the machine of the client and on that of the agent.
pub mod Answers
pub mod Whole
use kubejob.Prelude.{
  ℕ, String, ◌<>◌, Bool, true, false, Option, none, some, List, [], ◌∷◌, length, ◌==◌,
  if◌then◌else◌,
}
use kubejob.Errors.{Err, Result, ok, err, wrapped}
use kubejob.Paths.{path_join, dir, base}
use kubejob.Os.{Os, Bytes}
use kubejob.Tar.{TarItem, Sink}
use kubejob.Untar.{TarArchive}
use kubejob.Archive.{Files, archived_path, archive_path, extract_archived_file}
use kubejob.Transfer.{
  Channel, send_file, receive_loop, server_copy_from, client_copy_from, err_mismatch,
}

-- One side of the streams: its operating system and files, its end of a stream, and the bytes that its
-- tar library makes of an archive and reads from one, with the error at which the file stops.
pub record Machine (W : Type 0) : Type 0 where
  pub os : Os W
  pub files : W → Files
  pub channel : Channel
  pub sink : Sink
  pub encode : List TarItem → Bytes
  pub decode : Bytes → Option Err → TarArchive

-- `archivedFilePath` of a destination: in a directory, inside it.
abbrev pub archive_at : Result (Bool × ℕ) → String → String
archive_at (err e) path = archived_path path
archive_at (ok (is_dir, mode)) path =
    if is_dir then path_join path (base path <> ".tar") else archived_path path

abbrev pub decoded :
    (Bytes → Option Err → TarArchive) → Result (Bytes × Option Err) → Result TarArchive
decoded decode (err e) = err e
decoded decode (ok (bytes, read_error)) = ok (decode bytes read_error)

-- The answer to `CopyTo`, if it was sent, and the error that the call ends with.
abbrev pub Served : Type 0
Served = Option ℕ × Option Err

module _ {W : Type 0} (m : Machine W) where
  abbrev pub open_archive : String → W → Result TarArchive × W
  open_archive path w = (decoded m.decode ((m.files w).open_file path), w)

  unfoldable pub archive_of : String → W → String
  unfolding path_join base
  archive_of path w = archive_at ((m.files w).stat path) path

  -- The deferred `os.Remove`, whose error is ignored.
  abbrev pub and_remove {ℓ} : {A : Type ℓ} → String → A × W → A × W
  and_remove archived (a, w) = (a, (m.os.remove archived w).1)

  abbrev opened_stream : Result (Bytes × Option Err) → W → List Bytes × W
  opened_stream (err e) w = ([], w)
  opened_stream (ok (bytes, read_error)) w = ((server_copy_from m.channel bytes).1, w)

  abbrev archived_stream : Result String × W → List Bytes × W
  archived_stream (err e, w) = ([], w)
  archived_stream (ok archived, w) = opened_stream ((m.files w).open_file archived) w

  -- `(*AgentServer).CopyFrom`: the chunks that it sends. Every error is only logged.
  unfoldable pub serve_copy_from : String → W → List Bytes × W
  unfolding archive_path
  serve_copy_from path w = archived_stream (archive_path m.os m.files m.sink m.encode path w)

  abbrev received_file : String → Option Err × Bytes → W → Option Err × W
  received_file archived (e, bytes) w = (e, (m.os.write_file archived bytes w).1)

  abbrev created_file : String → Option Err × List Bytes → Option Err × W → Option Err × W
  created_file archived stream (some e, w) =
      (some (wrapped ("job: failed to create file " <> (archived <> " to copy")) e), w)
  created_file archived stream (none, w) =
      received_file archived (client_copy_from m.channel stream) w

  abbrev made_parent : String → Option Err × List Bytes → Option Err × W → Option Err × W
  made_parent archived stream (some e, w) =
      (some (wrapped ("job: failed to create directory " <> dir archived) e), w)
  made_parent archived stream (none, w) = created_file archived stream (m.os.create archived w)

  abbrev streamed_from : String → Result (List Bytes × Option Err) × W → Option Err × W
  streamed_from archived (err e, w) =
      (some (wrapped "job: failed to create grpc stream to copy from pod" e), w)
  streamed_from archived (ok (chunks, ending), w) =
      made_parent archived (ending, chunks) (m.os.mkdir_all (dir archived) w)

  abbrev pub extracted : String → String → Option Err × W → Option Err × W
  extracted what archived (some e, w) = (some (wrapped (what <> archived) e), w)
  extracted what archived (none, w) = (none, w)

  abbrev pub extract_received : String → String → Option Err × W → Option Err × W
  extract_received archived dst_path (some e, w) = (some e, w)
  extract_received archived dst_path (none, w) =
      extracted "failed to extract file " archived
        (extract_archived_file m.os open_archive archived dst_path w)

  -- `(*AgentClient).copyFrom`; the stream is the call of the agent's `CopyFrom`.
  unfoldable pub download :
      (String → W → Result (List Bytes × Option Err) × W) → String → String → W → Option Err × W
  unfolding dir client_copy_from
  download stream src_path archived w = streamed_from archived (stream src_path w)

  -- `(*AgentClient).CopyFrom`
  unfoldable pub agent_copy_from :
      (String → W → Result (List Bytes × Option Err) × W) → String → String → W → Option Err × W
  unfolding archive_of download extract_archived_file
  agent_copy_from stream src_path dst_path w =
      let archived = archive_of dst_path w in
      and_remove archived (extract_received archived dst_path (download stream src_path archived w))

  abbrev pub answer_sent : String → String → ℕ → Option Err → W → Served × W
  answer_sent archived path n (some e) w =
      ((none, some (wrapped "failed to send CopyToResponse" e)), w)
  answer_sent archived path n none w =
      let (e, w') =
        extracted "failed to extract archived file " archived
          (extract_archived_file m.os open_archive archived path w) in
      ((some n, e), w')

  abbrev pub stored_chunks :
      String → String → (ℕ → Option Err) → Option Err × Bytes × ℕ → W → Served × W
  stored_chunks archived path respond (some e, written, n) w =
      ((none, some e), (m.os.write_file archived written w).1)
  stored_chunks archived path respond (none, written, n) w =
      answer_sent archived path n (respond n) (m.os.write_file archived written w).1

  abbrev pub target_created :
      String → String → (ℕ → Option Err) → List Bytes → Option Err × W → Served × W
  target_created archived path respond chunks (some e, w) =
      ((none, some (wrapped ("failed to create copy target file " <> archived) e)), w)
  target_created archived path respond chunks (none, w) =
      stored_chunks archived path respond (receive_loop m.channel chunks [] 0) w

  abbrev pub target_parent :
      String → String → (ℕ → Option Err) → List Bytes → Option Err × W → Served × W
  target_parent archived path respond chunks (some e, w) =
      ((none, some (wrapped ("failed to create directory " <> dir archived) e)), w)
  target_parent archived path respond chunks (none, w) =
      target_created archived path respond chunks (m.os.create archived w)

  -- `(*AgentServer).CopyTo` behind the message with the path: `respond` is how sending the response
  -- fails. It is sent before the archive is extracted.
  unfoldable pub serve_copy_to : (ℕ → Option Err) → String → List Bytes → W → Served × W
  unfolding archive_of extract_archived_file receive_loop dir
  serve_copy_to respond path chunks w =
      let archived = archive_of path w in
      and_remove archived
        (target_parent archived path respond chunks (m.os.mkdir_all (dir archived) w))

-- What the client of `CopyTo` calls of its stream: its creation, the message with the path, and
-- `CloseSend` and `Recv` behind the chunks.
pub record CopyToStream (W : Type 0) : Type 0 where
  pub create : W → Option Err × W
  pub send_path : String → W → Option Err × W
  pub close_send : List Bytes → W → Option Err × W
  pub recv : String → List Bytes → W → Result ℕ × W

module _ {W : Type 0} (m : Machine W) (s : CopyToStream W) where
  abbrev failing : String → Err → W → Option Err × W
  failing what e w = (some (wrapped ("job: failed to " <> what) e), w)

  abbrev compared : ℕ → Result ℕ × W → Option Err × W
  compared size (err e, w) = failing "recv data with grpc stream" e w
  compared size (ok copied_length, w) =
      if copied_length == size then (none, w) else (some (err_mismatch size copied_length), w)

  abbrev closed : String → ℕ → List Bytes → Option Err × W → Option Err × W
  closed dst_path size chunks (some e, w) = failing "close grpc stream" e w
  closed dst_path size chunks (none, w) = compared size (s.recv dst_path chunks w)

  abbrev sent_file : String → ℕ → Option Err × List Bytes → W → Option Err × W
  sent_file dst_path size (some e, chunks) w = (some e, w)
  sent_file dst_path size (none, chunks) w = closed dst_path size chunks (s.close_send chunks w)

  abbrev sent_path : String → Bytes → Option Err × W → Option Err × W
  sent_path dst_path bytes (some e, w) = failing "send dst path with grpc stream" e w
  sent_path dst_path bytes (none, w) =
      sent_file dst_path (length bytes) (send_file m.channel bytes) w

  abbrev measured : String → String → Bytes → Result (Bool × ℕ) → W → Option Err × W
  measured dst_path archived bytes (err e) w = failing ("get file info of " <> archived) e w
  measured dst_path archived bytes (ok info) w = sent_path dst_path bytes (s.send_path dst_path w)

  abbrev opened_archive : String → String → Result (Bytes × Option Err) → W → Option Err × W
  opened_archive dst_path archived (err e) w = failing ("open archived file " <> archived) e w
  opened_archive dst_path archived (ok (bytes, read_error)) w =
      measured dst_path archived bytes ((m.files w).stat archived) w

  abbrev archived_source : String → Result String × W → Option Err × W
  archived_source dst_path (err e, w) = (some e, w)
  archived_source dst_path (ok archived, w) =
      opened_archive dst_path archived ((m.files w).open_file archived) w

  abbrev found_source : String → String → Result (Bool × ℕ) → W → Option Err × W
  found_source src_path dst_path (err e) w = failing ("get status of file " <> src_path) e w
  found_source src_path dst_path (ok info) w =
      archived_source dst_path (archive_path m.os m.files m.sink m.encode src_path w)

  abbrev created_stream : String → String → Option Err × W → Option Err × W
  created_stream src_path dst_path (some e, w) = failing "create grpc stream to copy to pod" e w
  created_stream src_path dst_path (none, w) =
      found_source src_path dst_path ((m.files w).stat src_path) w

  -- `(*AgentClient).CopyTo`. Where reading the archive stops is the channel's.
  unfoldable pub agent_copy_to : String → String → W → Option Err × W
  unfolding archive_path
  agent_copy_to src_path dst_path w = created_stream src_path dst_path (s.create w)
