-- ===== src/AgentCopy/Whole.antt =====
-- `CopyFrom` of agent_client.go from end to end: the archive of the agent, received and extracted.
use kubejob.Prelude.{
  ℕ, ◌≡◌, refl, sym, ap, ◌∙◌, String, true, false, Option, none, List, [], ◌∷◌, ◌++◌, ◌+◌, length,
  All, is_empty, arith,
}
use mathlib.Core.List.{append-nil}
use kubejob.Errors.{Err, Result, ok}
use kubejob.Paths.{dir}
use kubejob.Os.{Bytes}
use kubejob.Untar.Placed.{Effects, unfailing}
use kubejob.Transfer.{Channel, send_file, receive_loop, server_copy_from, client_copy_from}
use kubejob.Transfer.Whole.{ReadsSome, is_nil, client_copy_from-begins}
use kubejob.Archive.{extract_archived_file}
use kubejob.Archive.Created.{Member, IsMember, member_entries, all_created, extract_entries-created}
use kubejob.AgentCopy.{Machine, open_archive, archive_of, download, agent_copy_from}

is_nil-nil : (l : Bytes) → is_nil l ≡ true → l ≡ []
is_nil-nil [] h = refl
is_nil-nil (b ∷ l) h = absurd (cc h)

-- A received file is the file that was sent, if neither side failed.
client_copy_from-whole :
    (client server : Channel) (file : Bytes)
    → ReadsSome server
    → (send_file server file).0 ≡ none
    → (client_copy_from client (server_copy_from server file)).0 ≡ none
    → client_copy_from client (server_copy_from server file) ≡ (none, file)
client_copy_from-whole client server file reads sent got =
    let (rest, split, all) = client_copy_from-begins client server file reads got in
    let nothing : rest ≡ [] = is_nil-nil rest (ground (arith, all, sent)) in
    let received = client_copy_from client (server_copy_from server file) in
    λ i. (got i, (sym (append-nil received.1) ∙ ap (λ l. received.1 ++ l) (sym nothing) ∙ split) i)

receive_loop-none :
    (c : Channel) (chunks : List Bytes) (written : Bytes) (n : ℕ)
    → ((chunk : Bytes) → c.write_error chunk ≡ none)
    → (receive_loop c chunks written n).0 ≡ none
unfolding receive_loop
receive_loop-none c [] written n h = refl
receive_loop-none c (chunk ∷ chunks) written n h =
    rw (receive_loop, h chunk) (receive_loop-none c chunks (written ++ chunk) (n + length chunk) h)

client_copy_from-none :
    (client server : Channel) (file : Bytes)
    → ((chunk : Bytes) → client.write_error chunk ≡ none)
    → (client_copy_from client (server_copy_from server file)).0 ≡ none
unfolding client_copy_from server_copy_from
client_copy_from-none client server file h =
    let wrote = receive_loop-none client (send_file server file).1 [] 0 h in ground (arith, wrote)

module _ {W : Type 0} (m : Machine W) (fx : Effects W) (server : Channel) where
  -- The machine of the client, with an operating system in which no call fails.
  abbrev pub sound_machine : Machine W
  sound_machine = record m { os = unfailing fx }

  -- The world when the archive is written.
  abbrev pub received_at : String → Bytes → W → W
  received_at archived bytes w =
      fx.write archived bytes (fx.create archived (fx.make (dir archived) w))

  download-whole :
      (stream : String → W → Result (List Bytes × Option Err) × W) (src_path archived : String)
      (bytes : Bytes) (w w1 : W)
      → stream src_path w ≡ (ok ((server_copy_from server bytes).1, none), w1)
      → client_copy_from m.channel (server_copy_from server bytes) ≡ (none, bytes)
      → download sound_machine stream src_path archived w ≡ (none, received_at archived bytes w1)
  unfolding download server_copy_from
  download-whole stream src_path archived bytes w w1 s c = rw (s, c) refl

  extract-whole :
      (archived dst_path : String) (bytes : Bytes) (fs : List Member) (w : W)
      → is_empty dst_path ≡ false
      → All IsMember fs
      → (m.files w).open_file archived ≡ ok (bytes, none)
      → m.decode bytes none ≡ record { entries = member_entries fs; ending = none }
      → extract_archived_file (unfailing fx) (open_archive sound_machine) archived dst_path w
        ≡ (none, all_created fx dst_path fs w)
  unfolding extract_archived_file
  extract-whole archived dst_path bytes fs w d h o c =
      rw (o, c) (extract_entries-created fx dst_path archived fs w d h)

  -- When the call of the agent gives the chunks of the archive that the agent has on its disk, which it
  -- can read and send to the end, no write of the client and no call of its operating system fails,
  -- what it has written is read back, and the tar reader finds files in it whose names name files: then
  -- `CopyFrom` of the client returns nil, the files are made as `all_created` says, with mode and
  -- content, and the received archive is removed. Of the agent's reads it is assumed that one gives a
  -- byte at least and the buffer at most, and the destination is not empty.
  pub agent_copy_from-whole :
      (stream : String → W → Result (List Bytes × Option Err) × W) (src_path dst_path : String)
      (bytes : Bytes) (fs : List Member) (w w1 : W)
      → is_empty dst_path ≡ false
      → ReadsSome server
      → (send_file server bytes).0 ≡ none
      → ((chunk : Bytes) → m.channel.write_error chunk ≡ none)
      → stream src_path w ≡ (ok ((server_copy_from server bytes).1, none), w1)
      → (m.files (received_at (archive_of m dst_path w) bytes w1)).open_file
          (archive_of m dst_path w)
        ≡ ok (bytes, none)
      → m.decode bytes none ≡ record { entries = member_entries fs; ending = none }
      → All IsMember fs
      → agent_copy_from sound_machine stream src_path dst_path w ≡ (
        none,
        fx.remove
            (archive_of m dst_path w)
            (all_created fx dst_path fs (received_at (archive_of m dst_path w) bytes w1)),
      )
  unfolding agent_copy_from
  agent_copy_from-whole stream src_path dst_path bytes fs w w1 d reads sent writes s o c h =
      let archived = archive_of m dst_path w in
      let got =
        client_copy_from-whole m.channel server bytes reads sent
          (client_copy_from-none m.channel server bytes writes) in
      let w2 = received_at archived bytes w1 in
      rw
        (
          download-whole stream src_path archived bytes w w1 s got,
          extract-whole archived dst_path bytes fs w2 d h o c,
        )
        refl
