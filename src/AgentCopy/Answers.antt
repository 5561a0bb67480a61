-- ===== src/AgentCopy/Answers.antt =====
-- What the agent's answer to `CopyTo` says of the extraction, and what `CopyFrom` says of it.
use kubejob.Prelude.{ℕ, ◌≡◌, refl, ◌↔◌, [], String, Option, none, some, List}
use kubejob.Errors.{Err, Result}
use kubejob.Os.{Bytes}
use kubejob.Untar.{TarArchive}
use kubejob.Archive.{extract_archived_file}
use kubejob.Paths.{dir}
use kubejob.Transfer.{receive_loop}
use kubejob.AgentCopy.{
  Machine, answer_sent, stored_chunks, target_created, target_parent, extracted, extract_received,
  open_archive, archive_of, download, agent_copy_from, serve_copy_to,
}

-- The same machine with another tar reader.
abbrev pub with_decode : {W : Type 0} → Machine W → (Bytes → Option Err → TarArchive) → Machine W
with_decode m decode = record m { decode = decode }

module _ {W : Type 0} (m : Machine W) where
  answer-same :
      (decode : Bytes → Option Err → TarArchive) (archived path : String) (n : ℕ)
      (failed : Option Err) (w : W)
      → (answer_sent m archived path n failed w).0.0
        ≡ (answer_sent (with_decode m decode) archived path n failed w).0.0
  answer-same decode archived path n (some e) w = refl
  answer-same decode archived path n none w = refl

  stored-same :
      (decode : Bytes → Option Err → TarArchive) (archived path : String) (respond : ℕ → Option Err)
      (r : Option Err × Bytes × ℕ) (w : W)
      → (stored_chunks m archived path respond r w).0.0
        ≡ (stored_chunks (with_decode m decode) archived path respond r w).0.0
  stored-same decode archived path respond (some e, written, n) w = refl
  stored-same decode archived path respond (none, written, n) w =
      answer-same decode archived path n (respond n) (m.os.write_file archived written w).1

  created-same :
      (decode : Bytes → Option Err → TarArchive) (archived path : String) (respond : ℕ → Option Err)
      (chunks : List Bytes) (r : Option Err × W)
      → (target_created m archived path respond chunks r).0.0
        ≡ (target_created (with_decode m decode) archived path respond chunks r).0.0
  created-same decode archived path respond chunks (some e, w) = refl
  created-same decode archived path respond chunks (none, w) =
      stored-same decode archived path respond (receive_loop m.channel chunks [] 0) w

  parent-same :
      (decode : Bytes → Option Err → TarArchive) (archived path : String) (respond : ℕ → Option Err)
      (chunks : List Bytes) (r : Option Err × W)
      → (target_parent m archived path respond chunks r).0.0
        ≡ (target_parent (with_decode m decode) archived path respond chunks r).0.0
  parent-same decode archived path respond chunks (some e, w) = refl
  parent-same decode archived path respond chunks (none, w) =
      created-same decode archived path respond chunks (m.os.create archived w)

  -- Whatever the archive turns out to hold, and whether it can be extracted or not, the agent has sent
  -- the same response to `CopyTo`: the response says nothing of the extraction.
  pub serve_copy_to-response :
      (respond : ℕ → Option Err) (path : String) (chunks : List Bytes)
      (decode : Bytes → Option Err → TarArchive) (w : W)
      → (serve_copy_to m respond path chunks w).0.0
        ≡ (serve_copy_to (with_decode m decode) respond path chunks w).0.0
  unfolding serve_copy_to
  serve_copy_to-response respond path chunks decode w =
      let archived = archive_of m path w in
      parent-same decode archived path respond chunks (m.os.mkdir_all (dir archived) w)

  extracted-nil :
      (archived : String) (r : Option Err × W)
      → ((extracted m "failed to extract file " archived r).0 ≡ none) ↔ (r.0 ≡ none)
  extracted-nil archived (none, w) = (λ h. refl, λ h. refl)
  extracted-nil archived (some e, w) = (λ h. absurd (cc h), λ h. absurd (cc h))

  extract_received-nil :
      (archived dst_path : String) (r : Option Err × W)
      → ((extract_received m archived dst_path r).0 ≡ none) ↔ (
          (r.0 ≡ none)
          × ((extract_archived_file m.os (open_archive m) archived dst_path r.1).0 ≡ none))
  extract_received-nil archived dst_path (some e, w) = (λ h. absurd (cc h), λ h. absurd (cc (h.0)))
  extract_received-nil archived dst_path (none, w) =
      let both =
        extracted-nil archived (extract_archived_file m.os (open_archive m) archived dst_path w) in
      (λ h. (refl, both.0 h), λ h. both.1 h.1)

  -- `CopyFrom` of the client returns nil if and only if the archive was received without an error and was
  -- extracted without one from the world that the download left.
  pub agent_copy_from-nil :
      (stream : String → W → Result (List Bytes × Option Err) × W) (src_path dst_path : String)
      (w : W)
      → let archived = archive_of m dst_path w in
        let got = download m stream src_path archived w in
        ((agent_copy_from m stream src_path dst_path w).0 ≡ none) ↔ (
          (got.0 ≡ none)
          × ((extract_archived_file m.os (open_archive m) archived dst_path got.1).0 ≡ none))
  unfolding agent_copy_from
  agent_copy_from-nil stream src_path dst_path w =
      let archived = archive_of m dst_path w in
      extract_received-nil archived dst_path (download m stream src_path archived w)
