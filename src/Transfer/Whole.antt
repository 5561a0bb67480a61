-- ===== src/Transfer/Whole.antt =====
-- Whether the bytes of a file arrive whole through the copy streams of the agent.
use kubejob.Prelude.{
  ◌||◌, is_some, ℕ, zero, suc, ◌+◌, ◌≤◌, ◌<◌, ◌≡◌, refl, sym, ap, ◌∙◌, Bool, true, false, Option,
  none, some, List, [], ◌∷◌, ◌++◌, All, length, length-append, take, drop, arith, Option-cases, inl,
  inr,
}
use mathlib.Core.List.{append_assoc, append-nil}
use kubejob.Errors.{Err}
use kubejob.Transfer.{
  send_chunk, Bytes, Channel, default_stream_file_chunk_size, send_loop, send_file, receive_loop,
  server_copy_from, client_copy_from, client_copy_to,
}

-- What is known of `f.Read`: of what is left, it gives a byte at least and the buffer at most.
pub record ReadsSome (c : Channel) : Type 0 where
  pub some_byte : (b : ℕ) (bytes : Bytes) → 0 < c.read_length (b ∷ bytes)
  pub buffer : (bytes : Bytes) → c.read_length bytes ≤ default_stream_file_chunk_size

abbrev pub is_nil : Bytes → Bool
is_nil [] = true
is_nil (b ∷ bytes) = false

abbrev pub joined : List Bytes → Bytes
joined [] = []
joined (chunk ∷ chunks) = chunk ++ joined chunks

take-drop : (n : ℕ) (xs : Bytes) → take n xs ++ drop n xs ≡ xs
take-drop zero xs = refl
take-drop (suc n) [] = refl
take-drop (suc n) (x ∷ xs) = ap (λ l. x ∷ l) (take-drop n xs)

length-drop : (n b : ℕ) (xs : Bytes) → 0 < n → length (drop n (b ∷ xs)) ≤ length xs
length-drop zero b xs h = absurd (omega arith)
length-drop (suc zero) b xs h = omega arith
length-drop (suc (suc n)) b [] h = omega arith
length-drop (suc (suc n)) b (x ∷ xs) h = omega (arith, length-drop (suc n) x xs (omega arith))

length-take : (n : ℕ) (xs : Bytes) → length (take n xs) ≤ n
length-take zero xs = omega arith
length-take (suc n) [] = omega arith
length-take (suc n) (x ∷ xs) = omega (arith, length-take n xs)

-- What was sent, in chunks of a buffer, is a beginning of the file, and all of it if no error ended
-- the loop.
pub record Sent (file : Bytes) (r : Option Err × List Bytes) : Type 0 where
  pub rest : Bytes
  pub split : joined r.1 ++ rest ≡ file
  pub whole : r.0 ≡ none → rest ≡ []
  pub chunked : All (λ chunk. length chunk ≤ default_stream_file_chunk_size) r.1

error-Sent : (file : Bytes) (x : Err) → Sent file (some x, [])
error-Sent file x = record { rest = file; split = refl; whole = λ e. absurd (cc e); chunked = tt }

send_chunk-Sent :
    (read_error send_error : Option Err) (n : ℕ) (file : Bytes) (later : Option Err × List Bytes)
    → n ≤ default_stream_file_chunk_size
    → Sent (drop n file) later
    → Sent file (send_chunk read_error send_error (take n file) later)
send_chunk-Sent (some x) send_error n file later h s = error-Sent file x
send_chunk-Sent none (some x) n file later h s = error-Sent file x
send_chunk-Sent none none n file later h s = record {
  rest = s.rest;
  split =
      append_assoc (take n file) (joined later.1) s.rest
      ∙ ap (λ l. take n file ++ l) s.split
      ∙ take-drop n file;
  whole = s.whole;
  chunked = (omega (arith, length-take n file), s.chunked);
}

module _ (c : Channel) (reads : ReadsSome c) where
  send_loop-Sent :
      (rounds : ℕ) (file : Bytes) → length file ≤ rounds → Sent file (send_loop c rounds file)
  unfolding send_loop
  send_loop-Sent rounds [] h = record { rest = []; split = refl; whole = λ e. refl; chunked = tt }
  send_loop-Sent zero (b ∷ bytes) h = absurd (omega arith)
  send_loop-Sent (suc rounds) (b ∷ bytes) h =
      let n = c.read_length (b ∷ bytes) in
      let shorter = length-drop n b bytes (reads.some_byte b bytes) in
      send_chunk-Sent (c.read_error (b ∷ bytes)) (c.send_error (take n (b ∷ bytes))) n (b ∷ bytes)
        (send_loop c rounds (drop n (b ∷ bytes))) (reads.buffer (b ∷ bytes))
        (send_loop-Sent rounds (drop n (b ∷ bytes)) (omega (arith, shorter)))

  -- Whatever fails, the chunks that a sender has sent are no larger than the buffer and make up a
  -- beginning of the file, and the whole file if the sender reports no error.
  pub send_file-Sent : (file : Bytes) → Sent file (send_file c file)
  send_file-Sent file = send_loop-Sent (length file) file (omega arith)

-- What was written, when no write failed.
received :
    (c : Channel) (chunks : List Bytes) (written : Bytes) (n : ℕ)
    → (receive_loop c chunks written n).0 ≡ none
    → ((receive_loop c chunks written n).1 ≡ written ++ joined chunks)
      × ((receive_loop c chunks written n).2 ≡ n + length (joined chunks))
unfolding receive_loop
received c [] written n h = (sym (append-nil written), omega arith)
received c (chunk ∷ chunks) written n h = elim (Option-cases (c.write_error chunk)) [
  | inr (x, e) ↦ absurd (ground arith)
  | inl e ↦
      let step : receive_loop c (chunk ∷ chunks) written n
          ≡ receive_loop c chunks (written ++ chunk) (n + length chunk) =
        rw (e, receive_loop) in
      let (whole, count) =
        received c chunks (written ++ chunk) (n + length chunk) (sym (ap (λ r. r.0) step) ∙ h) in
      (
        ap (λ r. r.1) step ∙ whole ∙ append_assoc written chunk (joined chunks),
        ap (λ r. r.2) step ∙ count ∙ omega (arith, length-append chunk (joined chunks)),
      )
]

joined-Sent :
    (file : Bytes) (r : Option Err × List Bytes) → Sent file r → r.0 ≡ none → joined r.1 ≡ file
joined-Sent file r s h =
    sym (append-nil (joined r.1)) ∙ ap (λ l. joined r.1 ++ l) (sym (s.whole h)) ∙ s.split

nothing_left :
    (file : Bytes) (r : Option Err × List Bytes) (s : Sent file r)
    → (is_some r.0 || is_nil s.rest) ≡ true
nothing_left file r s = elim (Option-cases r.0) [
  | inl e ↦ ground (arith, s.whole e)
  | inr (x, e) ↦ ground arith
]

module _ (client server : Channel) where
  -- If a read of the client gives a byte at least and the buffer at most, and `CopyTo` returns nil, the
  -- agent has written exactly the bytes of the archive, wherever a read, a send or a write may fail.
  pub client_copy_to-whole :
      (file : Bytes)
      → ReadsSome client
      → (client_copy_to client server file).0 ≡ none
      → (client_copy_to client server file).1 ≡ file
  unfolding client_copy_to
  client_copy_to-whole file reads h =
      let s = send_file-Sent client reads file in
      let sent : (send_file client file).0 ≡ none = ground arith in
      let wrote : (receive_loop server (send_file client file).1 [] 0).0 ≡ none = ground arith in
      let written : (client_copy_to client server file).1
          ≡ (receive_loop server (send_file client file).1 [] 0).1 =
        ground arith in
      written ∙ (received server (send_file client file).1 [] 0 wrote).0 ∙ joined-Sent file _ s sent

  -- If a read of the agent gives a byte at least and the buffer at most, and `copyFrom` returns nil, what it has written is a beginning of the agent's
  -- archive, and all of it if the agent could read and send it.
  pub client_copy_from-begins :
      (file : Bytes)
      → ReadsSome server
      → (client_copy_from client (server_copy_from server file)).0 ≡ none
      → (rest : Bytes) × ((client_copy_from client (server_copy_from server file)).1 ++ rest ≡ file)
        × ((is_some (send_file server file).0 || is_nil rest) ≡ true)
  unfolding client_copy_from server_copy_from
  client_copy_from-begins file reads h =
      let s = send_file-Sent server reads file in
      let wrote : (receive_loop client (send_file server file).1 [] 0).0 ≡ none = ground arith in
      let written : (client_copy_from client (server_copy_from server file)).1
          ≡ (receive_loop client (send_file server file).1 [] 0).1 =
        ground arith in
      let got = written ∙ (received client (send_file server file).1 [] 0 wrote).0 in
      (s.rest, ap (λ l. l ++ s.rest) got ∙ s.split, nothing_left file _ s)

  -- An error of the agent while it reads or sends its archive does not reach the client: if the
  -- writes of the client succeed, it returns nil, and has the part that was sent for the whole.
  pub copy_from_hides_error :
      (file : Bytes) (x : Err)
      → (send_file server file).0 ≡ some x
      → (receive_loop client (send_file server file).1 [] 0).0 ≡ none
      → client_copy_from client (server_copy_from server file)
        ≡ (none, joined (send_file server file).1)
  unfolding client_copy_from server_copy_from
  copy_from_hides_error file x h wrote =
      let ends : client_copy_from client (server_copy_from server file)
          ≡ (none, (receive_loop client (send_file server file).1 [] 0).1) =
        ground arith in
      ends ∙ ap (λ l. (none, l)) (received client (send_file server file).1 [] 0 wrote).0
