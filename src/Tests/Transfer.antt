-- ===== src/Tests/Transfer.antt =====
-- The copy streams at concrete files.
use kubejob.Prelude.{◌≡◌, refl, none, some, [], ◌∷◌, length, leb, if◌then◌else◌, arith}
use kubejob.Errors.{plain}
use kubejob.Transfer.{
  Bytes, Channel, send_file, receive_loop, server_copy_from, client_copy_from, client_copy_to,
}
use kubejob.Transfer.Whole.{ReadsSome, joined, client_copy_to-whole, copy_from_hides_error}

-- Two bytes a read; nothing fails.
abbrev sound : Channel
sound = record {
  read_length = λ bytes. 2;
  read_error = λ bytes. none;
  send_error = λ chunk. none;
  write_error = λ chunk. none;
}

-- A file that cannot be read to its end.
abbrev broken : Channel
broken = record sound {
  read_error = λ bytes. if leb (length bytes) 2 then some (plain "read error") else none;
}

sound-ReadsSome : ReadsSome sound
sound-ReadsSome = record { some_byte = λ b bytes. omega arith; buffer = λ bytes. omega arith }

broken-ReadsSome : ReadsSome broken
broken-ReadsSome = record { some_byte = λ b bytes. omega arith; buffer = λ bytes. omega arith }

abbrev file : Bytes
file = 1 ∷ 2 ∷ 3 ∷ 4 ∷ 5 ∷ []

copied_to : (client_copy_to sound sound file).0 ≡ none
unfolding client_copy_to kubejob.Transfer.send_loop receive_loop
copied_to = refl

client_copy_to-whole_example : (client_copy_to sound sound file).1 ≡ file
client_copy_to-whole_example = client_copy_to-whole sound sound file sound-ReadsSome copied_to

copied_from : (client_copy_from sound (server_copy_from broken file)).0 ≡ none
unfolding client_copy_from server_copy_from receive_loop kubejob.Transfer.send_loop
copied_from = refl

fails_to_read : (send_file broken file).0 ≡ some (plain "read error")
unfolding kubejob.Transfer.send_loop
fails_to_read = refl

all_written : (receive_loop sound (send_file broken file).1 [] 0).0 ≡ none
unfolding receive_loop kubejob.Transfer.send_loop
all_written = refl

copy_from_hides_error_example :
    client_copy_from sound (server_copy_from broken file) ≡ (none, joined (send_file broken file).1)
copy_from_hides_error_example =
    copy_from_hides_error sound broken file (plain "read error") fails_to_read all_written
