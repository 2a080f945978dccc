-- ===== src/Networking/Examples.antt =====
-- The theorems on nonstop_networking at concrete requests and sockets.
use system_programming.Base.{
  true, ℕ, ◌≡◌, refl, List, [], ◌∷◌, ◌++◌, none, some, length, suc, arith,
}
use system_programming.Networking.Sockets.{
  closed, Event, moves, again, interrupted, blocked, writer,
}
use system_programming.Networking.Header.{get, init_job, read_headers}
use system_programming.Networking.Header.Exact.{header_of, Served, AnyFailure, init_job-Served}
use system_programming.Networking.List.{
  list, flist, more_names, reads_buffer, listing, list_again, faulted, returns, build_flist,
  names_size, file_names, list_from, list_data, list_loop, list_round,
}
use system_programming.Clib.Ints.{int_bound}
use system_programming.Networking.List.Exact.{Answers, list-Answered}
use system_programming.Networking.List.Again.{list-list_again}
use system_programming.Networking.Delete.{Answer, accepted_delete, handle_delete, respond_removed}
use system_programming.Networking.Delete.Freed.{has_name, handle_delete-has_name}
use system_programming.Networking.Put.{Upload, puts, accepted_put}
use system_programming.Networking.Put.Kept.{Kept}
use system_programming.Networking.Put.Stored.{accepted_put-Kept}
use system_programming.Networking.Get.{
  Step, write_response_state, write_data, ok_bytes, size_bytes, handle_get, opened_file,
  write_response, write_size,
}
use system_programming.Networking.Get.Exact.{Answered, handle_get-Answered}
use system_programming.Networking.Get.Stall.{between, handle_get-stalls}

abbrev word : List ℕ
word = b'a' ∷ b'b' ∷ b'c' ∷ []

abbrev in_two_parts : List Event
in_two_parts = moves 0 ∷ interrupted ∷ moves 5 ∷ []

-- The header of `word` in 7 bytes, in two wakeups.
abbrev two_wakeups : List (List Event)
two_wakeups = (moves 0 ∷ moves 0 ∷ again ∷ []) ∷ [] ∷ []

init_job-Served_example :
    Served get word []
      (AnyFailure two_wakeups)
      (read_headers two_wakeups init_job (header_of get word ++ b'\n' ∷ []))
init_job-Served_example =
    init_job-Served get word [] two_wakeups (λ e. cc) (λ e. cc) (omega arith) (omega arith)
      (
        λ e. cc,
        λ e. cc,
        (
          λ e. cc,
          λ e. cc,
          (
            λ e. cc,
            λ e. cc,
            (λ e. cc, λ e. cc, (λ e. cc, λ e. cc, (λ e. cc, λ e. cc, (λ e. cc, λ e. cc, tt)))),
          ),
        ),
      )
      (tt, (tt, tt))

handle_get-Answered_example : Answered (ok_bytes ++ (size_bytes 8 (length word) ++ word)) (
    handle_get
      (suc (length word))
      write_response_state
      (opened_file word)
      (moves 20 ∷ moves 20 ∷ moves 20 ∷ []))
handle_get-Answered_example =
    handle_get-Answered word (moves 20 ∷ moves 20 ∷ moves 20 ∷ []) (omega arith) tt

handle_get-stalls_example :
    (handle_get 2 write_data (between 0 3 [] word []) (again ∷ [])
      ≡ some (record { ret = blocked; job = between 0 3 word [] []; events = [] }))
    × (handle_get 9 write_data (between 0 3 word [] []) (moves 9 ∷ []) ≡ none)
handle_get-stalls_example =
    handle_get-stalls 1 9 0 [] word [] [] (moves 9 ∷ []) (omega arith) (omega arith)

-- Two bytes of size, the others 0, and "abc": in two wakeups.
abbrev upload : List ℕ
upload = 3 ∷ 0 ∷ 0 ∷ 0 ∷ 0 ∷ 0 ∷ 0 ∷ 0 ∷ word

abbrev upload_wakeups : List (List Event)
upload_wakeups =
    (moves 8 ∷ moves 0 ∷ again ∷ []) ∷ (moves 5 ∷ closed ∷ moves 0 ∷ moves 0 ∷ moves 0 ∷ []) ∷ []

accepted_put-Kept_example :
    (u : Upload) × (rest : List ℕ) × (puts 12 word upload_wakeups (accepted_put [] none) upload
      ≡ some (u, rest))
    × Kept u.state upload u rest
accepted_put-Kept_example = accepted_put-Kept upload 12 word upload_wakeups [] none (omega arith)

abbrev two_names : List (List ℕ)
two_names = (b'd' ∷ []) ∷ (b'e' ∷ []) ∷ []

list-Answered_example :
    Answers
      (ok_bytes ++ (size_bytes 8 3 ++ (b'd' ∷ b'\n' ∷ b'e' ∷ [])))
      (list 2 two_names in_two_parts)
unfolding flist size_bytes more_names
list-Answered_example = list-Answered two_names 1 in_two_parts (omega arith) tt

-- The socket takes the response, the size, and two of three bytes.
abbrev listing_waits : Step
listing_waits = record {
  ret = blocked;
  job = record {
    phase = write_data;
    writesz = 2;
    datasz = 0;
    filesize = 3;
    buf = [];
    file = [];
    wire = ok_bytes ++ (size_bytes 8 3 ++ (b'd' ∷ b'\n' ∷ []));
  };
  events = [];
}

first_call : list 1 two_names (moves 2 ∷ moves 7 ∷ moves 1 ∷ again ∷ []) ≡ returns listing_waits
unfolding list listing build_flist names_size file_names int_bound flist more_names list_from
    write_response writer opened_file list_data write_size size_bytes list_loop list_round
first_call = refl

list-list_again_example : list_again 1 listing_waits.job (moves 5 ∷ []) ≡ faulted
unfolding reads_buffer
list-list_again_example =
    list-list_again two_names 0 0 (moves 2 ∷ moves 7 ∷ moves 1 ∷ again ∷ []) (moves 5 ∷ [])
      listing_waits (omega arith) tt first_call refl refl refl

-- `word` stands first of three names.
handle_delete-has_name_example :
    handle_delete word (accepted_delete (word ∷ two_names) (some word)) in_two_parts ≡ none
unfolding has_name
handle_delete-has_name_example = handle_delete-has_name word [] two_names word in_two_parts refl

-- A file that is not in the list, and a socket that is not ready.
abbrev waiting_answer : Answer
waiting_answer = respond_removed (accepted_delete [] (some word)) [] ([], true)
