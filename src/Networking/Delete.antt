-- ===== src/Networking/Delete.antt =====
-- Answering a DELETE in nonstop_networking/server.c: openfile, handle_delete and write_err, for one
-- job that epoll wakes again and again. The names of file_list are memory of other jobs, and `none`
-- is a use of the job's own file name after it was freed.
pub mod Freed
use system_programming.Base.{
  some_inj, ℕ, zero, suc, ◌+◌, ◌<◌, ◌≤◌, ◌≡◌, ◌≢◌, refl, sym, ap, ◌∙◌, List, [], ◌∷◌, ◌++◌, Bool,
  true, false, Bool-cases, inl, inr, ltb, leb, if◌then◌else◌, Option, none, some, length, drop,
  ◌>>=◌, arith,
}
use system_programming.Clib.Strings.{equals, equals_refl}
use system_programming.Networking.Sockets.{Event, Ret, done, blocked, failed, Written, writer}
use system_programming.Networking.Get.{ok_bytes}
use system_programming.Networking.Put.{
  PutState, read_size_state, read_data_state, serving_state, write_response_state, done_state,
  error_state,
}

pub record Deletion : Type 0 where
  pub state : PutState
  -- j->filename has not been freed.
  pub named : Bool
  pub file : Option (List ℕ)
  pub listed : List (List ℕ)
  pub writesz : ℕ
  pub wire : List ℕ

-- A return to the event loop.
pub record Answer : Type 0 where
  pub ret : Ret
  pub job : Deletion
  pub events : List Event

abbrev pub opened : Option (List ℕ) → Deletion → Bool × Deletion
opened none d = (false, record d { state = error_state })
opened (some bytes) d = (true, d)

-- int openfile(job *j): whether the file can be opened, and the job.
unfoldable pub openfile : Deletion → Bool × Deletion
openfile d = opened d.file d

abbrev pub keep_name : List ℕ → Option (List (List ℕ) × Bool) → Option (List (List ℕ) × Bool)
keep_name n rest = rest >>= λ r. some (n ∷ r.0, r.1)

-- The loop over file_list from an index on, whether j->filename is there, and whether the first name
-- is stepped over: vector_erase moves the names behind to the front, and `i++` follows. The list holds
-- fewer than 2^31 names, whose number `(int)` keeps.
unfoldable pub erase_name : List ℕ → Bool → Bool → List (List ℕ) → Option (List (List ℕ) × Bool)
erase_name name named skips [] = some ([], named)
erase_name name named skips (n ∷ ns) =
    let rest = keep_name n (erase_name name named false ns) in
    let behind = erase_name name false true ns in
    if skips then rest else if named then (if equals n name then behind else rest) else none

-- `ret = writer(...)` on bytes + writesz, for a message that ends the job.
abbrev pub ended : Ret → Deletion → Deletion
ended done d = record d { writesz = 0; state = done_state }
ended blocked d = d
ended failed d = d

unfoldable pub send_last : List ℕ → Deletion → List Event → Answer
send_last bytes d evs =
    let w = writer evs (drop d.writesz bytes) in
    let sent = record d { writesz = d.writesz + length w.sent; wire = d.wire ++ w.sent } in
    record { ret = w.ret; job = ended w.ret sent; events = w.events }

-- "ERROR\n".
abbrev pub error_bytes : List ℕ
error_bytes = b'E' ∷ b'R' ∷ b'R' ∷ b'O' ∷ b'R' ∷ b'\n' ∷ []

-- int write_err(job *j), with j->errmsg.
unfoldable pub write_err : List ℕ → Deletion → List Event → Option Answer
write_err message d evs =
    if d.named
    then some (send_last (error_bytes ++ message) (record d { named = false }) evs)
    else none

-- The file and its name are gone: `j->state = WRITE_RESPONSE` and write_response.
unfoldable pub respond_removed : Deletion → List Event → List (List ℕ) × Bool → Answer
respond_removed d evs r =
    send_last ok_bytes
      (record d { file = none; listed = r.0; named = r.1; state = write_response_state }) evs

-- remove(3), which succeeds on a file that can be opened, and what follows.
unfoldable pub remove_file : List ℕ → Deletion → List Event → Option Answer
remove_file name d evs =
    erase_name name d.named false d.listed >>= λ r. some (respond_removed d evs r)

abbrev pub delete_opened : List ℕ → Bool × Deletion → List Event → Option Answer
delete_opened name (true, d) evs = remove_file name d evs
delete_opened name (false, d) evs = some (record { ret = done; job = d; events = evs })

abbrev pub is_error : PutState → Bool
is_error error_state = true
is_error read_size_state = false
is_error serving_state = false
is_error read_data_state = false
is_error write_response_state = false
is_error done_state = false

-- int handle_delete(job *j).
unfoldable pub handle_delete : List ℕ → Deletion → List Event → Option Answer
handle_delete name d evs =
    if is_error d.state
    then some (record { ret = done; job = d; events = evs })
    else if d.named
    then delete_opened name (openfile d) evs
    else none

-- The job when read_header has accepted a DELETE.
unfoldable pub accepted_delete : List (List ℕ) → Option (List ℕ) → Deletion
accepted_delete listed file = record {
  state = serving_state;
  named = true;
  file = file;
  listed = listed;
  writesz = 0;
  wire = [];
}
