-- ===== src/Networking/Put.antt =====
-- Answering a PUT in nonstop_networking/server.c: `put`, for one job that epoll wakes again and
-- again. The file is what the named file holds, or `none` where there is none; open(2) and write(2)
-- on it succeed.
pub mod Kept
pub mod Rounds
pub mod Stored
use system_programming.Base.{
  ℕ, zero, suc, ◌+◌, ◌-◌, ◌*◌, ◌≡◌, List, [], ◌∷◌, ◌++◌, Bool, true, false, ltb, ◌==◌, ◌||◌,
  if◌then◌else◌, Option, none, some, length, drop, take, ◌>>=◌,
}
use system_programming.Clib.Strings.{equals}
use system_programming.Clib.Ints.{int_bound}
use system_programming.Networking.Sockets.{
  Event, Ret, done, blocked, failed, Read, reader, Written, writer,
}
use system_programming.Networking.Get.{ok_bytes}

pub data PutState : Type 0 where
  read_size_state serving_state read_data_state write_response_state done_state error_state :
      PutState

pub record Upload : Type 0 where
  pub state : PutState
  -- The bytes read into the size or into the buffer. `readsz` is their number.
  pub got : List ℕ
  pub datasz : ℕ
  pub filesize : ℕ
  pub file : Option (List ℕ)
  pub writesz : ℕ
  pub wire : List ℕ
  -- file_list of the server.
  pub listed : List (List ℕ)

-- A function that returns to the event loop, or goes on: the job, the events and the stream left.
pub record Outcome : Type 0 where
  pub ret : Ret
  pub job : Upload
  pub events : List Event
  pub stream : List ℕ

-- The size_t whose lowest bytes these are; the others are 0.
unfoldable pub size_of : List ℕ → ℕ
size_of [] = 0
size_of (c ∷ cs) = c + 256 * size_of cs

-- reader(fd, buffer + readsz, count - readsz, &offset); readsz += offset.
unfoldable pub read_more : ℕ → Upload → List Event → List ℕ → Outcome
read_more count u evs str =
    let r = reader evs str (count - length u.got) in
    record {
      ret = r.ret;
      job = record u { got = u.got ++ r.got };
      events = r.events;
      stream = r.stream;
    }

-- The size has been read.
abbrev pub size_read : Upload → Upload
size_read u = record u { filesize = size_of u.got; state = serving_state; got = [] }

-- What the file holds after the buffer was written, the datasz after it, and the tests on it.
abbrev pub refused : Upload → Upload
refused u = record u { state = error_state; file = none }

unfoldable pub settle : Upload → List ℕ → Upload
settle u old =
    let n = u.datasz + length u.got in
    let v = record u { datasz = n; file = some (old ++ u.got) } in
    if ltb u.filesize n
    then refused v
    else if n == u.filesize
    then record v { state = done_state; got = [] }
    else if ltb (length u.got) 1024
    then refused v
    else record v { state = read_data_state; got = [] }

abbrev pub content : Option (List ℕ) → List ℕ
content none = []
content (some bytes) = bytes

-- What follows a call of reader that returned 0, or a return to the event loop.
abbrev pub if_read : Outcome → (Upload → Upload) → Outcome
if_read o next = elim o.ret [ done ↦ record o { job = next o.job } | blocked ↦ o | failed ↦ o ]

-- `if (myjob->state == READ_SIZE)`.
unfoldable pub size_part : Upload → List Event → List ℕ → Outcome
size_part u evs str = if_read (read_more 8 u evs str) size_read

-- `if (myjob->state == SERVING)`: the file is cut to length 0 first.
unfoldable pub first_part : Upload → List Event → List ℕ → Outcome
first_part u evs str = if_read (read_more 1024 u evs str) (λ v. settle v [])

-- A round of the loop `while (myjob->state == READ_DATA)`.
unfoldable pub next_part : Upload → List Event → List ℕ → Outcome
next_part u evs str = if_read (read_more 1024 u evs str) (λ v. settle v (content v.file))

abbrev pub goes_on : Ret → PutState → Bool
goes_on done read_data_state = true
goes_on done read_size_state = false
goes_on done serving_state = false
goes_on done write_response_state = false
goes_on done done_state = false
goes_on done error_state = false
goes_on blocked s = false
goes_on failed s = false

-- That loop, entered in its state; `none` when the fuel runs out.
unfoldable pub data_rounds : ℕ → Upload → List Event → List ℕ → Option Outcome
data_rounds zero u evs str = none
data_rounds (suc k) u evs str =
    let o = next_part u evs str in
    let rest = data_rounds k o.job o.events o.stream in
    if goes_on o.ret (o.job).state then rest else some o

-- strcmp with the names that the loop sees.
unfoldable pub is_listed : List ℕ → List (List ℕ) → Bool
is_listed name [] = false
is_listed name (n ∷ ns) = equals n name || is_listed name ns

abbrev pub responded : Ret → Upload → Upload
responded done v = record v { writesz = 0; state = done_state }
responded blocked v = v
responded failed v = v

-- write_response for a PUT: shutdown, close and DONE when all of it went out.
unfoldable pub respond : Upload → List Event → List ℕ → Outcome
respond u evs str =
    let w = writer evs (drop u.writesz ok_bytes) in
    let v = record u { writesz = u.writesz + length w.sent; wire = u.wire ++ w.sent } in
    record { ret = done; job = responded w.ret v; events = w.events; stream = str }

-- `for (int i = 0; i < (int)vector_size(file_list); i++)`.
unfoldable pub is_known : List ℕ → List (List ℕ) → Bool
is_known name listed = is_listed name (take (int_bound (length listed)) listed)

-- The end of put, whose result is 0 whatever write_response returns.
unfoldable pub job_done : List ℕ → Upload → List Event → List ℕ → Outcome
job_done name u evs str =
    respond
      (record u {
        listed = if is_known name u.listed then u.listed else u.listed ++ name ∷ [];
        state = write_response_state;
      })
      evs str

-- Behind the reading of data: `return` where that returned, or the end of put.
abbrev pub after_data : List ℕ → Ret → PutState → Outcome → Outcome
after_data name blocked s o = o
after_data name failed s o = o
after_data name done error_state o = o
after_data name done read_size_state o = job_done name o.job o.events o.stream
after_data name done serving_state o = job_done name o.job o.events o.stream
after_data name done read_data_state o = job_done name o.job o.events o.stream
after_data name done write_response_state o = job_done name o.job o.events o.stream
after_data name done done_state o = job_done name o.job o.events o.stream

abbrev pub finish : List ℕ → Option Outcome → Option Outcome
finish name o = o >>= λ p. some (after_data name p.ret (p.job).state p)

-- From SERVING on, and from READ_SIZE on, up to the end of the reading of data.
unfoldable pub serve : ℕ → Upload → List Event → List ℕ → Option Outcome
serve k u evs str =
    let o = first_part u evs str in
    let rest = data_rounds k o.job o.events o.stream in
    if goes_on o.ret (o.job).state then rest else some o

abbrev pub after_size : ℕ → Ret → Outcome → Option Outcome
after_size k done o = serve k o.job o.events o.stream
after_size k blocked o = some o
after_size k failed o = some o

unfoldable pub receive : ℕ → PutState → Upload → List Event → List ℕ → Option Outcome
receive k read_size_state u evs str = let o = size_part u evs str in after_size k o.ret o
receive k serving_state u evs str = serve k u evs str
receive k read_data_state u evs str = data_rounds k u evs str
receive k write_response_state u evs str =
    some (record { ret = done; job = u; events = evs; stream = str })
receive k done_state u evs str = some (record { ret = done; job = u; events = evs; stream = str })
receive k error_state u evs str = some (record { ret = done; job = u; events = evs; stream = str })

-- int put(job *myjob).
unfoldable pub put : ℕ → List ℕ → Upload → List Event → List ℕ → Option Outcome
put k name u evs str = finish name (receive k u.state u evs str)

-- The job when read_header has accepted a PUT.
unfoldable pub accepted_put : List (List ℕ) → Option (List ℕ) → Upload
accepted_put listed file = record {
  state = read_size_state;
  got = [];
  datasz = 0;
  filesize = 0;
  file = file;
  writesz = 0;
  wire = [];
  listed = listed;
}

-- The calls of put for a job, one for each time that epoll reports its socket.
unfoldable pub puts : ℕ → List ℕ → List (List Event) → Upload → List ℕ → Option (Upload × List ℕ)
puts k name [] u str = some (u, str)
puts k name (evs ∷ wakeups) u str = do o ← put k name u evs str; puts k name wakeups o.job o.stream
