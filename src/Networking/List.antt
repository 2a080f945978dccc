-- ===== src/Networking/List.antt =====
-- Answering a LIST in nonstop_networking/server.c: `list`, for one job that epoll wakes again and
-- again. The buffer flist is the bytes that it holds before the NUL, and sending more than these is a
-- fault.
pub mod Exact
pub mod Again
use system_programming.Base.{
  subst, lt→ltb, ℕ, zero, suc, ◌+◌, ◌-◌, ◌^◌, ◌%◌, ◌<◌, ◌≡◌, refl, sym, ap, ◌∙◌, inl, inr, List, [],
  ◌∷◌, ◌++◌, Bool, true, false, Bool-cases, leb, ltb, ◌==◌, ◌&&◌, ◌>>=◌, if◌then◌else◌, Option,
  none, some, length, length-append, take, append_assoc, append-nil, arith,
}
use system_programming.Clib.Strings.{newline}
use system_programming.Clib.Ints.{int_bound}
use system_programming.Networking.Sockets.{
  Event, again, interrupted, moves, fails, closed, Ret, done, blocked, failed, writer, NeverClosed,
  all, blocks_here, breaks_here, writer-Sent,
}
use system_programming.Networking.Get.{
  Phase, write_response_state, write_size_state, write_data, finished, Sending, Step, ok_bytes,
  write_response, size_bytes, write_size, write_rest, goes_on, opened_file,
}
use system_programming.Networking.Get.Exact.{Answered}

-- What strcat adds for the names behind the first one.
unfoldable pub more_names : List (List ℕ) → List ℕ
more_names [] = []
more_names (n ∷ ns) = (newline ∷ n) ++ more_names ns

-- flist, when it is built.
unfoldable pub flist : List (List ℕ) → List ℕ
flist [] = []
flist (n ∷ ns) = n ++ more_names ns

-- The names that the loops `for (int i = ...; i < (int)vector_size(file_list); i++)` see.
unfoldable pub file_names : List (List ℕ) → List (List ℕ)
file_names names = take (int_bound (length names)) names

-- len: strlen + 1 of every name. An int, given by its 32 bits.
unfoldable pub names_size : List (List ℕ) → ℕ
names_size [] = 0
names_size (n ∷ ns) = (length n + 1 + names_size ns) % 2 ^ 32

-- realloc to len bytes, the names and the NUL. A negative len is a size above 2^63, for which realloc
-- gives NULL, and a len that is too small is written over: both are faults, `none`.
unfoldable pub build_flist : List (List ℕ) → Option (List ℕ)
build_flist ns =
    let len = names_size ns in
    let bytes = flist ns in if ltb len (2 ^ 31) && ltb (length bytes) len then some bytes else none

-- `if (j->state == SERVING)`: the buffer, and the job with the size and the state.
unfoldable pub listing : List (List ℕ) → Option (List ℕ × Sending)
listing [] = some ([], opened_file [])
listing (n ∷ ns) =
    let names = file_names (n ∷ ns) in
    build_flist names >>= λ bytes.
    some (bytes, record (opened_file []) { filesize = names_size names - 1 })

-- How a call of list ends: the fuel of the model is used up, memory behind a buffer is written or bytes
-- go out that were never written to one, or the call returns.
pub data Run : Type 0 where
  out_of_fuel faulted : Run
  returns : Step → Run

-- The kernel reads filesize - writesz bytes from flist + writesz, unless it takes none.
unfoldable pub reads_buffer : List Event → Bool
reads_buffer [] = false
reads_buffer (moves n ∷ evs) = true
reads_buffer (again ∷ evs) = false
reads_buffer (interrupted ∷ evs) = reads_buffer evs
reads_buffer (fails ∷ evs) = false
reads_buffer (closed ∷ evs) = false

-- A chunk is out: `j->datasz += j->writesz; j->writesz = 0;` and the test for the end.
unfoldable pub part_out : Sending → Sending
part_out s = record s {
  datasz = s.datasz + s.writesz;
  writesz = 0;
  phase = if leb s.filesize (s.datasz + s.writesz) then finished else write_data;
}

-- A round of `while (j->state == WRITE_DATA)` on a buffer with the bytes `bytes`; `none` where a byte
-- behind them is written to the socket.
unfoldable pub list_round : List ℕ → Sending → List Event → Option Step
list_round bytes s evs =
    if ltb s.writesz s.filesize && ltb (length bytes) s.filesize && reads_buffer evs
    then none
    else some (write_rest (take s.filesize bytes) part_out s evs)

abbrev pub after_round : Option Step → (Step → Run) → Run
after_round none f = faulted
after_round (some r) f = f r

unfoldable pub list_loop : ℕ → List ℕ → Sending → List Event → Run
list_loop zero bytes s evs = out_of_fuel
list_loop (suc k) bytes s evs = after_round (list_round bytes s evs) (λ r.
    let rest = list_loop k bytes r.job r.events in
    if goes_on r.ret (r.job).phase then rest else returns r)

-- list from its WRITE_SIZE on, with the buffer of this call.
unfoldable pub list_data : ℕ → List ℕ → Step → Run
list_data k bytes r =
    let rest = list_loop k bytes r.job r.events in
    if goes_on r.ret (r.job).phase then rest else returns r

abbrev pub list_size : ℕ → List ℕ → Ret → Step → Run
list_size k bytes done r = list_data k bytes (write_size r.job r.events)
list_size k bytes blocked r = returns r
list_size k bytes failed r = returns r

-- list behind the state SERVING, in the state that the job is in.
unfoldable pub list_from : ℕ → List ℕ → Phase → Sending → List Event → Run
list_from k bytes write_response_state s evs =
    let r = write_response s evs in list_size k bytes r.ret r
list_from k bytes write_size_state s evs = list_data k bytes (write_size s evs)
list_from k bytes write_data s evs = list_loop k bytes s evs
list_from k bytes finished s evs = returns (record { ret = done; job = s; events = evs })

abbrev pub list_built : ℕ → Option (List ℕ × Sending) → List Event → Run
list_built k none evs = faulted
list_built k (some (bytes, s)) evs = list_from k bytes write_response_state s evs

-- int list(job *j), for a job in the state SERVING, with the names of file_list.
unfoldable pub list : ℕ → List (List ℕ) → List Event → Run
list k names evs = list_built k (listing names) evs

-- int list(job *j), for a job that is woken again: flist is `malloc(1)`.
unfoldable pub list_again : ℕ → Sending → List Event → Run
list_again k s evs = list_from k [] s.phase s evs
