-- ===== src/Networking/Get.antt =====
-- Answering a GET in nonstop_networking/server.c: write_response, write_size and handle_get behind
-- its opening of the file, for one job that epoll wakes again and again.
pub mod Exact
pub mod Stall
use system_programming.Base.{
  ℕ, zero, suc, ◌+◌, ◌-◌, ◌*◌, ◌/◌, ◌%◌, ◌<◌, ◌≤◌, ◌≡◌, ◌≢◌, refl, sym, ap, ◌∙◌, ◌⊎◌, inl, inr,
  List, [], ◌∷◌, ◌++◌, Bool, true, false, Bool-cases, ltb, leb, ◌==◌, if◌then◌else◌, Option, none,
  some, length, length-append, length-drop, take, drop, take-append-drop, append-nil, append_assoc,
  arith,
}
use system_programming.Networking.Sockets.{
  Event, again, Ret, done, blocked, failed, Written, writer, writer_exact, NeverClosed, unsent,
}

pub data Phase : Type 0 where
  write_response_state write_size_state write_data finished : Phase

pub record Sending : Type 0 where
  pub phase : Phase
  pub writesz : ℕ
  pub datasz : ℕ
  pub filesize : ℕ
  -- The chunk in the job's buffer. `readsz` is its length.
  pub buf : List ℕ
  -- What read(2) has yet to return of the open file.
  pub file : List ℕ
  -- What went out on the socket.
  pub wire : List ℕ

-- The job after a call of writer on `bytes + writesz`.
abbrev pub sent_more : Sending → List ℕ → Sending
sent_more s bs = record s { writesz = s.writesz + length bs; wire = s.wire ++ bs }

-- A function that returns to the event loop or goes on.
pub record Step : Type 0 where
  pub ret : Ret
  pub job : Sending
  pub events : List Event

-- `if (ret == 1) return 1; if (ret == -1) return -1;` and else what follows.
abbrev pub finish_if : Ret → (Sending → Sending) → Sending → Sending
finish_if done finish s = finish s
finish_if blocked finish s = s
finish_if failed finish s = s

abbrev pub write_rest : List ℕ → (Sending → Sending) → Sending → List Event → Step
write_rest bytes finish s evs =
    let w = writer evs (drop s.writesz bytes) in
    record { ret = w.ret; job = finish_if w.ret finish (sent_more s w.sent); events = w.events }

abbrev pub ok_bytes : List ℕ
ok_bytes = b'O' ∷ b'K' ∷ b'\n' ∷ []

-- int write_response(job *j), for a request that is answered with data.
unfoldable pub write_response : Sending → List Event → Step
write_response = write_rest ok_bytes (λ s. record s { writesz = 0; phase = write_size_state })

-- The bytes of a size_t in memory, the lowest first.
unfoldable pub size_bytes : ℕ → ℕ → List ℕ
size_bytes zero n = []
size_bytes (suc k) n = n % 256 ∷ size_bytes k (n / 256)

-- int write_size(job *j).
unfoldable pub write_size : Sending → List Event → Step
write_size s evs =
    write_rest (size_bytes 8 s.filesize)
      (λ t. record t { writesz = 0; phase = if t.filesize == 0 then finished else write_data }) s
      evs

-- `if (j->writesz == 0) j->readsz = read_all(j->filefd, j->buf, 1024);`
unfoldable pub next_chunk : Sending → Sending
next_chunk s =
    if s.writesz == 0 then record s { buf = take 1024 s.file; file = drop 1024 s.file } else s

-- A chunk is out: `j->datasz += j->writesz; j->writesz = 0;` and the test for the end.
unfoldable pub chunk_out : Sending → Sending
chunk_out s = record s {
  datasz = s.datasz + s.writesz;
  writesz = 0;
  phase = if leb s.filesize (s.datasz + s.writesz) then finished else write_data;
}

-- A round of the loop of handle_get.
unfoldable pub data_round : Sending → List Event → Step
data_round s evs = let t = next_chunk s in write_rest t.buf chunk_out t evs

abbrev pub goes_on : Ret → Phase → Bool
goes_on done write_data = true
goes_on done write_response_state = false
goes_on done write_size_state = false
goes_on done finished = false
goes_on blocked p = false
goes_on failed p = false

-- `while (j->state == WRITE_DATA)`, entered in that state; `none` when the fuel runs out.
unfoldable pub data_loop : ℕ → Sending → List Event → Option Step
data_loop zero s evs = none
data_loop (suc k) s evs =
    let r = data_round s evs in
    let rest = data_loop k r.job r.events in if goes_on r.ret (r.job).phase then rest else some r

-- handle_get from its open file on, in the state that the job is in.
unfoldable pub data_part : ℕ → Step → Option Step
data_part k r =
    let rest = data_loop k r.job r.events in if goes_on r.ret (r.job).phase then rest else some r

abbrev pub size_part : ℕ → Ret → Step → Option Step
size_part k done r = data_part k (write_size r.job r.events)
size_part k blocked r = some r
size_part k failed r = some r

unfoldable pub handle_get : ℕ → Phase → Sending → List Event → Option Step
handle_get k write_response_state s evs = let r = write_response s evs in size_part k r.ret r
handle_get k write_size_state s evs = data_part k (write_size s evs)
handle_get k write_data s evs = data_loop k s evs
handle_get k finished s evs = some (record { ret = done; job = s; events = evs })

-- The job when the file has been opened.
unfoldable pub opened_file : List ℕ → Sending
opened_file file = record {
  phase = write_response_state;
  writesz = 0;
  datasz = 0;
  filesize = length file;
  buf = [];
  file = file;
  wire = [];
}
