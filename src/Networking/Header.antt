-- ===== src/Networking/Header.antt =====
-- Reading a request's header in nonstop_networking/server.c: get_header, parse_header, read_header.
pub mod Exact
use system_programming.Clib.Strings.{equals}
use system_programming.Base.{
  ℕ, zero, suc, ◌+◌, ◌-◌, ◌<◌, ◌≤◌, ◌≡◌, ◌≢◌, refl, sym, ap, ◌∙◌, List, [], ◌∷◌, ◌++◌, c_string,
  Bool, true, false, ◌&&◌, Bool-cases, inl, inr, ltb, ◌==◌, if◌then◌else◌, Option, none, some,
  ◌>>=◌, length, length-append, append-nil, append_assoc, arith,
}
use system_programming.Networking.Sockets.{Event, Ret, done, blocked, failed, Read, reader}

pub data Verb : Type 0 where
  get put delete list v_unknown : Verb

-- The bytes of the verbs.
abbrev pub get_bytes : List ℕ
get_bytes = b'G' ∷ b'E' ∷ b'T' ∷ []

abbrev pub put_bytes : List ℕ
put_bytes = b'P' ∷ b'U' ∷ b'T' ∷ []

abbrev pub delete_bytes : List ℕ
delete_bytes = b'D' ∷ b'E' ∷ b'L' ∷ b'E' ∷ b'T' ∷ b'E' ∷ []

abbrev pub list_bytes : List ℕ
list_bytes = b'L' ∷ b'I' ∷ b'S' ∷ b'T' ∷ []

-- The bytes before the first space, and those behind it if there is one.
unfoldable pub cut_space : List ℕ → List ℕ × Option (List ℕ)
cut_space [] = ([], none)
cut_space (c ∷ cs) =
    let (word, rest) = cut_space cs in if c == b' ' then ([], some cs) else (c ∷ word, rest)

-- The verb in front of a file name; any other word leaves the request as it was.
unfoldable pub verb_of : List ℕ → Verb → Verb
verb_of word req =
    if equals word put_bytes
    then put
    else if equals word get_bytes
    then get
    else if equals word delete_bytes
    then delete
    else req

-- char *parse_header(char *header, verb *req): the request, and the file name or NULL.
unfoldable pub parse_header : List ℕ → Verb → Verb × Option (List ℕ)
parse_header header req = elim (cut_space header).1 [
  | none ↦ (if equals header list_bytes then list else v_unknown, none)
  | some file ↦ (verb_of (cut_space header).0 req, some file)
]

-- How get_header ends: 0, 1, -1, -2, or an undefined read of the byte that no call has stored.
pub data HeaderRet : Type 0 where
  complete waiting read_error too_long undefined : HeaderRet

pub record Header : Type 0 where
  pub ret : HeaderRet
  -- The bytes in the job's buffer. `readsz` is their number.
  pub buf : List ℕ
  pub events : List Event
  pub stream : List ℕ

abbrev pub stored : List ℕ → Option ℕ → Option ℕ
stored [] a = a
stored (c ∷ cs) a = some c

abbrev pub stop_at : HeaderRet → List ℕ → Read → Header
stop_at ret buf r = record { ret = ret; buf = buf; events = r.events; stream = r.stream }

-- A round of the loop of get_header behind its call of reader; `a` is the byte in the array. The
-- closing newline is cut off.
abbrev pub header_round : Ret → Option ℕ → List ℕ → Read → (ℕ → Header) → Header
header_round blocked a buf r next = stop_at waiting buf r
header_round failed a buf r next = stop_at read_error buf r
header_round done none buf r next = stop_at undefined buf r
header_round done (some c) buf r next =
    if ltb 262 (length buf + 1)
    then stop_at too_long (buf ++ c ∷ []) r
    else if c == b'\n'
    then stop_at complete buf r
    else next c

-- The loop of get_header. `a` is the byte that the last call of reader stored: a call that stores
-- none, at the end of the stream, leaves it as it was. The loop ends within 263 rounds, since the
-- size is above 262 then.
unfoldable pub header_loop : ℕ → Option ℕ → List ℕ → List Event → List ℕ → Header
header_loop zero a buf evs str = stop_at too_long buf (reader evs str 0)
header_loop (suc k) a buf evs str =
    let r = reader evs str 1 in
    let next = λ (c : ℕ). header_loop k (some c) (buf ++ c ∷ []) r.events r.stream in
    header_round r.ret (stored r.got a) buf r next

-- int get_header(int socket, char *header, size_t *size), with the bytes that the job has so far.
unfoldable pub get_header : List ℕ → List Event → List ℕ → Header
get_header buf evs str = header_loop (263 - length buf) none buf evs str

-- What a job knows when its header has been read, or not.
pub data JobState : Type 0 where
  read_header_state read_size serving error : JobState

pub record Job : Type 0 where
  pub state : JobState
  pub request : Verb
  pub filename : Option (List ℕ)
  pub buf : List ℕ

unfoldable pub init_job : Job
init_job = record { state = read_header_state; request = v_unknown; filename = none; buf = [] }

-- A request for a file, whose name must fit 255 bytes.
unfoldable pub name_file : Job → Verb → List ℕ → JobState → Job
name_file j req file next =
    if ltb 255 (length file)
    then record j { state = error; request = v_unknown }
    else record { state = next; request = req; filename = some file; buf = [] }

-- read_header from the parsed header on; strlen(NULL) is a fault.
unfoldable pub accept_header : Job → Verb × Option (List ℕ) → Option Job
accept_header j (v_unknown, file) = some (record j { state = error; request = v_unknown })
accept_header j (list, file) = some (record j { state = serving; request = list; buf = [] })
accept_header j (get, none) = none
accept_header j (get, some file) = some (name_file j get file serving)
accept_header j (delete, none) = none
accept_header j (delete, some file) = some (name_file j delete file serving)
accept_header j (put, none) = none
accept_header j (put, some file) = some (name_file j put file read_size)

-- What read_header does with the result of get_header.
abbrev pub take_header : HeaderRet → Job → Header → Option (Job × List ℕ)
take_header complete j h =
    accept_header j (parse_header (c_string h.buf) j.request) >>= λ j'. some (j', h.stream)
take_header waiting j h = some (record j { buf = h.buf }, h.stream)
take_header read_error j h = some (record j { state = error; buf = h.buf }, h.stream)
take_header too_long j h = some (record j { state = error; buf = h.buf }, h.stream)
take_header undefined j h = none

-- int read_header(job *myjob), for a job that is still in its header: the job afterwards, and the
-- bytes of the stream that it has not read.
unfoldable pub read_header : Job → List Event → List ℕ → Option (Job × List ℕ)
read_header j evs str = let h = get_header j.buf evs str in take_header h.ret j h

-- `if (myjob->state == READ_HEADER)` of the event loop.
abbrev pub still_in_header {ℓ} : {A : Type ℓ} → JobState → A → A → A
still_in_header read_header_state a b = a
still_in_header read_size a b = b
still_in_header serving a b = b
still_in_header error a b = b

-- The calls of read_header for a job, one for each time that epoll reports its socket, while the job
-- is in its header.
unfoldable pub read_headers : List (List Event) → Job → List ℕ → Option (Job × List ℕ)
read_headers [] j str = some (j, str)
read_headers (evs ∷ wakeups) j str = read_header j evs str >>= λ r.
    let later = read_headers wakeups r.0 r.1 in still_in_header (r.0).state later (some r)
