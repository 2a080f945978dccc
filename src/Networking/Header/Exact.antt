-- ===== src/Networking/Header/Exact.antt =====
-- get_header and read_header of nonstop_networking/server.c against what the client sent: however the
-- bytes arrive, the header is the first line of the stream.
use system_programming.Base.{
  ℕ, zero, suc, ◌+◌, ◌-◌, ◌<◌, ◌≤◌, ◌≡◌, ◌≢◌, ◌⊎◌, inl, inr, refl, sym, ap, ◌∙◌, subst, List, [],
  ◌∷◌, ◌++◌, c_string, false, ltb, ge→ltb, ◌==◌, Option, none, some, length, length-append,
  append-nil, append_assoc, arith,
}
use system_programming.Clib.Strings.{equals}
use system_programming.Networking.Sockets.{
  Event, NeverClosed, HasFailure, stores, blocks, breaks, reader_one,
}
use system_programming.Networking.Header.{
  Verb, get, put, delete, list, v_unknown, get_bytes, put_bytes, delete_bytes, list_bytes,
  cut_space, verb_of, parse_header, complete, waiting, read_error, Header, header_loop, get_header,
  Job, JobState, serving, read_size, read_header_state, error, init_job, name_file, accept_header,
  read_header, read_headers, still_in_header,
}

-- No byte of the line is a newline or NUL.
abbrev pub OneLine : List ℕ → Type 0
OneLine [] = Unit {0}
OneLine (c ∷ cs) = (c ≢ b'\n') × (c ≢ 0) × OneLine cs

c_string-OneLine : (line : List ℕ) → OneLine line → c_string line ≡ line
unfolding c_string
c_string-OneLine [] o = refl
c_string-OneLine (c ∷ cs) o =
    let plain : (c == 0) ≡ false = ground arith in rw plain (ap (◌∷◌ c) (c_string-OneLine cs o.2))

-- Reading the header `line` of the stream `line ++ '\n' ∷ rest`, with `pre` read before: it is there,
-- or a part of it is there and the other part still in the stream, or the socket failed.
pub data Progress (pre line rest : List ℕ) (evs : List Event) (h : Header) : Type 0 where
  whole : h.ret ≡ complete → h.buf ≡ pre ++ line → h.stream ≡ rest → Progress pre line rest evs h
  part :
      (p q : List ℕ)
      → line ≡ p ++ q
      → h.ret ≡ waiting
      → h.buf ≡ pre ++ p
      → h.stream ≡ q ++ b'\n' ∷ rest
      → Progress pre line rest evs h
  broken : h.ret ≡ read_error → HasFailure evs → Progress pre line rest evs h

-- One byte more of the line.
Progress-cons :
    (pre line rest : List ℕ) (c : ℕ) (evs evs' : List Event) (h : Header)
    → (HasFailure evs' → HasFailure evs)
    → Progress (pre ++ c ∷ []) line rest evs' h
    → Progress pre (c ∷ line) rest evs h
Progress-cons pre line rest c evs evs' h f (whole e b s) =
    whole e (b ∙ append_assoc pre (c ∷ []) line) s
Progress-cons pre line rest c evs evs' h f (part p q l e b s) =
    part (c ∷ p) q (ap (◌∷◌ c) l) e (b ∙ append_assoc pre (c ∷ []) p) s
Progress-cons pre line rest c evs evs' h f (broken e x) = broken e (f x)

header_loop-Progress :
    (k : ℕ) (a : Option ℕ) (pre line rest : List ℕ) (evs : List Event)
    → NeverClosed evs
    → OneLine line
    → length pre + length line < 262
    → length line < k
    → Progress pre line rest evs (header_loop k a pre evs (line ++ b'\n' ∷ rest))
unfolding header_loop
header_loop-Progress zero a pre line rest evs o one small fuel = absurd (omega arith)
header_loop-Progress (suc k) a pre [] rest evs o one small fuel =
    let short : ltb 262 (length pre + 1) ≡ false = ge→ltb _ _ (omega arith) in
    elim (reader_one evs b'\n' rest o) [
      | stores r g s n f ↦ rw (r, g, short) (whole refl (sym (append-nil pre)) s)
      | blocks r g s ↦ rw r (part [] [] refl refl (sym (append-nil pre)) s)
      | breaks r f ↦ rw r (broken refl f)
    ]
header_loop-Progress (suc k) a pre (c ∷ line) rest evs o one small fuel =
    let short : ltb 262 (length pre + 1) ≡ false = ge→ltb _ _ (omega arith) in
    let plain : (c == b'\n') ≡ false = ground arith in
    elim (reader_one evs c (line ++ b'\n' ∷ rest) o) [
      | stores r g s n f ↦
          rw (r, g, short, plain, s)
            (Progress-cons pre line rest c evs _ _ f (
              header_loop-Progress k (some c) (pre ++ c ∷ []) line rest _ n one.2
                (omega (arith, length-append pre (c ∷ []))) (omega arith)))
      | blocks r g s ↦ rw r (part [] (c ∷ line) refl refl (sym (append-nil pre)) s)
      | breaks r f ↦ rw r (broken refl f)
    ]

-- A call of get_header on a stream that holds the rest of a line of at most 261 bytes.
pub get_header-Progress :
    (pre line rest : List ℕ) (evs : List Event)
    → NeverClosed evs
    → OneLine line
    → length pre + length line < 262
    → Progress pre line rest evs (get_header pre evs (line ++ b'\n' ∷ rest))
unfolding get_header
get_header-Progress pre line rest evs o one small =
    header_loop-Progress (263 - length pre) none pre line rest evs o one small (omega arith)

-- The line that asks for a file, and the state that waits for what comes next.
abbrev pub word_of : Verb → List ℕ
word_of get = get_bytes
word_of put = put_bytes
word_of delete = delete_bytes
word_of list = list_bytes
word_of v_unknown = []

-- A header with a file name is parsed into its verb and the name, whatever the name holds.
pub parse_header-file :
    (req : Verb) (name : List ℕ)
    → req ≢ list
    → req ≢ v_unknown
    → parse_header (word_of req ++ b' ' ∷ name) v_unknown ≡ (req, some name)
unfolding parse_header cut_space verb_of equals
parse_header-file get name h k = refl
parse_header-file put name h k = refl
parse_header-file delete name h k = refl
parse_header-file list name h k = absurd (h refl)
parse_header-file v_unknown name h k = absurd (k refl)

abbrev pub header_of : Verb → List ℕ → List ℕ
header_of req name = word_of req ++ b' ' ∷ name

abbrev pub state_for : Verb → JobState
state_for put = read_size
state_for _ = serving

-- Where a request for the file `name` can stand after some calls of read_header: accepted as it was
-- sent, with the rest of the stream untouched; still in its header, of which it has the first bytes and
-- the stream the others; or given up since a read of the
-- socket failed.
pub data Served (req : Verb) (name rest : List ℕ) (failure : Type 0) (r : Option (Job × List ℕ))
    : Type 0 where
  accepted :
      (j : Job)
      → r ≡ some (j, rest)
      → j.state ≡ state_for req
      → j.request ≡ req
      → j.filename ≡ some name
      → Served req name rest failure r
  in_header :
      (j : Job) (left : List ℕ)
      → r ≡ some (j, left ++ b'\n' ∷ rest)
      → j.state ≡ read_header_state
      → j.buf ++ left ≡ header_of req name
      → Served req name rest failure r
  gave_up :
      (j : Job) (str : List ℕ)
      → r ≡ some (j, str)
      → j.state ≡ error
      → failure
      → Served req name rest failure r

abbrev pub AllOpen : List (List Event) → Type 0
AllOpen [] = Unit {0}
AllOpen (evs ∷ wakeups) = NeverClosed evs × AllOpen wakeups

abbrev pub AnyFailure : List (List Event) → Type 0
AnyFailure [] = ⊥
AnyFailure (evs ∷ wakeups) = HasFailure evs ⊎ AnyFailure wakeups

Served-later :
    (req : Verb) (name rest : List ℕ) (now later : Type 0) (r : Option (Job × List ℕ))
    → (later → now)
    → Served req name rest later r
    → Served req name rest now r
Served-later req name rest now later r f (accepted j e s q n) = accepted j e s q n
Served-later req name rest now later r f (in_header j left e s b) = in_header j left e s b
Served-later req name rest now later r f (gave_up j str e s x) = gave_up j str e s (f x)

abbrev partly : List ℕ → Job
partly pre = record { state = read_header_state; request = v_unknown; filename = none; buf = pre }

accept_lem :
    (req : Verb) (name : List ℕ) (j : Job)
    → req ≢ list
    → req ≢ v_unknown
    → length name ≤ 255
    → accept_header j (req, some name)
      ≡ some (record { state = state_for req; request = req; filename = some name; buf = [] })
unfolding accept_header name_file
accept_lem get name j h k short = rw (ge→ltb 255 (length name) short)
accept_lem put name j h k short = rw (ge→ltb 255 (length name) short)
accept_lem delete name j h k short = rw (ge→ltb 255 (length name) short)
accept_lem list name j h k short = absurd (h refl)
accept_lem v_unknown name j h k short = absurd (k refl)

OneLine-append : (p q : List ℕ) → OneLine (p ++ q) → OneLine q
OneLine-append [] q o = o
OneLine-append (c ∷ p) q o = OneLine-append p q o.2

past_header {ℓ} : {A : Type ℓ} (a b : A) (req : Verb) → still_in_header (state_for req) a b ≡ b
past_header a b get = refl
past_header a b put = refl
past_header a b delete = refl
past_header a b list = refl
past_header a b v_unknown = refl

module _ (req : Verb) (name rest : List ℕ) (h : req ≢ list) (k : req ≢ v_unknown)
    (short : length name ≤ 255) (fits : length (header_of req name) < 262)
    (plain : OneLine (header_of req name)) where
  read_headers-Served :
      (wakeups : List (List Event)) (pre line : List ℕ)
      → pre ++ line ≡ header_of req name
      → OneLine line
      → AllOpen wakeups
      → Served req name rest
          (AnyFailure wakeups)
          (read_headers wakeups (partly pre) (line ++ b'\n' ∷ rest))
  unfolding read_headers read_header
  read_headers-Served [] pre line e one o = in_header (partly pre) line refl refl e
  read_headers-Served (evs ∷ wakeups) pre line e one o =
      let size : length pre + length line < 262 =
        omega (arith, ap length e, length-append pre line) in
      elim (get_header-Progress pre line rest evs o.0 one size) [
        | whole r b s ↦
            let parsed =
              ap (λ t. parse_header t v_unknown)
                (ap c_string (b ∙ e) ∙ c_string-OneLine (header_of req name) plain)
              ∙ parse_header-file req name h k in
            rw (r, parsed, accept_lem req name (partly pre) h k short, s)
              (rw (past_header _ _ req) (accepted _ refl refl refl refl))
        | part p q l r b s ↦
            let e' : (pre ++ p) ++ q ≡ header_of req name =
              append_assoc pre p q ∙ ap (λ t. pre ++ t) (sym l) ∙ e in
            rw (r, b, s)
              (Served-later req name rest _ _ _ inr (
                read_headers-Served wakeups (pre ++ p) q e'
                  (OneLine-append p q (subst OneLine l one)) o.1))
        | broken r f ↦ rw r (gave_up _ _ refl refl (inl f))
      ]

-- A client asks with PUT, GET or DELETE for a file whose name has at most 255 bytes, in a header of
-- at most 261 bytes without NUL and newline, and the kernel reports no end of the stream. In
-- whatever pieces the bytes arrive, after any number of wakeups the job has the verb and the name
-- that were sent, with the bytes behind the header still to be read; or it is still in its header,
-- has the first bytes of it, and finds the others in the stream; or it gave up, and a read of the
-- socket failed with an error of the kernel other than EAGAIN and EINTR.
pub init_job-Served :
    (req : Verb) (name rest : List ℕ) (wakeups : List (List Event))
    → req ≢ list
    → req ≢ v_unknown
    → length name ≤ 255
    → length (header_of req name) < 262
    → OneLine (header_of req name)
    → AllOpen wakeups
    → Served req name rest
        (AnyFailure wakeups)
        (read_headers wakeups init_job (header_of req name ++ b'\n' ∷ rest))
unfolding init_job
init_job-Served req name rest wakeups h k short fits one o =
    read_headers-Served req name rest h k short fits one wakeups [] (header_of req name) refl one o
