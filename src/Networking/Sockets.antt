-- ===== src/Networking/Sockets.antt =====
-- reader and writer of nonstop_networking/common.c on a non-blocking socket. What the kernel does is
-- a list of events, one for each call of read(2) or write(2); when the list is used up, the socket
-- is not ready (EAGAIN).
use system_programming.Base.{
  ◌⊎◌, inl, inr, ℕ, zero, suc, ◌-◌, ◌≤◌, ◌≡◌, ◌≢◌, refl, sym, ap, ◌∙◌, List, [], ◌∷◌, ◌++◌, length,
  length-append, take, drop, take-append-drop, append-nil, append_assoc, arith,
}

pub data Event : Type 0 where
  -- The kernel moves up to `n + 1` bytes.
  moves : ℕ → Event
  -- -1 with EAGAIN, with EINTR, with another errno; and 0 bytes.
  again interrupted fails closed : Event

-- The results 0, 1 and -1.
pub data Ret : Type 0 where
  done blocked failed : Ret

-- The result of a call of reader: the bytes that were stored, the events and the bytes of the
-- stream that are left.
pub record Read : Type 0 where
  pub ret : Ret
  pub got : List ℕ
  pub events : List Event
  pub stream : List ℕ

abbrev pub prepend : List ℕ → Read → Read
prepend bs r = record r { got = bs ++ r.got }

abbrev pub read_stop : Ret → List Event → List ℕ → Read
read_stop ret evs str = record { ret = ret; got = []; events = evs; stream = str }

-- int reader(int fd, void *buf, size_t count, size_t *offset). A stream without bytes is at its end.
unfoldable pub reader : List Event → List ℕ → ℕ → Read
reader evs str zero = read_stop done evs str
reader [] str (suc c) = read_stop blocked [] str
reader (again ∷ evs) str (suc c) = read_stop blocked evs str
reader (interrupted ∷ evs) str (suc c) = reader evs str (suc c)
reader (fails ∷ evs) str (suc c) = read_stop failed evs str
reader (closed ∷ evs) str (suc c) = read_stop done evs str
reader (moves n ∷ evs) [] (suc c) = read_stop done evs []
reader (moves n ∷ evs) (b ∷ str) (suc c) =
    let bs = take n (take c str) in
    prepend (b ∷ bs) (reader evs (drop (length bs) str) (c - length bs))

-- The result of a call of writer: the bytes that went out, and the events that are left.
pub record Written : Type 0 where
  pub ret : Ret
  pub sent : List ℕ
  pub events : List Event

abbrev pub send_more : List ℕ → Written → Written
send_more bs w = record w { sent = bs ++ w.sent }

abbrev pub write_stop : Ret → List Event → Written
write_stop ret evs = record { ret = ret; sent = []; events = evs }

-- int writer(int fd, void *buf, size_t count, size_t *offset).
unfoldable pub writer : List Event → List ℕ → Written
writer evs [] = write_stop done evs
writer [] (b ∷ buf) = write_stop blocked []
writer (again ∷ evs) (b ∷ buf) = write_stop blocked evs
writer (interrupted ∷ evs) (b ∷ buf) = writer evs (b ∷ buf)
writer (fails ∷ evs) (b ∷ buf) = write_stop failed evs
writer (closed ∷ evs) (b ∷ buf) = write_stop done evs
writer (moves n ∷ evs) (b ∷ buf) = send_more (b ∷ take n buf) (writer evs (drop n buf))

length-take-take : (n c : ℕ) (xs : List ℕ) → length (take n (take c xs)) ≤ c
length-take-take zero c xs = omega arith
length-take-take (suc n) zero xs = omega arith
length-take-take (suc n) (suc c) [] = omega arith
length-take-take (suc n) (suc c) (x ∷ xs) = omega (arith, length-take-take n c xs)

take-drop-take :
    (n c : ℕ) (xs : List ℕ) → take n (take c xs) ++ drop (length (take n (take c xs))) xs ≡ xs
take-drop-take zero c xs = refl
take-drop-take (suc n) zero xs = refl
take-drop-take (suc n) (suc c) [] = refl
take-drop-take (suc n) (suc c) (x ∷ xs) = ap (◌∷◌ x) (take-drop-take n c xs)

-- Whatever the kernel does, the bytes that reader stores and those that are left are the stream, in
-- order, and it never stores more than count bytes.
pub reader_exact :
    (evs : List Event) (str : List ℕ) (count : ℕ)
    → ((reader evs str count).got ++ (reader evs str count).stream ≡ str)
      × (length (reader evs str count).got ≤ count)
unfolding reader
reader_exact evs str zero = (refl, omega arith)
reader_exact [] str (suc c) = (refl, omega arith)
reader_exact (again ∷ evs) str (suc c) = (refl, omega arith)
reader_exact (interrupted ∷ evs) str (suc c) = reader_exact evs str (suc c)
reader_exact (fails ∷ evs) str (suc c) = (refl, omega arith)
reader_exact (closed ∷ evs) str (suc c) = (refl, omega arith)
reader_exact (moves n ∷ evs) [] (suc c) = (refl, omega arith)
reader_exact (moves n ∷ evs) (b ∷ str) (suc c) =
    let bs = take n (take c str) in
    let rest = reader_exact evs (drop (length bs) str) (c - length bs) in
    let small : length bs ≤ c = length-take-take n c str in
    (
      ap (◌∷◌ b) (append_assoc bs _ _ ∙ ap (λ t. bs ++ t) rest.0 ∙ take-drop-take n c str),
      omega (
        arith,
        length-append bs (reader evs (drop (length bs) str) (c - length bs)).got,
        rest.1,
        small,
      ),
    )

-- The kernel never takes 0 bytes of a buffer that is not empty.
abbrev pub NeverClosed : List Event → Type 0
NeverClosed [] = Unit {0}
NeverClosed (closed ∷ evs) = ⊥
NeverClosed (again ∷ evs) = NeverClosed evs
NeverClosed (interrupted ∷ evs) = NeverClosed evs
NeverClosed (fails ∷ evs) = NeverClosed evs
NeverClosed (moves n ∷ evs) = NeverClosed evs

-- The bytes of the buffer that did not go out.
unfoldable pub unsent : List ℕ → List ℕ → List ℕ
unsent buf sent = drop (length sent) buf

drop-drop_front :
    (n : ℕ) (ys xs : List ℕ) → drop (length (take n xs ++ ys)) xs ≡ drop (length ys) (drop n xs)
drop-drop_front zero ys xs = refl
drop-drop_front (suc n) ys [] = refl
drop-drop_front (suc n) ys (x ∷ xs) = drop-drop_front n ys xs

writer_lem :
    (evs : List Event) (buf : List ℕ)
    → ((writer evs buf).sent ++ unsent buf (writer evs buf).sent ≡ buf)
      × ((writer evs buf).ret ≡ done → NeverClosed evs → unsent buf (writer evs buf).sent ≡ [])
unfolding writer unsent
writer_lem evs [] = (refl, λ e o. refl)
writer_lem [] (b ∷ buf) = (refl, λ e o. cc)
writer_lem (again ∷ evs) (b ∷ buf) = (refl, λ e o. cc)
writer_lem (interrupted ∷ evs) (b ∷ buf) = writer_lem evs (b ∷ buf)
writer_lem (fails ∷ evs) (b ∷ buf) = (refl, λ e o. cc)
writer_lem (closed ∷ evs) (b ∷ buf) = (refl, λ e o. absurd o)
writer_lem (moves n ∷ evs) (b ∷ buf) =
    let w = writer evs (drop n buf) in
    let rest = writer_lem evs (drop n buf) in
    let left = drop-drop_front n w.sent buf in
    (
      ap (◌∷◌ b) (
          append_assoc (take n buf) w.sent _
          ∙ ap (λ t. take n buf ++ (w.sent ++ t)) left
          ∙ ap (λ t. take n buf ++ t) rest.0
          ∙ take-append-drop n buf),
      λ e o. left ∙ rest.1 e o,
    )

-- One of the calls fails, with an errno that is neither EAGAIN nor EINTR.
abbrev pub HasFailure : List Event → Type 0
HasFailure [] = ⊥
HasFailure (fails ∷ evs) = Unit {0}
HasFailure (again ∷ evs) = HasFailure evs
HasFailure (interrupted ∷ evs) = HasFailure evs
HasFailure (closed ∷ evs) = HasFailure evs
HasFailure (moves n ∷ evs) = HasFailure evs

-- A read of one byte of a stream that has one: it is stored, or the socket is not ready, or fails.
pub data OneByte (c : ℕ) (str : List ℕ) (evs : List Event) (r : Read) : Type 0 where
  stores :
      r.ret ≡ done
      → r.got ≡ c ∷ []
      → r.stream ≡ str
      → NeverClosed r.events
      → (HasFailure r.events → HasFailure evs)
      → OneByte c str evs r
  blocks : r.ret ≡ blocked → r.got ≡ [] → r.stream ≡ c ∷ str → OneByte c str evs r
  breaks : r.ret ≡ failed → HasFailure evs → OneByte c str evs r

one_interrupted :
    (c : ℕ) (str : List ℕ) (evs : List Event) (r : Read)
    → OneByte c str evs r
    → OneByte c str (interrupted ∷ evs) r
one_interrupted c str evs r (stores e g s o f) = stores e g s o f
one_interrupted c str evs r (blocks e g s) = blocks e g s
one_interrupted c str evs r (breaks e f) = breaks e f

pub reader_one :
    (evs : List Event) (c : ℕ) (str : List ℕ)
    → NeverClosed evs
    → OneByte c str evs (reader evs (c ∷ str) 1)
unfolding reader
reader_one [] c str o = blocks refl refl refl
reader_one (again ∷ evs) c str o = blocks refl refl refl
reader_one (interrupted ∷ evs) c str o =
    one_interrupted c str evs (reader evs (c ∷ str) 1) (reader_one evs c str o)
reader_one (fails ∷ evs) c str o = breaks refl tt
reader_one (closed ∷ evs) c str o = absurd o
reader_one (moves zero ∷ evs) c str o = stores refl refl refl o (λ f. f)
reader_one (moves (suc n) ∷ evs) c str o = stores refl refl refl o (λ f. f)

NeverClosed-writer :
    (evs : List Event) (buf : List ℕ) → NeverClosed evs → NeverClosed (writer evs buf).events
unfolding writer
NeverClosed-writer evs [] o = o
NeverClosed-writer [] (b ∷ buf) o = tt
NeverClosed-writer (again ∷ evs) (b ∷ buf) o = o
NeverClosed-writer (interrupted ∷ evs) (b ∷ buf) o = NeverClosed-writer evs (b ∷ buf) o
NeverClosed-writer (fails ∷ evs) (b ∷ buf) o = o
NeverClosed-writer (closed ∷ evs) (b ∷ buf) o = absurd o
NeverClosed-writer (moves n ∷ evs) (b ∷ buf) o = NeverClosed-writer evs (drop n buf) o

-- A write that is complete, or a return to the event loop.
pub data Sent (bytes : List ℕ) (w : Written) : Type 0 where
  all : w.ret ≡ done → w.sent ≡ bytes → NeverClosed w.events → Sent bytes w
  blocks_here : w.ret ≡ blocked → Sent bytes w
  breaks_here : w.ret ≡ failed → Sent bytes w

pub blocked-done : blocked ≢ done
blocked-done e = cc

failed-done : failed ≢ done
failed-done e = cc

Ret-cases : (r : Ret) → (r ≡ done) ⊎ (r ≡ blocked) ⊎ (r ≡ failed)
Ret-cases done = inl refl
Ret-cases blocked = inr (inl refl)
Ret-cases failed = inr (inr refl)

pub writer-Sent :
    (evs : List Event) (bytes : List ℕ) → NeverClosed evs → Sent bytes (writer evs bytes)
writer-Sent evs bytes o =
    let w = writer evs bytes in
    let (whole, complete) = writer_lem evs bytes in
    elim (Ret-cases w.ret) [
      | inl e ↦
          all e (sym (append-nil w.sent) ∙ ap (λ t. w.sent ++ t) (sym (complete e o)) ∙ whole)
            (NeverClosed-writer evs bytes o)
      | inr (inl e) ↦ blocks_here e
      | inr (inr e) ↦ breaks_here e
    ]

-- Whatever the kernel does, the bytes that writer sends are the first bytes of the buffer, and those
-- that it leaves are the others.
pub writer_exact :
    (evs : List Event) (buf : List ℕ)
    → (writer evs buf).sent ++ unsent buf (writer evs buf).sent ≡ buf
writer_exact evs buf = (writer_lem evs buf).0

-- When writer reports success, and the kernel never takes 0 bytes, the whole buffer went out, in
-- order.
writer_whole :
    (evs : List Event) (buf : List ℕ)
    → NeverClosed evs
    → (writer evs buf).ret ≡ done
    → (writer evs buf).sent ≡ buf
writer_whole evs buf o e = elim (writer-Sent evs buf o) [
  | all _ s _ ↦ s
  | blocks_here e' ↦ absurd (blocked-done (sym e' ∙ e))
  | breaks_here e' ↦ absurd (failed-done (sym e' ∙ e))
]
