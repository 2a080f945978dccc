-- ===== src/Networking/Put/Stored.antt =====
-- put of nonstop_networking/server.c: what the named file holds when an upload has ended.
use system_programming.Base.{
  ℕ, ◌+◌, ◌<◌, ◌≤◌, ◌≡◌, refl, ap, subst, List, [], ◌∷◌, ◌++◌, Option, some, length, length-append,
  arith,
}
use system_programming.Networking.Sockets.{Event, Ret, done, blocked, failed}
use system_programming.Networking.Put.{
  responded, Upload, PutState, Outcome, read_size_state, serving_state, read_data_state,
  write_response_state, done_state, error_state, read_more, size_read, if_read, size_part, respond,
  job_done, after_data, after_size, receive, put, accepted_put, puts,
}
use system_programming.Networking.Put.Kept.{Kept, Cut, KeptIn, size_part-Kept}
use system_programming.Networking.Put.Rounds.{IsOver, Reads, data_rounds-Reads, serve-Reads}

if_read-done :
    (o : Outcome) (next : Upload → Upload)
    → (if_read o next).ret ≡ done
    → (if_read o next).job ≡ next o.job
if_read-done o next = by_ret o.ret refl
  where
    by_ret : (r : Ret) → o.ret ≡ r → (if_read o next).ret ≡ done → (if_read o next).job ≡ next o.job
    by_ret done e d = rw e refl
    by_ret blocked e d = absurd (cc)
    by_ret failed e d = absurd (cc)

Cut-length :
    (stream body rest : List ℕ) (size : ℕ)
    → Cut stream size body rest
    → length body + length rest ≤ length stream
Cut-length stream body rest size cut =
    let whole = ap length cut.1 in
    omega (arith, whole, length-append cut.0 (body ++ rest), length-append body rest)

size_part-then :
    (stream : List ℕ) (k : ℕ) (o : Outcome)
    → KeptIn stream o
    → (o.ret ≡ done → (o.job).state ≡ serving_state)
    → length stream < k
    → Reads stream (after_size k o.ret o)
size_part-then stream k o kept there enough = by_ret o.ret refl
  where
    by_ret : (r : Ret) → o.ret ≡ r → Reads stream (after_size k o.ret o)
    by_ret done e =
        let here = there e in
        let kept : Kept serving_state stream o.job o.stream =
          subst (λ s. Kept s stream o.job o.stream) here kept in
        let shorter = Cut-length stream (o.job).got o.stream (o.job).filesize kept.0 in
        rw e
          (serve-Reads stream k o.job o.events o.stream here kept (omega (arith, shorter, enough)))
    by_ret blocked e = rw e (_, refl, kept, tt)
    by_ret failed e = rw e (_, refl, kept, tt)

receive-Reads :
    (stream : List ℕ) (k : ℕ) (s : PutState) (u : Upload) (evs : List Event) (str : List ℕ)
    → u.state ≡ s
    → Kept s stream u str
    → length stream < k
    → Reads stream (receive k s u evs str)
unfolding receive size_part
receive-Reads stream k read_size_state u evs str here kept enough =
    let o = size_part u evs str in
    let keeps = size_part-Kept stream u evs str here kept in
    size_part-then stream k o keeps
      (λ d. ap Upload.state (if_read-done (read_more 8 u evs str) size_read d)) enough
receive-Reads stream k serving_state u evs str here kept enough =
    serve-Reads stream k u evs str here kept
      (omega (arith, Cut-length stream u.got str u.filesize kept.0, enough))
receive-Reads stream k read_data_state u evs str here kept enough =
    data_rounds-Reads stream k u evs str here kept (
      omega (
        arith,
        Cut-length stream (kept.0 ++ u.got) str u.filesize kept.2,
        length-append kept.0 u.got,
        enough,
      ))
receive-Reads stream k write_response_state u evs str here kept enough =
    (_, refl, rw here kept, rw here tt)
receive-Reads stream k done_state u evs str here kept enough = (_, refl, rw here kept, rw here tt)
receive-Reads stream k error_state u evs str here kept enough = (_, refl, rw here kept, rw here tt)

-- write_response does not touch the file.
responded-Kept :
    (stream : List ℕ) (r : Ret) (u : Upload) (str : List ℕ)
    → u.state ≡ write_response_state
    → Kept done_state stream u str
    → Kept (responded r u).state stream (responded r u) str
responded-Kept stream done u str here kept = kept
responded-Kept stream blocked u str here kept = rw here kept
responded-Kept stream failed u str here kept = rw here kept

job_done-Kept :
    (stream name : List ℕ) (u : Upload) (evs : List Event) (str : List ℕ)
    → Kept done_state stream u str
    → KeptIn stream (job_done name u evs str)
unfolding job_done respond
job_done-Kept stream name u evs str kept = responded-Kept stream _ _ str refl kept

finish-Kept :
    (stream name : List ℕ) (o : Outcome)
    → KeptIn stream o
    → IsOver o.ret (o.job).state
    → KeptIn stream (after_data name o.ret (o.job).state o)
finish-Kept stream name o kept over = by_ret o.ret refl
  where
    in_state :
        (s : PutState) (p : Outcome)
        → (p.job).state ≡ s
        → Kept s stream p.job p.stream
        → IsOver done s
        → KeptIn stream (after_data name done s p)
    in_state read_size_state p e kept over = absurd over
    in_state serving_state p e kept over = absurd over
    in_state read_data_state p e kept over = absurd over
    in_state write_response_state p e kept over =
        job_done-Kept stream name p.job p.events p.stream kept
    in_state done_state p e kept over = job_done-Kept stream name p.job p.events p.stream kept
    in_state error_state p e kept over = rw e kept

    by_ret : (r : Ret) → o.ret ≡ r → KeptIn stream (after_data name o.ret (o.job).state o)
    by_ret done e = rw e (
        in_state (o.job).state (record o { ret = done }) refl kept
          (subst (λ r. IsOver r (o.job).state) e over))
    by_ret blocked e = rw e kept
    by_ret failed e = rw e kept

put-Kept :
    (stream : List ℕ) (k : ℕ) (name : List ℕ) (u : Upload) (evs : List Event) (str : List ℕ)
    → Kept u.state stream u str
    → length stream < k
    → (o : Outcome) × (put k name u evs str ≡ some o) × KeptIn stream o
unfolding put
put-Kept stream k name u evs str kept enough =
    let o = receive-Reads stream k u.state u evs str refl kept enough in
    (
      after_data name (o.0).ret ((o.0).job).state o.0,
      rw o.1 refl,
      finish-Kept stream name o.0 o.2 o.3,
    )

pub puts-Kept :
    (stream : List ℕ) (k : ℕ) (name : List ℕ) (wakeups : List (List Event)) (u : Upload)
    (str : List ℕ)
    → Kept u.state stream u str
    → length stream < k
    → (v : Upload) × (rest : List ℕ) × (puts k name wakeups u str ≡ some (v, rest))
      × Kept v.state stream v rest
unfolding puts
puts-Kept stream k name [] u str kept enough = (u, str, refl, kept)
puts-Kept stream k name (evs ∷ wakeups) u str kept enough =
    let one = put-Kept stream k name u evs str kept enough in
    let rest = puts-Kept stream k name wakeups (one.0).job (one.0).stream one.2 enough in
    (rest.0, rest.1, rw one.1 rest.2, rest.3)

-- From the job of an accepted PUT, for any stream, any wakeups and any events of the kernel, put
-- returns each time, with more fuel than the stream has bytes. A job in the state WRITE_RESPONSE or
-- DONE has stored the bytes of the stream behind the size, as many as the size says; a job in the
-- state ERROR has left no file; and a job between two wakeups has in the file, in its buffer and in
-- the stream all the bytes that came, in order.
pub accepted_put-Kept :
    (stream : List ℕ) (k : ℕ) (name : List ℕ) (wakeups : List (List Event)) (listed : List (List ℕ))
    (old : Option (List ℕ))
    → length stream < k
    → (u : Upload) × (rest : List ℕ) × (puts k name wakeups (accepted_put listed old) stream
        ≡ some (u, rest))
      × Kept u.state stream u rest
unfolding accepted_put
accepted_put-Kept stream k name wakeups listed old enough =
    puts-Kept stream k name wakeups (accepted_put listed old) stream (refl, refl, omega arith)
      enough
