-- ===== src/Networking/Put/Kept.antt =====
-- put of nonstop_networking/server.c: what a job and the bytes that are not read have to do with the
-- stream, and that the parts of put keep it so.
use system_programming.Base.{
  ℕ, ◌+◌, ◌-◌, ◌≤◌, ◌≡◌, refl, sym, ap, ◌∙◌, inl, inr, List, [], ◌++◌, Bool-cases, ltb, ◌==◌,
  Option, none, some, length, length-append, append_assoc, append-nil, arith,
}
use system_programming.Networking.Sockets.{Event, Ret, done, blocked, failed, reader, reader_exact}
use system_programming.Networking.Put.{
  Upload, PutState, Outcome, read_size_state, serving_state, read_data_state, write_response_state,
  done_state, error_state, size_of, read_more, size_read, settle, content, if_read, size_part,
  first_part, next_part,
}

-- The stream was the bytes of the size, then `body`, then `rest`.
abbrev pub Cut : List ℕ → ℕ → List ℕ → List ℕ → Type 0
Cut stream size body rest =
    (head : List ℕ) × (head ++ (body ++ rest) ≡ stream) × (size_of head ≡ size) × (length head ≤ 8)

-- The file holds `body`, of `n` bytes.
abbrev Holds : Option (List ℕ) → List ℕ → ℕ → Type 0
Holds file body n = (file ≡ some body) × (length body ≡ n)

-- What is true of the job and the bytes that are not read, by the state.
abbrev pub Kept : PutState → List ℕ → Upload → List ℕ → Type 0
Kept read_size_state stream u rest = (u.got ++ rest ≡ stream) × (u.datasz ≡ 0) × (length u.got ≤ 8)
Kept serving_state stream u rest =
    Cut stream u.filesize u.got rest × (u.datasz ≡ 0) × (length u.got ≤ 1024)
Kept read_data_state stream u rest =
    (body : List ℕ) × Holds u.file body u.datasz
    × Cut stream u.filesize (body ++ u.got) rest
    × (length u.got ≤ 1024)
Kept write_response_state stream u rest =
    (body : List ℕ) × Holds u.file body u.filesize × Cut stream u.filesize body rest
Kept done_state stream u rest =
    (body : List ℕ) × Holds u.file body u.filesize × Cut stream u.filesize body rest
Kept error_state stream u rest = u.file ≡ none

abbrev pub KeptIn : List ℕ → Outcome → Type 0
KeptIn stream o = Kept (o.job).state stream o.job o.stream

-- reader appends what it takes off the stream.
pub read_more_exact :
    (count : ℕ) (u : Upload) (evs : List Event) (str : List ℕ)
    → length u.got ≤ count
    → let o = read_more count u evs str in
      ((o.job).got ++ o.stream ≡ u.got ++ str) × (length (o.job).got ≤ count)
unfolding read_more
read_more_exact count u evs str small =
    let r = reader evs str (count - length u.got) in
    let exact = reader_exact evs str (count - length u.got) in
    let added : length (u.got ++ r.got) ≡ length u.got + length r.got = length-append u.got r.got in
    (
      append_assoc u.got r.got r.stream ∙ ap (λ t. u.got ++ t) exact.0,
      omega (arith, added, exact.1, small),
    )

-- Once the buffer has been written.
settle-Kept :
    (stream old : List ℕ) (u : Upload) (rest : List ℕ)
    → length old ≡ u.datasz
    → Cut stream u.filesize (old ++ u.got) rest
    → Kept (settle u old).state stream (settle u old) rest
unfolding settle
settle-Kept stream old u rest size cut =
    let n = u.datasz + length u.got in
    let all : length (old ++ u.got) ≡ n =
      length-append old u.got ∙ ap (λ t. t + length u.got) size in
    elim (Bool-cases (ltb u.filesize n)) [
      | inl more ↦ rw more refl
      | inr fits ↦ elim (Bool-cases (n == u.filesize)) [
        | inl full ↦
            let same : n ≡ u.filesize = ground arith in
            rw (fits, full) (old ++ u.got, (refl, all ∙ same), cut)
        | inr short ↦ elim (Bool-cases (ltb (length u.got) 1024)) [
          | inl ended ↦ rw (fits, short, ended) refl
          | inr goes ↦
              rw (fits, short, goes)
                (
                  old ++ u.got,
                  (refl, all),
                  (
                    cut.0,
                    ap (λ t. cut.0 ++ (t ++ rest)) (append-nil (old ++ u.got)) ∙ cut.1,
                    cut.2,
                    cut.3,
                  ),
                  omega arith,
                )
        ]
      ]
    ]

-- A call that reads, then goes on with `next` where all of it came.
if_read-Kept :
    (stream : List ℕ) (o : Outcome) (next : Upload → Upload)
    → KeptIn stream o
    → KeptIn stream (record o { job = next o.job })
    → KeptIn stream (if_read o next)
if_read-Kept stream o next stays goes = by_ret o.ret refl
  where
    by_ret : (r : Ret) → o.ret ≡ r → KeptIn stream (if_read o next)
    by_ret done e = rw e goes
    by_ret blocked e = rw e stays
    by_ret failed e = rw e stays

pub size_part-Kept :
    (stream : List ℕ) (u : Upload) (evs : List Event) (str : List ℕ)
    → u.state ≡ read_size_state
    → Kept read_size_state stream u str
    → KeptIn stream (size_part u evs str)
unfolding size_part read_more
size_part-Kept stream u evs str here kept =
    let o = read_more 8 u evs str in
    let exact = read_more_exact 8 u evs str kept.2 in
    let whole : (o.job).got ++ o.stream ≡ stream = exact.0 ∙ kept.0 in
    if_read-Kept stream o size_read (rw here (whole, kept.1, exact.1))
      (((o.job).got, whole, refl, exact.1), kept.1, omega arith)

pub first_part-Kept :
    (stream : List ℕ) (u : Upload) (evs : List Event) (str : List ℕ)
    → u.state ≡ serving_state
    → Kept serving_state stream u str
    → KeptIn stream (first_part u evs str)
unfolding first_part read_more
first_part-Kept stream u evs str here kept =
    let o = read_more 1024 u evs str in
    let exact = read_more_exact 1024 u evs str kept.2 in
    let cut : Cut stream u.filesize (o.job).got o.stream =
      ((kept.0).0, ap (λ t. (kept.0).0 ++ t) exact.0 ∙ (kept.0).1, (kept.0).2, (kept.0).3) in
    if_read-Kept stream o (λ v. settle v []) (rw here (cut, kept.1, exact.1))
      (settle-Kept stream [] o.job o.stream (sym kept.1) cut)

pub next_part-Kept :
    (stream : List ℕ) (u : Upload) (evs : List Event) (str : List ℕ)
    → u.state ≡ read_data_state
    → Kept read_data_state stream u str
    → KeptIn stream (next_part u evs str)
unfolding next_part read_more
next_part-Kept stream u evs str here kept =
    let body = kept.0 in
    let o = read_more 1024 u evs str in
    let exact = read_more_exact 1024 u evs str kept.3 in
    let cut : Cut stream u.filesize (body ++ (o.job).got) o.stream = (
      (kept.2).0,
      ap (λ t. (kept.2).0 ++ t)
            (append_assoc body (o.job).got o.stream
              ∙ (ap (λ t. body ++ t) exact.0 ∙ sym (append_assoc body u.got str)))
          ∙ (kept.2).1,
      (kept.2).2,
      (kept.2).3,
    ) in
    let old : content u.file ≡ body = ap content (kept.1).0 in
    if_read-Kept stream o (λ v. settle v (content v.file)) (rw here (body, kept.1, cut, exact.1))
      (settle-Kept stream (content u.file) o.job o.stream (ap length old ∙ (kept.1).1) (rw old cut))
