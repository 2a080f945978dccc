-- ===== src/Networking/Put/Rounds.antt =====
-- put of nonstop_networking/server.c: its loop on the data.
use system_programming.Base.{
  ℕ, zero, suc, ◌+◌, ◌<◌, ◌≤◌, ◌≡◌, refl, sym, ap, subst, ◌∙◌, inl, inr, List, [], true, false,
  Bool-cases, ltb, ltb→ge, ◌==◌, if◌then◌else◌, Option, some, length, length-append, arith,
}
use system_programming.Networking.Sockets.{Event, Ret, done, blocked, failed}
use system_programming.Networking.Put.{
  Upload, PutState, Outcome, read_size_state, serving_state, read_data_state, write_response_state,
  done_state, error_state, read_more, settle, content, if_read, first_part, next_part, goes_on,
  data_rounds, serve,
}
use system_programming.Networking.Put.Kept.{
  Kept, KeptIn, read_more_exact, first_part-Kept, next_part-Kept,
}

-- The call returned to the event loop, or nothing more is read in this state.
abbrev pub IsOver : Ret → PutState → Type 0
IsOver done read_size_state = ⊥
IsOver done serving_state = ⊥
IsOver done read_data_state = ⊥
IsOver done write_response_state = Unit {0}
IsOver done done_state = Unit {0}
IsOver done error_state = Unit {0}
IsOver blocked s = Unit {0}
IsOver failed s = Unit {0}

abbrev pub Reads : List ℕ → Option Outcome → Type 0
Reads stream r = (o : Outcome) × (r ≡ some o) × KeptIn stream o × IsOver o.ret (o.job).state

-- The bytes that are in the buffer or not read.
abbrev pub unread : Outcome → ℕ
unread o = length (o.job).got + length o.stream

-- What a part of put decides: to stop, or to go through the loop with fewer bytes than `n`.
data Decision (n : ℕ) (o : Outcome) : Type 0 where
  stops : goes_on o.ret (o.job).state ≡ false → IsOver o.ret (o.job).state → Decision n o
  loops :
      goes_on o.ret (o.job).state ≡ true
      → (o.job).state ≡ read_data_state
      → unread o < n
      → Decision n o

settle-Decision :
    (o : Outcome) (old : List ℕ)
    → Decision (unread o) (record o { ret = done; job = settle o.job old })
unfolding settle
settle-Decision o old =
    let u = o.job in
    let n = u.datasz + length u.got in
    elim (Bool-cases (ltb u.filesize n)) [
      | inl more ↦ stops (rw more refl) (rw more tt)
      | inr fits ↦ elim (Bool-cases (n == u.filesize)) [
        | inl full ↦ stops (rw (fits, full) refl) (rw (fits, full) tt)
        | inr short ↦ elim (Bool-cases (ltb (length u.got) 1024)) [
          | inl ended ↦ stops (rw (fits, short, ended) refl) (rw (fits, short, ended) tt)
          | inr goes ↦
              loops (rw (fits, short, goes) refl) (rw (fits, short, goes) refl)
                (rw (fits, short, goes) (omega (arith, ltb→ge (length u.got) 1024 goes)))
        ]
      ]
    ]

if_settled :
    (n : ℕ) (o : Outcome) (old : Upload → List ℕ)
    → unread o ≡ n
    → Decision n (if_read o (λ v. settle v (old v)))
if_settled n o old same = by_ret o.ret refl
  where
    by_ret : (r : Ret) → o.ret ≡ r → Decision n (if_read o (λ v. settle v (old v)))
    by_ret done e = rw e (rw (sym same) (settle-Decision o (old o.job)))
    by_ret blocked e = rw e (stops refl tt)
    by_ret failed e = rw e (stops refl tt)

part-Decision :
    (u : Upload) (evs : List Event) (str : List ℕ) (old : Upload → List ℕ)
    → length u.got ≤ 1024
    → Decision
        (length u.got + length str)
        (if_read (read_more 1024 u evs str) (λ v. settle v (old v)))
part-Decision u evs str old small =
    let o = read_more 1024 u evs str in
    let exact = read_more_exact 1024 u evs str small in
    if_settled _ o old
      (sym (length-append (o.job).got o.stream) ∙ (ap length exact.0 ∙ length-append u.got str))

-- A part of put and the loop behind it, when the loop reads on from where the part ends.
then-Reads :
    (stream : List ℕ) (k n : ℕ) (o : Outcome)
    → Decision n o
    → KeptIn stream o
    → (goes_on o.ret (o.job).state ≡ true
        → (o.job).state ≡ read_data_state
        → unread o < n
        → Reads stream (data_rounds k o.job o.events o.stream))
    → Reads stream
        (if goes_on o.ret (o.job).state then data_rounds k o.job o.events o.stream else some o)
then-Reads stream k n o (stops stay over) kept loop = rw stay (o, refl, kept, over)
then-Reads stream k n o (loops goes here less) kept loop = rw goes (loop goes here less)

pub data_rounds-Reads :
    (stream : List ℕ) (k : ℕ) (u : Upload) (evs : List Event) (str : List ℕ)
    → u.state ≡ read_data_state
    → Kept read_data_state stream u str
    → length u.got + length str < k
    → Reads stream (data_rounds k u evs str)
unfolding data_rounds next_part
data_rounds-Reads stream zero u evs str here kept enough = absurd (omega arith)
data_rounds-Reads stream (suc k) u evs str here kept enough =
    let o = next_part u evs str in
    let keeps = next_part-Kept stream u evs str here kept in
    then-Reads stream k _ o (part-Decision u evs str (λ v. content v.file) kept.3) keeps
      (λ goes there less.
        data_rounds-Reads stream k o.job o.events o.stream there
          (subst (λ s. Kept s stream o.job o.stream) there keeps) (omega (arith, less, enough)))

pub serve-Reads :
    (stream : List ℕ) (k : ℕ) (u : Upload) (evs : List Event) (str : List ℕ)
    → u.state ≡ serving_state
    → Kept serving_state stream u str
    → length u.got + length str < k
    → Reads stream (serve k u evs str)
unfolding serve first_part
serve-Reads stream k u evs str here kept enough =
    let o = first_part u evs str in
    let keeps = first_part-Kept stream u evs str here kept in
    then-Reads stream k _ o (part-Decision u evs str (λ v. []) kept.2) keeps (λ goes there less.
      data_rounds-Reads stream k o.job o.events o.stream there
        (subst (λ s. Kept s stream o.job o.stream) there keeps) (omega (arith, less, enough)))
