-- ===== src/Networking/List/Exact.antt =====
-- list of nonstop_networking/server.c: what a LIST puts on the socket in one go, and what becomes of it
-- when the job is woken again.
use system_programming.Base.{
  subst, lt→ltb, ℕ, suc, ◌+◌, ◌^◌, ◌-◌, ◌≤◌, ◌<◌, ◌≡◌, refl, sym, ap, ◌∙◌, inl, inr, List, [], ◌∷◌,
  ◌++◌, Bool, true, false, Bool-cases, leb, ltb, ◌==◌, ◌&&◌, Option, some, none, length,
  length-append, take, append_assoc, append-nil, arith,
}
use system_programming.Networking.Sockets.{
  Event, writer, NeverClosed, all, blocks_here, breaks_here, writer-Sent,
}
use system_programming.Networking.Get.{
  Phase, Step, write_response_state, write_size_state, write_data, Sending, ok_bytes,
  write_response, size_bytes, write_size, opened_file,
}
use system_programming.Networking.Get.Exact.{Answered}
use system_programming.Clib.Ints.{take-int_bound}
use system_programming.Networking.List.{
  more_names, flist, file_names, names_size, build_flist, listing, Run, out_of_fuel, faulted,
  returns, reads_buffer, part_out, list_round, list_loop, list_data, list_from, list,
}

no_length : (xs : List ℕ) → length xs ≡ 0 → xs ≡ []
no_length [] h = refl
no_length (x ∷ xs) h = absurd (omega arith)

-- The call returned, and has answered with these bytes or went back to the event loop.
abbrev step_of : Run → Option Step
step_of out_of_fuel = none
step_of faulted = none
step_of (returns r) = some r

abbrev pub Answers : List ℕ → Run → Type 0
Answers bytes r = Answered bytes (step_of r)

-- strlen + 1 of every name, without wrap-around.
abbrev pub total_size : List (List ℕ) → ℕ
total_size [] = 0
total_size (n ∷ ns) = length n + 1 + total_size ns

length-more_names : (ns : List (List ℕ)) → length (more_names ns) ≡ total_size ns
unfolding more_names
length-more_names [] = refl
length-more_names (n ∷ ns) = omega (arith, length-append n (more_names ns), length-more_names ns)

names_size-small : (ns : List (List ℕ)) → total_size ns < 2 ^ 31 → names_size ns ≡ total_size ns
unfolding names_size
names_size-small [] small = refl
names_size-small (n ∷ ns) small = omega (arith, names_size-small ns (omega arith))

length-total_size : (ns : List (List ℕ)) → length ns ≤ total_size ns
length-total_size [] = omega arith
length-total_size (n ∷ ns) = omega (arith, length-total_size ns)

-- The size is that of the names with a newline between each two.
length-flist : (n : List ℕ) (ns : List (List ℕ)) → length (flist (n ∷ ns)) + 1 ≡ total_size (n ∷ ns)
unfolding flist
length-flist n ns = omega (arith, length-append n (more_names ns), length-more_names ns)

pub take-length : (xs : List ℕ) → take (length xs) xs ≡ xs
take-length [] = refl
take-length (x ∷ xs) = ap (◌∷◌ x) (take-length xs)

-- The job before its first byte of data, with the buffer that it has built.
abbrev pub before_data : List ℕ → List ℕ → Phase → Sending
before_data bytes wire phase = record (opened_file []) {
  phase = phase;
  filesize = length bytes;
  wire = wire;
}

pub within_buffer :
    (bytes : List ℕ) (b c : Bool) → (b && ltb (length bytes) (length bytes) && c) ≡ false
within_buffer bytes b c = ground arith

list_loop-Answered :
    (k : ℕ) (bytes wire : List ℕ) (evs : List Event)
    → NeverClosed evs
    → Answers (wire ++ bytes) (list_loop (suc k) bytes (before_data bytes wire write_data) evs)
unfolding list_loop list_round part_out opened_file
list_loop-Answered k bytes wire evs o =
    let inside = within_buffer bytes (ltb 0 (length bytes)) (reads_buffer evs) in
    let full : leb (length bytes) (0 + (0 + length bytes)) ≡ true = ground arith in
    elim (writer-Sent evs bytes o) [
      | all e s n ↦ rw (inside, take-length bytes, e, s, full) (_, refl, inl (refl, refl, refl))
      | blocks_here e ↦ rw (inside, take-length bytes, e) (_, refl, inr (λ q. cc))
      | breaks_here e ↦ rw (inside, take-length bytes, e) (_, refl, inr (λ q. cc))
    ]

list_data-Answered :
    (k : ℕ) (bytes wire : List ℕ) (evs : List Event)
    → NeverClosed evs
    → Answers
        (wire ++ (size_bytes 8 (length bytes) ++ bytes))
        (list_data (suc k) bytes (write_size (before_data bytes wire write_size_state) evs))
unfolding list_data write_size opened_file
list_data-Answered k bytes wire evs o =
    let size = size_bytes 8 (length bytes) in
    elim (writer-Sent evs size o) [
      | all e s n ↦ elim (Bool-cases (length bytes == 0)) [
        | inl empty ↦
            rw (e, s, empty)
              (
                _,
                refl,
                inl (
                  refl,
                  refl,
                  ap (λ t. wire ++ t)
                      (sym (append-nil size)
                        ∙ ap (λ t. size ++ t) (sym (no_length bytes (ground arith)))),
                ),
              )
        | inr more ↦
            rw (e, s, more)
              (subst
                (λ t. Answers t (
                  list_loop (suc k) bytes (before_data bytes (wire ++ size) write_data)
                    (writer evs size).events))
                (append_assoc wire size bytes)
                (list_loop-Answered k bytes (wire ++ size) (writer evs size).events n))
      ]
      | blocks_here e ↦ rw e (_, refl, inr (λ q. cc))
      | breaks_here e ↦ rw e (_, refl, inr (λ q. cc))
    ]

list_from-Answered :
    (k : ℕ) (bytes : List ℕ) (evs : List Event)
    → NeverClosed evs
    → Answers (ok_bytes ++ (size_bytes 8 (length bytes) ++ bytes)) (
        list_from
          (suc k)
          bytes
          write_response_state
          (before_data bytes [] write_response_state)
          evs)
unfolding list_from write_response opened_file
list_from-Answered k bytes evs o = elim (writer-Sent evs ok_bytes o) [
  | all e s n ↦ rw (e, s) (list_data-Answered k bytes ok_bytes (writer evs ok_bytes).events n)
  | blocks_here e ↦ rw e (_, refl, inr (λ q. cc))
  | breaks_here e ↦ rw e (_, refl, inr (λ q. cc))
]

-- The buffer is that of all names, and the job has its size.
pub listing-before_data :
    (ns : List (List ℕ))
    → total_size ns < 2 ^ 31
    → listing ns ≡ some (flist ns, before_data (flist ns) [] write_response_state)
unfolding listing opened_file flist file_names build_flist
listing-before_data [] small = refl
listing-before_data (n ∷ ns) small =
    let seen = take-int_bound (n ∷ ns) (omega (arith, length-total_size (n ∷ ns))) in
    let size = names_size-small (n ∷ ns) small in
    let bytes = length-flist n ns in
    let fits : ltb (names_size (n ∷ ns)) (2 ^ 31) ≡ true = lt→ltb _ _ (omega (arith, size)) in
    let room : ltb (length (flist (n ∷ ns))) (names_size (n ∷ ns)) ≡ true =
      lt→ltb _ _ (omega (arith, size, bytes)) in
    let length_is : names_size (n ∷ ns) - 1 ≡ length (flist (n ∷ ns)) =
      omega (arith, size, bytes) in
    rw (seen, fits, room)
      (ap (λ l. some (flist (n ∷ ns), record (opened_file []) { filesize = l })) length_is)

-- For names in file_list that take fewer than 2^31 bytes with a NUL behind each, and a kernel that
-- never takes 0 bytes, the first call of list returns within one round of its loop: it has written
-- the response, the size in 8 bytes and the names with a newline between each two, and is finished,
-- or it goes back to the event loop without success.
pub list-Answered :
    (names : List (List ℕ)) (k : ℕ) (evs : List Event)
    → total_size names < 2 ^ 31
    → NeverClosed evs
    → Answers
        (ok_bytes ++ (size_bytes 8 (length (flist names)) ++ flist names))
        (list (suc k) names evs)
unfolding list
list-Answered names k evs small o =
    rw (listing-before_data names small) (list_from-Answered k (flist names) evs o)
