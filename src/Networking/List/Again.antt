-- ===== src/Networking/List/Again.antt =====
-- list of nonstop_networking/server.c, for a job that is woken again while it sends the names.
use system_programming.Base.{
  subst, sym, lt→ltb, ℕ, suc, ◌+◌, ◌^◌, ◌<◌, ◌≡◌, ◌≢◌, refl, ap, ◌∙◌, inl, inr, List, [], ◌∷◌, ◌++◌,
  true, Bool-cases, ltb, leb, ◌==◌, length, length-append, take, drop, take-append-drop, arith,
}
use system_programming.Networking.Sockets.{
  Event, again, interrupted, moves, fails, closed, done, blocked, blocked-done, writer, NeverClosed,
  all, blocks_here, breaks_here, writer-Sent,
}
use system_programming.Networking.Get.{
  Step, Sending, write_response_state, write_size_state, write_data, ok_bytes, write_response,
  size_bytes, write_size, opened_file,
}
use system_programming.Networking.List.{
  flist, reads_buffer, part_out, list_round, list_loop, list_data, list_from, list, list_again, Run,
  out_of_fuel, faulted, returns,
}
use system_programming.Networking.List.Exact.{
  before_data, listing-before_data, total_size, take-length, within_buffer,
}

-- A write that is not complete leaves bytes.
writer-short :
    (evs : List Event) (buf : List ℕ)
    → (writer evs buf).ret ≢ done
    → length (writer evs buf).sent < length buf
unfolding writer
writer-short evs [] h = absurd (h refl)
writer-short [] (b ∷ buf) h = omega arith
writer-short (again ∷ evs) (b ∷ buf) h = omega arith
writer-short (interrupted ∷ evs) (b ∷ buf) h = writer-short evs (b ∷ buf) h
writer-short (fails ∷ evs) (b ∷ buf) h = omega arith
writer-short (closed ∷ evs) (b ∷ buf) h = absurd (h refl)
writer-short (moves n ∷ evs) (b ∷ buf) h =
    let w = writer evs (drop n buf) in
    let parts =
      sym (length-append (take n buf) (drop n buf)) ∙ ap length (take-append-drop n buf) in
    omega (arith, length-append (take n buf) w.sent, writer-short evs (drop n buf) h, parts)

-- A call that goes back to the event loop in the state WRITE_DATA has bytes left to send.
abbrev LeavesBytes : Run → Type 0
LeavesBytes out_of_fuel = Unit {0}
LeavesBytes faulted = Unit {0}
LeavesBytes (returns r) =
    r.ret ≢ done → (r.job).phase ≡ write_data → (r.job).writesz < (r.job).filesize

list_loop-LeavesBytes :
    (k : ℕ) (bytes wire : List ℕ) (evs : List Event)
    → NeverClosed evs
    → LeavesBytes (list_loop (suc k) bytes (before_data bytes wire write_data) evs)
unfolding list_loop list_round part_out opened_file
list_loop-LeavesBytes k bytes wire evs o =
    let inside = within_buffer bytes (ltb 0 (length bytes)) (reads_buffer evs) in
    let full : leb (length bytes) (0 + (0 + length bytes)) ≡ true = ground arith in
    elim (writer-Sent evs bytes o) [
      | all e s n ↦ rw (inside, take-length bytes, e, s, full) (λ h p. absurd (h refl))
      | blocks_here e ↦
          let short = writer-short evs bytes (λ x. cc) in
          rw (inside, take-length bytes, e) (λ h p. omega (arith, short))
      | breaks_here e ↦
          let short = writer-short evs bytes (λ x. cc) in
          rw (inside, take-length bytes, e) (λ h p. omega (arith, short))
    ]

list_data-LeavesBytes :
    (k : ℕ) (bytes wire : List ℕ) (evs : List Event)
    → NeverClosed evs
    → LeavesBytes
        (list_data (suc k) bytes (write_size (before_data bytes wire write_size_state) evs))
unfolding list_data write_size opened_file
list_data-LeavesBytes k bytes wire evs o =
    let size = size_bytes 8 (length bytes) in
    elim (writer-Sent evs size o) [
      | all e s n ↦ elim (Bool-cases (length bytes == 0)) [
        | inl empty ↦ rw (e, s, empty) (λ h p. absurd (h refl))
        | inr more ↦
            rw (e, s, more)
              (list_loop-LeavesBytes k bytes (wire ++ size) (writer evs size).events n)
      ]
      | blocks_here e ↦ rw e (λ h p. cc)
      | breaks_here e ↦ rw e (λ h p. cc)
    ]

list_from-LeavesBytes :
    (k : ℕ) (bytes : List ℕ) (evs : List Event)
    → NeverClosed evs
    → LeavesBytes (
        list_from
          (suc k)
          bytes
          write_response_state
          (before_data bytes [] write_response_state)
          evs)
unfolding list_from write_response opened_file
list_from-LeavesBytes k bytes evs o = elim (writer-Sent evs ok_bytes o) [
  | all e s n ↦ rw (e, s) (list_data-LeavesBytes k bytes ok_bytes (writer evs ok_bytes).events n)
  | blocks_here e ↦ rw e (λ h p. cc)
  | breaks_here e ↦ rw e (λ h p. cc)
]

-- With bytes of the list to be sent, the kernel takes some from the fresh buffer.
list_again-faulted :
    (k : ℕ) (s : Sending) (evs : List Event)
    → s.phase ≡ write_data
    → s.writesz < s.filesize
    → reads_buffer evs ≡ true
    → list_again (suc k) s evs ≡ faulted
unfolding list_again list_from list_loop list_round
list_again-faulted k s evs here left reads =
    rw (here, lt→ltb s.writesz s.filesize left, lt→ltb 0 s.filesize (omega arith), reads) refl

-- For names that take fewer than 2^31 bytes with a NUL behind each, and a kernel that never takes 0
-- bytes: when the first call of list goes back to the event loop, in the state WRITE_DATA, since
-- the socket is not ready, and in the next call the kernel takes bytes before it reports anything
-- but an interruption, the next call sends bytes that it never wrote to its buffer.
pub list-list_again :
    (names : List (List ℕ)) (j k : ℕ) (evs evs' : List Event) (r : Step)
    → total_size names < 2 ^ 31
    → NeverClosed evs
    → list (suc j) names evs ≡ returns r
    → r.ret ≡ blocked
    → (r.job).phase ≡ write_data
    → reads_buffer evs' ≡ true
    → list_again (suc k) r.job evs' ≡ faulted
unfolding list
list-list_again names j k evs evs' r small o ran waits here reads =
    let leaves : LeavesBytes (list (suc j) names evs) =
      rw (listing-before_data names small) (list_from-LeavesBytes j (flist names) evs o) in
    list_again-faulted k r.job evs' here
      (subst LeavesBytes ran leaves (λ e. blocked-done (sym waits ∙ e)) here) reads
