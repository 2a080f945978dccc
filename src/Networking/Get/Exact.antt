-- ===== src/Networking/Get/Exact.antt =====
-- handle_get of nonstop_networking/server.c: what a GET puts on the socket in one go, and what
-- becomes of it when the socket is not ready at the start of a chunk.
use system_programming.Base.{
  ℕ, zero, suc, ◌+◌, ◌<◌, ◌≤◌, ◌≡◌, ◌≢◌, refl, sym, ap, subst, ◌∙◌, ◌⊎◌, inl, inr, List, [], ◌∷◌,
  ◌++◌, false, Bool-cases, leb→le, leb→gt, leb, ◌==◌, Option, some, length, length-append, take,
  drop, take-append-drop, append-nil, append_assoc, arith,
}
use system_programming.Networking.Sockets.{
  Event, done, writer, NeverClosed, all, blocks_here, breaks_here, writer-Sent,
}
use system_programming.Networking.Get.{
  write_response_state, write_size_state, write_data, finished, Sending, Step, ok_bytes,
  write_response, size_bytes, write_size, next_chunk, chunk_out, data_round, data_loop, data_part,
  handle_get, opened_file,
}

-- The job in its loop, before a chunk.
abbrev sending : ℕ → ℕ → List ℕ → List ℕ → List ℕ → Sending
sending sent total buf file wire = record {
  phase = write_data;
  writesz = 0;
  datasz = sent;
  filesize = total;
  buf = buf;
  file = file;
  wire = wire;
}

-- The call ended with everything sent, or went back to the event loop.
abbrev pub Answered : List ℕ → Option Step → Type 0
Answered bytes r =
    (s : Step) × (r ≡ some s)
    × (((s.ret ≡ done) × ((s.job).phase ≡ finished) × ((s.job).wire ≡ bytes)) ⊎ (s.ret ≢ done))

length-drop-take : (n : ℕ) (xs : List ℕ) → length (take n xs) + length (drop n xs) ≡ length xs
length-drop-take n xs =
    sym (length-append (take n xs) (drop n xs)) ∙ ap length (take-append-drop n xs)

take_pos : (n : ℕ) (xs : List ℕ) → 0 < n → 0 < length xs → 0 < length (take n xs)
take_pos zero xs h k = absurd (omega arith)
take_pos (suc n) [] h k = absurd (omega arith)
take_pos (suc n) (x ∷ xs) h k = omega arith

no_length : (xs : List ℕ) → length xs ≡ 0 → xs ≡ []
no_length [] h = refl
no_length (x ∷ xs) h = absurd (omega arith)

-- The last chunk is the whole rest.
take_last : (n : ℕ) (xs : List ℕ) → length xs ≤ length (take n xs) → take n xs ≡ xs
take_last n xs h =
    let sum = length-drop-take n xs in
    let none_left = no_length (drop n xs) (omega arith) in
    sym (append-nil (take n xs))
    ∙ (sym (ap (λ t. take n xs ++ t) none_left) ∙ take-append-drop n xs)

Answered-≡ : {a b : List ℕ} (r : Option Step) → a ≡ b → Answered a r → Answered b r
Answered-≡ r e = subst (λ a. Answered a r) e

-- The loop sends the rest of the file.
data_loop-Answered :
    (k sent total : ℕ) (buf file wire : List ℕ) (evs : List Event)
    → NeverClosed evs
    → sent + length file ≡ total
    → 0 < length file
    → length file < k
    → Answered (wire ++ file) (data_loop k (sending sent total buf file wire) evs)
unfolding data_loop data_round next_chunk chunk_out
data_loop-Answered zero sent total buf file wire evs o sum some_left fuel = absurd (omega arith)
data_loop-Answered (suc k) sent total buf file wire evs o sum some_left fuel =
    let chunk = take 1024 file in
    let w = writer evs chunk in
    let parts = length-drop-take 1024 file in
    let some_sent = take_pos 1024 file (omega arith) some_left in
    elim (writer-Sent evs chunk o) [
      | all e s n ↦ elim (Bool-cases (leb total (sent + (0 + length chunk)))) [
        | inl last ↦
            rw (e, s, last)
              (
                _,
                refl,
                inl (
                  refl,
                  refl,
                  ap (λ t. wire ++ t)
                      (take_last 1024 file
                        (omega (arith, leb→le total (sent + (0 + length chunk)) last))),
                ),
              )
        | inr more ↦
            rw (e, s, more)
              (Answered-≡
                (data_loop k
                  (sending (sent + (0 + length chunk)) total chunk (drop 1024 file) (wire ++ chunk))
                  w.events)
                (append_assoc wire chunk (drop 1024 file)
                  ∙ ap (λ t. wire ++ t) (take-append-drop 1024 file))
                (data_loop-Answered k (sent + (0 + length chunk)) total chunk (drop 1024 file)
                  (wire ++ chunk) w.events n (omega arith)
                  (omega (arith, leb→gt total (sent + (0 + length chunk)) more)) (omega arith)))
      ]
      | blocks_here e ↦ rw e (_, refl, inr (λ q. cc))
      | breaks_here e ↦ rw e (_, refl, inr (λ q. cc))
    ]

not_zero : (n : ℕ) → 0 < n → (n == 0) ≡ false
not_zero n h = ground arith

-- The size has gone out, and then the file.
write_size-Answered :
    (k : ℕ) (file wire : List ℕ) (evs : List Event)
    → NeverClosed evs
    → 0 < length file
    → length file < k
    → Answered (wire ++ (size_bytes 8 (length file) ++ file)) (
        data_part k (
          write_size
            (record {
              phase = write_size_state;
              writesz = 0;
              datasz = 0;
              filesize = length file;
              buf = [];
              file = file;
              wire = wire;
            })
            evs))
unfolding data_part write_size
write_size-Answered k file wire evs o some_left fuel =
    let size = size_bytes 8 (length file) in
    let w = writer evs size in
    elim (writer-Sent evs size o) [
      | all e s n ↦
          rw (e, s, not_zero (length file) some_left)
            (Answered-≡ (data_loop k (sending 0 (length file) [] file (wire ++ size)) w.events)
              (append_assoc wire size file)
              (data_loop-Answered k 0 (length file) [] file (wire ++ size) w.events n (omega arith)
                some_left fuel))
      | blocks_here e ↦ rw e (_, refl, inr (λ q. cc))
      | breaks_here e ↦ rw e (_, refl, inr (λ q. cc))
    ]

-- For a file that is not empty and a kernel that never takes 0 bytes, one call of handle_get ends
-- within as many rounds as the file has bytes, and one more: it has written the response, the size
-- in 8 bytes and the file, and is finished, or it goes back to the event loop without success.
pub handle_get-Answered :
    (file : List ℕ) (evs : List Event)
    → 0 < length file
    → NeverClosed evs
    → Answered
        (ok_bytes ++ (size_bytes 8 (length file) ++ file))
        (handle_get (suc (length file)) write_response_state (opened_file file) evs)
unfolding handle_get data_part write_response write_size opened_file
handle_get-Answered file evs some_left o = elim (writer-Sent evs ok_bytes o) [
  | all e s n ↦
      rw (e, s)
        (write_size-Answered (suc (length file)) file ok_bytes (writer evs ok_bytes).events n
          some_left (omega arith))
  | blocks_here e ↦ rw e (_, refl, inr (λ q. cc))
  | breaks_here e ↦ rw e (_, refl, inr (λ q. cc))
]
