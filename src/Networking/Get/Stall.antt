-- ===== src/Networking/Get/Stall.antt =====
-- handle_get of nonstop_networking/server.c when the socket is not ready at the start of a chunk:
-- the chunk has been read from the file, and is read over when the job is woken.
use system_programming.Base.{
  ℕ, zero, suc, ◌+◌, ◌<◌, ◌≤◌, ◌≡◌, refl, ap, List, [], ◌∷◌, false, leb, some, none, length, take,
  drop-all, arith, ◌++◌,
}
use system_programming.Networking.Sockets.{Event, again, blocked, writer}
use system_programming.Networking.Get.{
  write_data, Sending, next_chunk, chunk_out, data_round, data_loop, handle_get,
}

-- A job between two chunks.
abbrev pub between : ℕ → ℕ → List ℕ → List ℕ → List ℕ → Sending
between sent total buf file wire = record {
  phase = write_data;
  writesz = 0;
  datasz = sent;
  filesize = total;
  buf = buf;
  file = file;
  wire = wire;
}

take_all : (n : ℕ) (xs : List ℕ) → length xs ≤ n → take n xs ≡ xs
take_all zero [] h = refl
take_all zero (x ∷ xs) h = absurd (omega arith)
take_all (suc n) [] h = refl
take_all (suc n) (x ∷ xs) h = ap (◌∷◌ x) (take_all n xs (omega arith))

gt→leb : (a b : ℕ) → b < a → leb a b ≡ false
gt→leb a b h = ground arith

-- With the file read to its end and bytes missing, the loop never ends.
data_loop-stalls :
    (k sent total : ℕ) (buf wire : List ℕ) (evs : List Event)
    → sent < total
    → data_loop k (between sent total buf [] wire) evs ≡ none
unfolding data_loop data_round next_chunk chunk_out writer
data_loop-stalls zero sent total buf wire evs h = refl
data_loop-stalls (suc k) sent total buf wire evs h =
    rw (gt→leb total (sent + 0) (omega arith))
      (data_loop-stalls k (sent + 0) total [] (wire ++ []) evs (omega arith))

-- Of a job whose last chunk, of 1 to 1024 bytes, is still to be sent: when the socket is not ready
-- at the start of that chunk, handle_get goes back to the event loop with the chunk read from the
-- file and none of it sent; and when it is called again its loop ends for no number of rounds.
pub handle_get-stalls :
    (k more sent : ℕ) (buf file wire : List ℕ) (evs evs' : List Event)
    → 0 < length file
    → length file ≤ 1024
    → (handle_get (suc k) write_data (between sent (sent + length file) buf file wire) (again ∷ evs)
        ≡ some (record {
          ret = blocked;
          job = between sent (sent + length file) file [] (wire ++ []);
          events = evs;
        }))
      × (handle_get more write_data (between sent (sent + length file) file [] (wire ++ [])) evs'
          ≡ none)
unfolding handle_get data_loop data_round next_chunk writer
handle_get-stalls k more sent buf [] wire evs evs' h small = absurd (omega arith)
handle_get-stalls k more sent buf (b ∷ file) wire evs evs' h small = (
  rw (take_all 1023 file (omega arith), drop-all 1023 file (omega arith)) refl,
  data_loop-stalls more sent (sent + suc (length file)) (b ∷ file) (wire ++ []) evs' (omega arith),
)
