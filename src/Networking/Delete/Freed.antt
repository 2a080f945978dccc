-- ===== src/Networking/Delete/Freed.antt =====
-- handle_delete and write_err of nonstop_networking/server.c: what becomes of the file name that a
-- job has freed.
use system_programming.Base.{
  some_inj, ℕ, suc, ◌≡◌, refl, sym, ap, ◌∙◌, List, [], ◌∷◌, ◌++◌, Bool, true, false, Bool-cases,
  inl, inr, leb, if◌then◌else◌, Option, none, some, length, ◌>>=◌, arith,
}
use system_programming.Clib.Strings.{equals, equals_refl}
use system_programming.Networking.Sockets.{Event, Ret, done, blocked, failed}
use system_programming.Networking.Get.{ok_bytes}
use system_programming.Networking.Put.{write_response_state, error_state}
use system_programming.Networking.Delete.{
  Answer, Deletion, accepted_delete, ended, erase_name, error_bytes, handle_delete, keep_name,
  opened, openfile, remove_file, respond_removed, send_last, write_err,
}

-- Some name of the list is the given one.
unfoldable pub has_name : List ℕ → List (List ℕ) → Bool
has_name name [] = false
has_name name (n ∷ ns) = let rest = has_name name ns in if equals n name then true else rest

erase_name-freed :
    (name : List ℕ) (back : List (List ℕ))
    → erase_name name false true back ≡ (if leb 2 (length back) then none else some (back, false))
unfolding erase_name
erase_name-freed name [] = refl
erase_name-freed name (m ∷ []) = refl
erase_name-freed name (m ∷ (n ∷ ns)) =
    let two : leb 2 (suc (suc (length ns))) ≡ true = ground arith in rw two refl

keep_name-if :
    (b : Bool) (n : List ℕ) (ns : List (List ℕ))
    → keep_name n (if b then none else some (ns, false))
      ≡ (if b then none else some (n ∷ ns, false))
keep_name-if true n ns = refl
keep_name-if false n ns = refl

erase_name-has_name :
    (name : List ℕ) (front back : List (List ℕ))
    → has_name name front ≡ false
    → erase_name name true false (front ++ name ∷ back)
      ≡ (if leb 2 (length back) then none else some (front ++ back, false))
unfolding erase_name has_name
erase_name-has_name name [] back h = rw (equals_refl name) (erase_name-freed name back)
erase_name-has_name name (f ∷ front) back h = elim (Bool-cases (equals f name)) [
  | inl same ↦ absurd (ground arith)
  | inr other ↦
      let absent : has_name name front ≡ false = ground arith in
      rw (other, erase_name-has_name name front back absent)
        (keep_name-if (leb 2 (length back)) f (front ++ back))
]

bind-if :
    {A : Type 0} {B : Type 0} (f : A → B) (b : Bool) (x : A)
    → ((if b then none else some x) >>= λ r. some (f r)) ≡ (if b then none else some (f x))
bind-if f true x = refl
bind-if f false x = refl

-- For a DELETE of a file that exists and whose name is in file_list, handle_delete compares its own
-- file name, after it was freed, with another name, when at least two names stand behind the first
-- that is equal; with fewer it erases that name, no other, and goes on to the response.
pub handle_delete-has_name :
    (name : List ℕ) (front back : List (List ℕ)) (bytes : List ℕ) (evs : List Event)
    → has_name name front ≡ false
    → handle_delete name (accepted_delete (front ++ name ∷ back) (some bytes)) evs ≡ (
        if leb 2 (length back)
        then none
        else some (
            respond_removed
              (accepted_delete (front ++ name ∷ back) (some bytes))
              evs
              (front ++ back, false)))
unfolding handle_delete openfile remove_file accepted_delete
handle_delete-has_name name front back bytes evs h = rw (erase_name-has_name name front back h) (
    bind-if (respond_removed (accepted_delete (front ++ name ∷ back) (some bytes)) evs)
      (leb 2 (length back)) (front ++ back, false))

-- A call of writer does not touch the name or the file, and the state only at the end.
send_last-kept :
    (bytes : List ℕ) (d : Deletion) (evs : List Event)
    → ((send_last bytes d evs).job.named ≡ d.named)
      × ((send_last bytes d evs).job.file ≡ d.file)
      × ((send_last bytes d evs).ret ≡ blocked → (send_last bytes d evs).job.state ≡ d.state)
unfolding send_last
send_last-kept bytes d evs = by_ret _ _
  where
    by_ret :
        (r : Ret) (t : Deletion)
        → ((ended r t).named ≡ t.named)
          × ((ended r t).file ≡ t.file)
          × (r ≡ blocked → (ended r t).state ≡ t.state)
    by_ret done t = (refl, refl, λ e. absurd (cc))
    by_ret blocked t = (refl, refl, λ e. refl)
    by_ret failed t = (refl, refl, λ e. absurd (cc))

-- For a DELETE of a file that exists, whose response has to wait for the socket: the next call of
-- handle_delete opens the file again, by a file name that was freed, or, when the name was not in
-- file_list, finds no file and turns the job into an error.
handle_delete-again :
    (name : List ℕ) (listed : List (List ℕ)) (bytes : List ℕ) (evs more : List Event) (a : Answer)
    → handle_delete name (accepted_delete listed (some bytes)) evs ≡ some a
    → a.ret ≡ blocked
    → handle_delete name a.job more ≡ (
        if (a.job).named
        then some (record { ret = done; job = record a.job { state = error_state }; events = more })
        else none)
unfolding handle_delete openfile remove_file accepted_delete respond_removed
handle_delete-again name listed bytes evs more a h waits =
    by_erase (erase_name name true false listed) h
  where
    again :
        (d : Deletion)
        → d.state ≡ write_response_state
        → d.file ≡ none
        → handle_delete name d more ≡ (
            if d.named
            then some (record { ret = done; job = record d { state = error_state }; events = more })
            else none)
    again d e f = rw (ap (λ o. opened o d) f, e) refl

    by_erase :
        (o : Option (List (List ℕ) × Bool))
        → (o >>= λ r. some (respond_removed (accepted_delete listed (some bytes)) evs r)) ≡ some a
        → handle_delete name a.job more ≡ (
            if (a.job).named
            then some
                (record { ret = done; job = record a.job { state = error_state }; events = more })
            else none)
    by_erase none e = absurd cc
    by_erase (some r) e =
        let b = respond_removed (accepted_delete listed (some bytes)) evs r in
        let same : b ≡ a = some_inj e in
        let kept =
          send_last-kept ok_bytes
            (record (accepted_delete listed (some bytes)) {
              file = none;
              listed = r.0;
              named = r.1;
              state = write_response_state;
            })
            evs in
        again a.job (sym (ap (λ x. x.job.state) same) ∙ kept.2 (ap (λ x. x.ret) same ∙ waits))
          (sym (ap (λ x. x.job.file) same) ∙ kept.1)

-- After a call of write_err, the next one for the job frees the file name again.
write_err-again :
    (message : List ℕ) (d : Deletion) (evs more : List Event) (a : Answer)
    → write_err message d evs ≡ some a
    → write_err message a.job more ≡ none
unfolding write_err
write_err-again message d evs more a h = by_named d.named h
  where
    gone : (d : Deletion) → d.named ≡ false → write_err message d more ≡ none
    gone d e = rw e refl

    by_named :
        (b : Bool)
        → (if b
            then some (send_last (error_bytes ++ message) (record d { named = false }) evs)
            else none)
          ≡ some a
        → write_err message a.job more ≡ none
    by_named true e = gone a.job (
        sym (ap (λ x. x.job.named) (some_inj e))
        ∙ (send_last-kept (error_bytes ++ message) (record d { named = false }) evs).0)
    by_named false e = absurd cc
