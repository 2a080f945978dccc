-- ===== src/Concurrency/Rendezvous.antt =====
-- critical_concurrency/rendezvous.c: two threads, each of which decodes one quote and prints the other's.
-- A step is one byte decoded, a sem_post, or a sem_wait with the print behind it. The semaphores are
-- POSIX ones: sem_wait goes on only when the value is above 0, and takes one.
use system_programming.Base.{
  ℕ, zero, suc, ◌+◌, ◌%◌, ◌≡◌, ◌⊎◌, inl, inr, refl, ap, sym, ◌∙◌, List, [], ◌∷◌, ◌++◌, map,
  append_assoc, Option, none, some, c_string, arith,
}

-- Decoding, between sem_post and sem_wait, and behind the print.
pub data ThreadState : Type 0 where
  decodes : ThreadState
  waits : ThreadState
  ended : ThreadState

-- A quote: the bytes that `i` has gone past, changed, and those from `i` on.
pub record Quote : Type 0 where
  pub before : List ℕ
  pub left : List ℕ

pub record Rendezvous : Type 0 where
  pub quote_a : Quote
  pub quote_b : Quote
  pub s1 : ℕ
  pub s2 : ℕ
  pub first : ThreadState
  pub second : ThreadState
  pub printed_a : Option (List ℕ)
  pub printed_b : Option (List ℕ)

-- `quote[i]--` on a char.
unfoldable pub decoded : ℕ → ℕ
decoded c = (c + 255) % 256

-- What printf prints of it: a byte that is decoded to 0 ends the string.
abbrev pub printed_text : Quote → List ℕ
printed_text q = c_string (q.before ++ q.left)

abbrev pub decode_one : Quote → ℕ → List ℕ → Quote
decode_one q c cs = record { before = q.before ++ decoded c ∷ []; left = cs }

unfoldable pub begin : List ℕ → List ℕ → Rendezvous
begin a b = record {
  quote_a = record { before = []; left = a };
  quote_b = record { before = []; left = b };
  s1 = 0;
  s2 = 0;
  first = decodes;
  second = decodes;
  printed_a = none;
  printed_b = none;
}

-- The first thread is modifyA_printB, the second modifyB_printA.
pub data Step (r : Rendezvous) : Rendezvous → Type 0 where
  decode_a :
      (c : ℕ) (cs : List ℕ)
      → r.first ≡ decodes
      → r.quote_a.left ≡ c ∷ cs
      → Step r (record r { quote_a = decode_one r.quote_a c cs })
  decode_b :
      (c : ℕ) (cs : List ℕ)
      → r.second ≡ decodes
      → r.quote_b.left ≡ c ∷ cs
      → Step r (record r { quote_b = decode_one r.quote_b c cs })
  post_a :
      r.first ≡ decodes → r.quote_a.left ≡ [] → Step r (record r { first = waits; s1 = suc r.s1 })
  post_b :
      r.second ≡ decodes → r.quote_b.left ≡ [] → Step r (record r { second = waits; s2 = suc r.s2 })
  print_b :
      (k : ℕ)
      → r.first ≡ waits
      → r.s2 ≡ suc k
      → Step r (record r { first = ended; s2 = k; printed_b = some (printed_text r.quote_b) })
  print_a :
      (k : ℕ)
      → r.second ≡ waits
      → r.s1 ≡ suc k
      → Step r (record r { second = ended; s1 = k; printed_a = some (printed_text r.quote_a) })

pub data Reach (a b : List ℕ) : Rendezvous → Type 0 where
  begins : Reach a b (begin a b)
  goes_on : {r r' : Rendezvous} → Reach a b r → Step r r' → Reach a b r'

-- How often the thread has posted, and how often it has waited.
abbrev posts : ThreadState → ℕ
posts decodes = 0
posts waits = 1
posts ended = 1

abbrev passes : ThreadState → ℕ
passes decodes = 0
passes waits = 0
passes ended = 1

-- A quote is decoded as far as it is read, and whole when the thread has posted.
abbrev Decodes : List ℕ → Quote → ThreadState → Type 0
Decodes a q phase =
    (q.before ++ map decoded q.left ≡ map decoded a) × ((posts phase ≡ 0) ⊎ (q.left ≡ []))

abbrev Prints : List ℕ → Option (List ℕ) → ThreadState → Type 0
Prints b none phase = passes phase ≡ 0
Prints b (some s) phase = (s ≡ c_string (map decoded b)) × (passes phase ≡ 1)

pub record Inv (a b : List ℕ) (r : Rendezvous) : Type 0 where
  pub a_decodes : Decodes a r.quote_a r.first
  pub b_decodes : Decodes b r.quote_b r.second
  pub counts_a : r.s1 + passes r.second ≡ posts r.first
  pub counts_b : r.s2 + passes r.first ≡ posts r.second
  pub a_prints : Prints a r.printed_a r.second
  pub b_prints : Prints b r.printed_b r.first

Prints-passes :
    (b : List ℕ) (o : Option (List ℕ)) (p p' : ThreadState)
    → passes p ≡ passes p'
    → Prints b o p
    → Prints b o p'
Prints-passes b none p p' e h = sym e ∙ h
Prints-passes b (some s) p p' e h = (h.0, sym e ∙ h.1)

-- One byte more.
decode_one-Decodes :
    (a : List ℕ) (q : Quote) (phase : ThreadState) (c : ℕ) (cs : List ℕ)
    → phase ≡ decodes
    → q.left ≡ c ∷ cs
    → Decodes a q phase
    → Decodes a (decode_one q c cs) phase
decode_one-Decodes a q phase c cs running e h = (
  append_assoc q.before (decoded c ∷ []) (map decoded cs)
      ∙ ap (λ l. q.before ++ map decoded l) (sym e)
      ∙ h.0,
  inl (ap posts running),
)

-- A quote whose thread has posted.
whole_decoded :
    (a : List ℕ) (q : Quote) (phase : ThreadState) (n : ℕ)
    → posts phase ≡ suc n
    → Decodes a q phase
    → printed_text q ≡ c_string (map decoded a)
whole_decoded a q phase n posted (read, inl not_yet) = absurd (omega arith)
whole_decoded a q phase n posted (read, inr e) =
    ap c_string (ap (◌++◌ q.before) (e ∙ sym (ap (map decoded) e)) ∙ read)

Step-Inv : (a b : List ℕ) (r : Rendezvous) {r' : Rendezvous} → Inv a b r → Step r r' → Inv a b r'
Step-Inv a b r inv (decode_a c cs running e) = record {
  a_decodes = decode_one-Decodes a r.quote_a r.first c cs running e inv.a_decodes;
  b_decodes = inv.b_decodes;
  counts_a = inv.counts_a;
  counts_b = inv.counts_b;
  a_prints = inv.a_prints;
  b_prints = inv.b_prints;
}
Step-Inv a b r inv (decode_b c cs running e) = record {
  a_decodes = inv.a_decodes;
  b_decodes = decode_one-Decodes b r.quote_b r.second c cs running e inv.b_decodes;
  counts_a = inv.counts_a;
  counts_b = inv.counts_b;
  a_prints = inv.a_prints;
  b_prints = inv.b_prints;
}
Step-Inv a b r inv (post_a running e) = record {
  a_decodes = (inv.a_decodes.0, inr e);
  b_decodes = inv.b_decodes;
  counts_a = omega (arith, inv.counts_a, ap posts running);
  counts_b = omega (arith, inv.counts_b, ap passes running);
  a_prints = inv.a_prints;
  b_prints = Prints-passes b r.printed_b r.first waits (ap passes running) inv.b_prints;
}
Step-Inv a b r inv (post_b running e) = record {
  a_decodes = inv.a_decodes;
  b_decodes = (inv.b_decodes.0, inr e);
  counts_a = omega (arith, inv.counts_a, ap passes running);
  counts_b = omega (arith, inv.counts_b, ap posts running);
  a_prints = Prints-passes a r.printed_a r.second waits (ap passes running) inv.a_prints;
  b_prints = inv.b_prints;
}
Step-Inv a b r inv (print_b k waiting e) =
    let posted : posts r.second ≡ suc k = omega (arith, inv.counts_b, e, ap passes waiting) in
    record {
      a_decodes = (
        inv.a_decodes.0,
        elim inv.a_decodes.1 [
          | inl not_yet ↦ absurd (omega (arith, not_yet, ap posts waiting))
          | inr read ↦ inr read
        ],
      );
      b_decodes = inv.b_decodes;
      counts_a = omega (arith, inv.counts_a, ap posts waiting);
      counts_b = omega (arith, posted);
      a_prints = inv.a_prints;
      b_prints = (whole_decoded b r.quote_b r.second k posted inv.b_decodes, refl);
    }
Step-Inv a b r inv (print_a k waiting e) =
    let posted : posts r.first ≡ suc k = omega (arith, inv.counts_a, e, ap passes waiting) in
    record {
      a_decodes = inv.a_decodes;
      b_decodes = (
        inv.b_decodes.0,
        elim inv.b_decodes.1 [
          | inl not_yet ↦ absurd (omega (arith, not_yet, ap posts waiting))
          | inr read ↦ inr read
        ],
      );
      counts_a = omega (arith, posted);
      counts_b = omega (arith, inv.counts_b, ap posts waiting);
      a_prints = (whole_decoded a r.quote_a r.first k posted inv.a_decodes, refl);
      b_prints = inv.b_prints;
    }

Reach-Inv : (a b : List ℕ) {r : Rendezvous} → Reach a b r → Inv a b r
unfolding begin
Reach-Inv a b begins = record {
  a_decodes = (refl, inl refl);
  b_decodes = (refl, inl refl);
  counts_a = refl;
  counts_b = refl;
  a_prints = refl;
  b_prints = refl;
}
Reach-Inv a b (goes_on {r} reach step) = Step-Inv a b r (Reach-Inv a b reach) step

-- Nothing is printed, or the decoded quote up to its first 0.
abbrev pub PrintsDecoded : List ℕ → Option (List ℕ) → Type 0
PrintsDecoded a o = (o ≡ none) ⊎ (o ≡ some (c_string (map decoded a)))

printed_lem :
    (a : List ℕ) (o : Option (List ℕ)) (p : ThreadState) → Prints a o p → PrintsDecoded a o
printed_lem a none p h = inl refl
printed_lem a (some s) p h = inr (ap some h.0)

-- What can go on in a state that is not the last.
abbrev pub GoesOn : Rendezvous → Type 0
GoesOn r = ((r.first ≡ ended) × (r.second ≡ ended)) ⊎ ((r' : Rendezvous) × Step r r')

decode_or_post :
    (r : Rendezvous) (l : List ℕ)
    → r.first ≡ decodes
    → r.quote_a.left ≡ l
    → (r' : Rendezvous) × Step r r'
decode_or_post r [] running e = (_, post_a running e)
decode_or_post r (c ∷ cs) running e = (_, decode_a c cs running e)

decode_or_post_b :
    (r : Rendezvous) (l : List ℕ)
    → r.second ≡ decodes
    → r.quote_b.left ≡ l
    → (r' : Rendezvous) × Step r r'
decode_or_post_b r [] running e = (_, post_b running e)
decode_or_post_b r (c ∷ cs) running e = (_, decode_b c cs running e)

print_or_not :
    (r : Rendezvous) (p q : ThreadState) (m n : ℕ)
    → r.first ≡ p
    → r.second ≡ q
    → r.s1 ≡ m
    → r.s2 ≡ n
    → m + passes q ≡ posts p
    → n + passes p ≡ posts q
    → GoesOn r
print_or_not r decodes q m n ep eq e1 e2 ca cb = inr (decode_or_post r r.quote_a.left ep refl)
print_or_not r p decodes m n ep eq e1 e2 ca cb = inr (decode_or_post_b r r.quote_b.left eq refl)
print_or_not r ended ended m n ep eq e1 e2 ca cb = inl (ep, eq)
print_or_not r waits waits m zero ep eq e1 e2 ca cb = absurd (omega arith)
print_or_not r waits ended m zero ep eq e1 e2 ca cb = absurd (omega arith)
print_or_not r waits q m (suc n) ep eq e1 e2 ca cb = inr (_, print_b n ep e2)
print_or_not r ended waits zero n ep eq e1 e2 ca cb = absurd (omega arith)
print_or_not r ended waits (suc m) n ep eq e1 e2 ca cb = inr (_, print_a m eq e1)

-- In every state that the two threads reach, in any interleaving, each has printed nothing or the
-- whole decoded quote, as far as its first byte 0, and both are at their ends or one of them can go
-- on.
pub rendezvous_lem :
    (a b : List ℕ) (r : Rendezvous)
    → Reach a b r
    → PrintsDecoded a r.printed_a × PrintsDecoded b r.printed_b × GoesOn r
rendezvous_lem a b r reach =
    let inv = Reach-Inv a b reach in
    (
      printed_lem a r.printed_a r.second inv.a_prints,
      printed_lem b r.printed_b r.first inv.b_prints,
      print_or_not r r.first r.second r.s1 r.s2 refl refl refl refl inv.counts_a inv.counts_b,
    )
