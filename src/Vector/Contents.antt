-- ===== src/Vector/Contents.antt =====
-- What the struct of vector/vector.c stands for: the list of its elements, and how the operations
-- that add elements (vector_create, vector_reserve, vector_push_back, vector_insert) change it.
use system_programming.Base.{
  ℕ, ◌+◌, ◌-◌, ◌*◌, ◌/◌, ◌%◌, ◌^◌, ◌<◌, ◌≤◌, ◌≡◌, refl, ap, ◌∙◌, List, [], ◌∷◌, ◌++◌, Option, none,
  some, ltb, ltb→lt, ltb→ge, Bool-cases, inl, inr, length, replicate, length-append, length-map,
  length-replicate, append_assoc, arith,
}
use system_programming.Vector.Cells.{Cells, realloc}
use system_programming.Vector.Capacity.{size_mod, get_new_capacity-IsCapacity}
use system_programming.Vector.Defs.{Vector, create, reallocate, reserve, initial_capacity}
use system_programming.Vector.Blocks.{cells, realloc-grow}

-- The block holds the handles `xs` and then spare cells, and its size in bytes fits `size_t`.
pub record IsBlock {ℓ} {A : Type ℓ} (v : Vector A) (xs : List A) : Type ℓ where
  pub spare : Cells A
  pub filled : v.array ≡ cells xs ++ spare
  pub counted : v.capacity ≡ length v.array
  pub bounded : v.capacity * 8 < size_mod

-- The vector holds the elements `xs`, in this order.
pub record IsVector {ℓ} {A : Type ℓ} (v : Vector A) (xs : List A) : Type ℓ where
  pub block : IsBlock v xs
  pub size : v.size ≡ length xs

module _ {ℓ} {A : Type ℓ} where
  pub create-IsVector : IsVector (create {A = A}) []
  unfolding create
  create-IsVector = record {
    block = record {
      spare = replicate initial_capacity none;
      filled = refl;
      counted = refl;
      bounded = omega arith;
    };
    size = refl;
  }

  pub uncons : (m : Cells A) → 0 < length m → (c : Option A) × (rest : Cells A) × (m ≡ c ∷ rest)
  uncons [] h = absurd (omega arith)
  uncons (c ∷ rest) h = (c, rest, refl)

  pub length-filled :
      {v : Vector A} {xs : List A} (b : IsBlock v xs) → v.capacity ≡ length xs + length b.spare
  length-filled {v} {xs} b =
      b.counted
      ∙ ap length b.filled
      ∙ length-append (cells xs) b.spare
      ∙ ap (λ t. t + length b.spare) (length-map some xs)

  -- What a vector is like after a reservation of `n` cells.
  pub record Reserved (v : Vector A) (xs : List A) (n : ℕ) (w : Vector A) : Type ℓ where
    pub block : IsBlock w xs
    pub room : n ≤ w.capacity
    pub same_size : w.size ≡ v.size
    pub same_log : w.destroyed ≡ v.destroyed

  reallocate-Reserved :
      (v : Vector A) (xs : List A) (n c : ℕ)
      → IsBlock v xs
      → n ≤ c
      → v.capacity ≤ c
      → c * 8 < size_mod
      → Reserved v xs n (reallocate c v)
  unfolding reallocate
  reallocate-Reserved v xs n c b enough more fits =
      let whole : c * 8 % size_mod / 8 ≡ c = omega arith in
      let grown : realloc (c * 8 % size_mod / 8) v.array
          ≡ v.array ++ replicate (c - length v.array) none =
        ap (λ t. realloc t v.array) whole ∙ realloc-grow c v.array (omega (arith, b.counted)) in
      record {
        block = record {
          spare = b.spare ++ replicate (c - length v.array) none;
          filled =
              grown
              ∙ ap (λ t. t ++ replicate (c - length v.array) none) b.filled
              ∙ append_assoc (cells xs) b.spare (replicate (c - length v.array) none);
          counted = omega (
            arith,
            ap length grown,
            length-append v.array (replicate (c - length v.array) none),
            length-replicate {A = Option A} (c - length v.array) none,
            b.counted,
          );
          bounded = fits;
        };
        room = enough;
        same_size = refl;
        same_log = refl;
      }

  -- vector_reserve keeps the elements and makes room for `n` of them.
  pub reserve-Reserved :
      (v : Vector A) (xs : List A) (n : ℕ)
      → IsBlock v xs
      → n ≤ 2 ^ 60
      → (w : Vector A) × (reserve v n ≡ some w) × Reserved v xs n w
  unfolding reserve
  reserve-Reserved v xs n b fits = elim (Bool-cases (ltb v.capacity n)) [
    | inl grow ↦
        let (c, e, is) = get_new_capacity-IsCapacity n (omega arith) in
        rw (grow, e)
          (
            reallocate c v,
            refl,
            reallocate-Reserved v xs n c b is.covers
                (omega (arith, ltb→lt v.capacity n grow, is.covers))
                (omega (arith, ltb→lt v.capacity n grow, is.tight)),
          )
    | inr keep ↦ rw keep (
      v,
      refl,
      record { block = b; room = ltb→ge v.capacity n keep; same_size = refl; same_log = refl },
    )
  ]
