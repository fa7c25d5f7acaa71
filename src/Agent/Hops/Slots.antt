-- ===== src/Agent/Hops/Slots.antt =====
-- Reading the memory array of an ant by the nodes of its path.
use antnet.Common.{
  none-ne-some, ℕ, zero, suc, ◌≤◌, ◌<◌, ◌≡◌, ◌≢◌, refl, sym, ap, ◌∙◌, some, List, [], ◌∷◌, ◌++◌,
  get_elem?, take, length, arith, Lacks, length-take,
}
use mathlib.Core.Option.{some-injective}
use antnet.Packet.{Memory}
use antnet.Agent.Memorize.Path.{nodes, length-nodes}

get-append_here : (xs ys : List ℕ) (n : ℕ) → get_elem? (xs ++ n ∷ ys) (length xs) ≡ some n
get-append_here [] ys n = refl
get-append_here (x ∷ xs) ys n = get-append_here xs ys n

get-append_next :
    (xs ys : List ℕ) (n m : ℕ) → get_elem? (xs ++ n ∷ m ∷ ys) (suc (length xs)) ≡ some m
get-append_next [] ys n m = refl
get-append_next (x ∷ xs) ys n m = get-append_next xs ys n m

get-Lacks : (a : ℕ) (ys : List ℕ) (i n : ℕ) → Lacks a ys → get_elem? ys i ≡ some n → n ≢ a
get-Lacks a [] i n l e = λ _. none-ne-some e
get-Lacks a (y ∷ ys) zero n (ne, l) e = λ q. ne (some-injective _ _ e ∙ q)
get-Lacks a (y ∷ ys) (suc i) n (ne, l) e = get-Lacks a ys i n l e

get-append_behind :
    (a b c : ℕ) (xs ys : List ℕ) (i n : ℕ)
    → Lacks a ys
    → suc (length xs) < i
    → get_elem? (xs ++ b ∷ c ∷ ys) i ≡ some n
    → n ≢ a
get-append_behind a b c [] ys zero n l h e = absurd (omega arith)
get-append_behind a b c [] ys (suc zero) n l h e = absurd (omega arith)
get-append_behind a b c [] ys (suc (suc i)) n l h e = get-Lacks a ys i n l e
get-append_behind a b c (x ∷ xs) ys zero n l h e = absurd (omega arith)
get-append_behind a b c (x ∷ xs) ys (suc i) n l h e =
    get-append_behind a b c xs ys i n l (omega arith) e

module _ {D : Type 0} where
  -- The entry in slot `i` is of node `n`.
  pub record Holds (ms : List (Memory D)) (i n : ℕ) : Type 0 where
    pub entry : Memory D
    pub got : get_elem? ms i ≡ some entry
    pub node : entry.node_addr ≡ n

  get-Holds :
      (k : ℕ) (ms : List (Memory D)) (i n : ℕ)
      → get_elem? (nodes (take k ms)) i ≡ some n
      → Holds ms i n
  get-Holds zero ms i n e = cc
  get-Holds (suc k) [] i n e = cc
  get-Holds (suc k) (m ∷ ms) zero n e = record {
    entry = m;
    got = refl;
    node = some-injective _ _ e;
  }
  get-Holds (suc k) (m ∷ ms) (suc i) n e =
      let h = get-Holds k ms i n e in record { entry = h.entry; got = h.got; node = h.node }

  pub nodes-get :
      (k : ℕ) (ms : List (Memory D)) (i : ℕ) (m : Memory D)
      → i < k
      → get_elem? ms i ≡ some m
      → get_elem? (nodes (take k ms)) i ≡ some m.node_addr
  nodes-get zero ms i m h e = absurd (omega arith)
  nodes-get (suc k) [] i m h e = cc
  nodes-get (suc k) (x ∷ ms) zero m h e =
      ap (λ (y : Memory D). some y.node_addr) (some-injective _ _ e)
  nodes-get (suc k) (x ∷ ms) (suc i) m h e = nodes-get k ms i m (omega arith) e

  -- Two nodes next to one another on the path, and the slots behind them.
  module _ (k : ℕ) (ms : List (Memory D)) (xs ys : List ℕ) (b c : ℕ)
      (split : nodes (take k ms) ≡ xs ++ b ∷ c ∷ ys) where
    pub here-Holds : Holds ms (length xs) b
    here-Holds =
        get-Holds k ms (length xs) b
          (ap (λ zs. get_elem? zs (length xs)) split ∙ get-append_here xs (c ∷ ys) b)

    pub next-Holds : Holds ms (suc (length xs)) c
    next-Holds =
        get-Holds k ms (suc (length xs)) c
          (ap (λ zs. get_elem? zs (suc (length xs))) split ∙ get-append_next xs ys b c)

    pub behind-ne :
        (a i : ℕ) (m : Memory D)
        → Lacks a ys
        → suc (length xs) < i
        → i < k
        → get_elem? ms i ≡ some m
        → m.node_addr ≢ a
    behind-ne a i m l h lt e =
        get-append_behind a b c xs ys i m.node_addr l h
          (ap (λ zs. get_elem? zs i) (sym split) ∙ nodes-get k ms i m lt e)

    pub length-split : k ≤ length ms → suc (length xs) < k
    length-split h =
        omega (arith, length-nodes (take k ms), length-take k ms h, ap length split, length-two xs)
      where
        length-two : (zs : List ℕ) → suc (length zs) < length (zs ++ b ∷ c ∷ ys)
        length-two [] = omega arith
        length-two (z ∷ zs) = omega (arith, length-two zs)
