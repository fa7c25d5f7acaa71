-- ===== src/Double/Laws.antt =====
-- Exact arithmetic: the laws of an ordered field for the operations of `Double`, division by a
-- positive number only, and what the proofs about pheromones and probabilities derive from them.
use antnet.Common.{
  ℕ, zero, suc, subst, ◌≡◌, refl, sym, ap, ◌∙◌, ◌↔◌, ◌⊎◌, inl, inr, true, false, not, arith,
}
use antnet.Common.Int.{ℤ, pos, pred_ℤ}
use antnet.Double.{Double, nought, one, ◌≼◌, ◌≺◌}

pub record IsExact (D : Type 0) ⦃d : Double D⦄ : Type 0 where
  pub add_comm : (a b : D) → d.add a b ≡ d.add b a
  pub add_assoc : (a b c : D) → d.add (d.add a b) c ≡ d.add a (d.add b c)
  pub zero-add : (a : D) → d.add nought a ≡ a
  pub sub-add : (a b : D) → d.add (d.sub a b) b ≡ a
  pub add-sub : (a b : D) → d.sub (d.add a b) b ≡ a
  pub mul_comm : (a b : D) → d.mul a b ≡ d.mul b a
  pub mul_assoc : (a b c : D) → d.mul (d.mul a b) c ≡ d.mul a (d.mul b c)
  pub one-mul : (a : D) → d.mul one a ≡ a
  pub mul-add : (a b c : D) → d.mul a (d.add b c) ≡ d.add (d.mul a b) (d.mul a c)
  pub div-mul : (a b : D) → nought ≺ b → d.mul (d.div a b) b ≡ a
  pub le_trans : (a b c : D) → a ≼ b → b ≼ c → a ≼ c
  pub le_antisymm : (a b : D) → a ≼ b → b ≼ a → a ≡ b
  pub le_total : (a b : D) → (a ≼ b) ⊎ (b ≼ a)
  pub lt-eq-not-le : (a b : D) → d.lt a b ≡ not (d.le b a)
  pub eq_iff : (a b : D) → (d.eq a b ≡ true) ↔ (a ≡ b)
  pub add_mono : (a b c : D) → a ≼ b → d.add a c ≼ d.add b c
  pub mul_nonneg : (a b : D) → nought ≼ a → nought ≼ b → nought ≼ d.mul a b
  pub one_pos : d.lt nought one ≡ true
  pub of_int-suc : (n : ℕ) → d.of_int (pos (suc n)) ≡ d.add one (d.of_int (pos n))
  pub of_int-pred : (z : ℤ) → d.of_int (pred_ℤ z) ≡ d.sub (d.of_int z) one
  pub ratio_nonneg : (p q : ℕ) → nought ≼ d.ratio p q

module _ {D : Type 0} ⦃d : Double D⦄ (laws : IsExact D) where
  open d use {add, sub, mul, div, le, lt, of_int}
  open laws use {
    add_comm, add_assoc, zero-add, sub-add, add-sub, mul_comm, mul_assoc, one-mul, mul-add, div-mul,
    le_trans, le_total, lt-eq-not-le, add_mono, mul_nonneg, of_int-suc,
  }

  pub le_refl : (a : D) → a ≼ a
  le_refl a = ground (arith, le_total a a)

  pub add_cancel : {a b : D} (c : D) → add a c ≡ add b c → a ≡ b
  add_cancel {a} {b} c e = sym (add-sub a c) ∙ ap (λ t. sub t c) e ∙ add-sub b c

  pub add-zero : (a : D) → add a nought ≡ a
  add-zero a = add_comm a nought ∙ zero-add a

  pub add_left_comm : (a b c : D) → add a (add b c) ≡ add b (add a c)
  add_left_comm a b c = sym (add_assoc a b c) ∙ ap (λ t. add t c) (add_comm a b) ∙ add_assoc b a c

  pub add_interchange : (a b c e : D) → add (add a b) (add c e) ≡ add (add a c) (add b e)
  add_interchange a b c e =
      add_assoc a b (add c e) ∙ ap (add a) (add_left_comm b c e) ∙ sym (add_assoc a c (add b e))

  pub add-mul : (a b c : D) → mul (add a b) c ≡ add (mul a c) (mul b c)
  add-mul a b c = rw (mul_comm (add a b) c, mul-add c a b, mul_comm c a, mul_comm c b)

  pub sub-mul : (a b c : D) → add (mul (sub a b) c) (mul b c) ≡ mul a c
  sub-mul a b c = sym (add-mul (sub a b) b c) ∙ ap (λ t. mul t c) (sub-add a b)

  pub mul-sub : (a b c : D) → add (mul a (sub b c)) (mul a c) ≡ mul a b
  mul-sub a b c = sym (mul-add a (sub b c) c) ∙ ap (mul a) (sub-add b c)

  pub zero-mul : (a : D) → mul nought a ≡ nought
  zero-mul a = add_cancel (mul nought a) (
      sym (add-mul nought nought a)
      ∙ ap (λ t. mul t a) (zero-add nought)
      ∙ sym (zero-add (mul nought a)))

  pub mul-one : (a : D) → mul a one ≡ a
  mul-one a = mul_comm a one ∙ one-mul a

  pub sub_self : (a : D) → sub a a ≡ nought
  sub_self a = ap (λ t. sub t a) (sym (zero-add a)) ∙ add-sub nought a

  pub add_mono_left : (a b c : D) → a ≼ b → add c a ≼ add c b
  add_mono_left a b c h = rw (add_comm c a, add_comm c b) (add_mono a b c h)

  pub add_mono₂ : (a b c e : D) → a ≼ b → c ≼ e → add a c ≼ add b e
  add_mono₂ a b c e h k = le_trans _ (add b c) _ (add_mono a b c h) (add_mono_left c e b k)

  pub add_nonneg : (a b : D) → nought ≼ a → nought ≼ b → nought ≼ add a b
  add_nonneg a b h k = rw zero-add at (add_mono₂ nought a nought b h k)

  pub le-add_right : (a b : D) → nought ≼ b → a ≼ add a b
  le-add_right a b h = subst_left (add_mono_left nought b a h)
    where
      subst_left : add a nought ≼ add a b → a ≼ add a b
      subst_left k = rw (add-zero a) at k

  -- Orders through a difference.
  pub sub_nonneg : (a b : D) → a ≼ b → nought ≼ sub b a
  sub_nonneg a b h = shifted (le_total nought (sub b a))
    where
      shifted : (nought ≼ sub b a) ⊎ (sub b a ≼ nought) → nought ≼ sub b a
      shifted (inl k) = k
      shifted (inr k) = rw (laws.le_antisymm a b h below, sub_self b) (le_refl nought)
        where
          below : b ≼ a
          below = rw (sub-add, zero-add) at (add_mono (sub b a) nought a k)

  pub lt→le : (a b : D) → a ≺ b → a ≼ b
  lt→le a b h = ground (arith, lt-eq-not-le a b, le_total a b)

  pub lt_le_trans : (a b c : D) → a ≺ b → b ≼ c → a ≺ c
  lt_le_trans a b c h k = ground (arith, lt-eq-not-le a b, lt-eq-not-le a c, le_trans b c a k)

  pub mul_mono_left : (a b c : D) → nought ≼ c → a ≼ b → mul c a ≼ mul c b
  mul_mono_left a b c hc h = rw zero-add at (
      rw (mul-sub c b a) at (add_mono _ _ (mul c a) (mul_nonneg c (sub b a) hc (sub_nonneg a b h))))

  -- Division by a positive number.
  pub mul_cancel : {a b : D} (c : D) → nought ≺ c → mul a c ≡ mul b c → a ≡ b
  mul_cancel {a} {b} c h e = sym (undo a) ∙ ap (λ t. mul t (div one c)) e ∙ undo b
    where
      undo : (x : D) → mul (mul x c) (div one c) ≡ x
      undo x = rw (mul_assoc x c (div one c), mul_comm c (div one c), div-mul one c h) (mul-one x)

  pub div-add : (a b c : D) → nought ≺ c → add (div a c) (div b c) ≡ div (add a b) c
  div-add a b c h = mul_cancel c h (
      add-mul (div a c) (div b c) c ∙ rw (div-mul a c h, div-mul b c h, div-mul (add a b) c h) refl)

  pub zero-div : (c : D) → nought ≺ c → div nought c ≡ nought
  zero-div c h = mul_cancel c h (div-mul nought c h ∙ sym (zero-mul c))

  pub div_self : (c : D) → nought ≺ c → div c c ≡ one
  div_self c h = mul_cancel c h (div-mul c c h ∙ sym (one-mul c))

  -- `n` times `a`.
  abbrev pub times : ℕ → D → D
  times n a = mul (of_int (pos n)) a

  pub times-suc : (n : ℕ) (a : D) → times (suc n) a ≡ add a (times n a)
  times-suc n a =
      ap (λ t. mul t a) (of_int-suc n)
      ∙ add-mul one (of_int (pos n)) a
      ∙ ap (λ t. add t (times n a)) (one-mul a)

  pub mul_mono_right : (a b c : D) → nought ≼ c → a ≼ b → mul a c ≼ mul b c
  mul_mono_right a b c hc h = rw (mul_comm a c, mul_comm b c) (mul_mono_left a b c hc h)

  pub mul-le_self : (r a : D) → r ≼ one → nought ≼ a → mul r a ≼ a
  mul-le_self r a h k = rw (one-mul a) at (mul_mono_right r one a k h)

  pub sub-le_self : (a b : D) → nought ≼ b → sub a b ≼ a
  sub-le_self a b h = rw (sub-add a b) at (le-add_right (sub a b) b h)

  -- Orders that are read off sums, differences, products and quotients.
  pub le_of_add-le : (a b c : D) → add a c ≼ add b c → a ≼ b
  le_of_add-le a b c h = ground (
    arith,
    le_total a b,
    add_mono b a c,
    laws.le_antisymm (add a c) (add b c) h,
    swapped,
    le_refl a,
  )
    where
      swapped : add a c ≡ add b c → a ≡ b
      swapped = add_cancel c

  pub le_of_mul-le : (a b c : D) → nought ≺ c → mul a c ≼ mul b c → a ≼ b
  le_of_mul-le a b c pos_c h = ground (
    arith,
    le_total a b,
    mul_mono_right b a c (lt→le nought c pos_c),
    laws.le_antisymm (mul a c) (mul b c) h,
    swapped,
    le_refl a,
  )
    where
      swapped : mul a c ≡ mul b c → a ≡ b
      swapped = mul_cancel c pos_c

  pub le_of_sub-le : (a b c : D) → sub c a ≼ sub c b → b ≼ a
  le_of_sub-le a b c h = le_of_add-le b a (sub c b) (
      rw (add_comm b (sub c b), sub-add c b)
        (rw (add_comm a (sub c b)) (rw (sub-add c a) at (add_mono (sub c a) (sub c b) a h))))

  pub le_of_div-le : (a b c : D) → nought ≺ c → div a c ≼ div b c → a ≼ b
  le_of_div-le a b c h k =
      rw (div-mul a c h, div-mul b c h) at
        (mul_mono_right (div a c) (div b c) c (lt→le nought c h) k)

  pub div_mono : (a b c : D) → nought ≺ c → a ≼ b → div a c ≼ div b c
  div_mono a b c h k = le_of_mul-le _ _ c h (rw (div-mul a c h, div-mul b c h) k)

  pub div_nonneg : (a c : D) → nought ≺ c → nought ≼ a → nought ≼ div a c
  div_nonneg a c h k = rw (zero-div c h) at (div_mono nought a c h k)

  pub div-le-one : (a c : D) → nought ≺ c → a ≼ c → div a c ≼ one
  div-le-one a c h k = rw (div_self c h) at (div_mono a c c h k)

  -- A number of things is not negative.
  pub of_int_nonneg : (n : ℕ) → nought ≼ of_int (pos n)
  of_int_nonneg zero = le_refl nought
  of_int_nonneg (suc n) =
      subst (λ t. nought ≼ t) (sym (of_int-suc n))
        (add_nonneg one (of_int (pos n)) (lt→le nought one laws.one_pos) (of_int_nonneg n))

  pub lt-add_right : (a b : D) → nought ≺ b → a ≺ add a b
  lt-add_right a b h = ground (arith, lt-eq-not-le a (add a b), lt-eq-not-le nought b, back)
    where
      back : add a b ≼ a → b ≼ nought
      back k = le_of_add-le b nought a (rw (add_comm b a, zero-add a) k)

  pub not_le_of_lt : (a b : D) → a ≺ b → le b a ≡ false
  not_le_of_lt a b h = ground (arith, lt-eq-not-le a b)
