-- ===== src/SpscQueue/Store.antt =====
-- What the atomic steps of engine/queues/SPSCQueue.hpp do to the buffer and the two counters: the
-- slots between them hold what was sent and not yet received.
use event_driven_trading_sys.Base.{
  ℕ, zero, suc, ◌+◌, ◌/◌, ◌^◌, ◌≤◌, ◌<◌, ◌≡◌, ◌≢◌, refl, sym, ◌∙◌, ap, List, [], ◌∷◌, ◌++◌, some,
  arith, bit_and_mask, add64, u64_mod, length, length-append, get_elem?, take, take-suc, dec_lt,
  ℕ_discrete,
}
use native.Mathlib.Nat.{div-add-mod', mul-le-mul_right}
use event_driven_trading_sys.SpscQueue.{Queue, slot, write}

-- Indices less than the capacity apart have slots of their own.
slot-distinct : (k i j : ℕ) → i < j → j < i + 2 ^ k → slot (2 ^ k) i ≢ slot (2 ^ k) j
unfolding slot
slot-distinct k i j lt near e = elim (dec_lt (i / 2 ^ k) (j / 2 ^ k)) [
  | yes h ↦ omega (
    arith,
    mul-le-mul_right {m = suc (i / 2 ^ k)} {n = j / 2 ^ k} (2 ^ k) h,
    div-add-mod' i (2 ^ k),
    div-add-mod' j (2 ^ k),
    sym (bit_and_mask k i) ∙ e ∙ bit_and_mask k j,
  )
  | no h ↦ omega (
    arith,
    mul-le-mul_right {m = j / 2 ^ k} {n = i / 2 ^ k} (2 ^ k) (omega arith),
    div-add-mod' i (2 ^ k),
    div-add-mod' j (2 ^ k),
    sym (bit_and_mask k i) ∙ e ∙ bit_and_mask k j,
  )
]

module _ {ℓ} {A : Type ℓ} where
  -- The counters count what was sent and received, and the slots between them hold what was sent.
  pub record IsStore (k : ℕ) (q : Queue A) (sent received : List A) : Type ℓ where
    pub count_sent : length sent ≡ q.tail
    pub prefix : received ≡ take q.head sent
    pub order : q.head ≤ q.tail
    pub room : q.tail ≤ q.head + 2 ^ k
    pub slots :
        (i : ℕ) → q.head ≤ i → i < q.tail → get_elem? sent i ≡ some (q.buffer (slot (2 ^ k) i))

  -- The slot that the producer writes is not one that the consumer has still to read.
  pub write_elsewhere :
      (k i t : ℕ) (f : ℕ → A) (x : A)
      → i < t
      → t < i + 2 ^ k
      → write f (slot (2 ^ k) t) x (slot (2 ^ k) i) ≡ f (slot (2 ^ k) i)
  write_elsewhere k i t f x h r = ground (arith, slot-distinct k i t h r)

  get_elem?-append_last : (xs : List A) (x : A) → get_elem? (xs ++ (x ∷ [])) (length xs) ≡ some x
  get_elem?-append_last [] x = refl
  get_elem?-append_last (y ∷ xs) x = get_elem?-append_last xs x

  get_elem?-append_lt :
      (xs ys : List A) (i : ℕ) → i < length xs → get_elem? (xs ++ ys) i ≡ get_elem? xs i
  get_elem?-append_lt [] ys i h = absurd (omega arith)
  get_elem?-append_lt (y ∷ xs) ys zero h = refl
  get_elem?-append_lt (y ∷ xs) ys (suc i) h = get_elem?-append_lt xs ys i (omega arith)

  take-append : (xs ys : List A) (n : ℕ) → n ≤ length xs → take n (xs ++ ys) ≡ take n xs
  take-append xs ys zero h = refl
  take-append [] ys (suc n) h = absurd (omega arith)
  take-append (x ∷ xs) ys (suc n) h = ap (◌∷◌ x) (take-append xs ys n (omega arith))

  pub written_here :
      (k : ℕ) (q : Queue A) (x : A)
      → write q.buffer (slot (2 ^ k) q.tail) x (slot (2 ^ k) q.tail) ≡ x
  written_here k q x = ground arith

  -- The producer stores an item in the slot after the last.
  pub write-IsStore :
      (k : ℕ) (q : Queue A) (sent received : List A) (x : A)
      → q.tail < q.head + 2 ^ k
      → IsStore k q sent received
      → IsStore k (record q { buffer = write q.buffer (slot (2 ^ k) q.tail) x }) sent received
  write-IsStore k q sent received x free v = record {
    count_sent = v.count_sent;
    prefix = v.prefix;
    order = v.order;
    room = v.room;
    slots = λ i h l.
        v.slots i h l ∙ ap some (sym (write_elsewhere k i q.tail q.buffer x l (omega arith)));
  }

  pub publish-IsStore :
      (k : ℕ) (q : Queue A) (sent received : List A) (x : A)
      → q.tail < q.head + 2 ^ k
      → q.tail + 1 < u64_mod
      → q.buffer (slot (2 ^ k) q.tail) ≡ x
      → IsStore k q sent received
      → IsStore k (record q { tail = add64 q.tail 1 }) (sent ++ (x ∷ [])) received
  publish-IsStore k q sent received x free small here v = record {
    count_sent = omega (arith, length-append sent (x ∷ []), v.count_sent);
    prefix =
        v.prefix ∙ sym (take-append sent (x ∷ []) q.head (omega (arith, v.order, v.count_sent)));
    order = omega (arith, v.order);
    room = omega arith;
    slots = λ i h l. elim (ℕ_discrete i (length sent)) [
      | yes z ↦
          rw z (get_elem?-append_last sent x)
          ∙ ap some (sym here ∙ ap (λ n. q.buffer (slot (2 ^ k) n)) (sym v.count_sent ∙ sym z))
      | no ne ↦
          get_elem?-append_lt sent (x ∷ []) i (omega (arith, v.count_sent))
          ∙ v.slots i h (omega (arith, v.count_sent))
    ];
  }

  pub release-IsStore :
      (k : ℕ) (q : Queue A) (sent received : List A) (x : A)
      → q.head < q.tail
      → q.tail < u64_mod
      → q.buffer (slot (2 ^ k) q.head) ≡ x
      → IsStore k q sent received
      → IsStore k (record q { head = add64 q.head 1 }) sent (received ++ (x ∷ []))
  release-IsStore k q sent received x some_left small here v =
      let up : add64 q.head 1 ≡ suc q.head = omega arith in
      record {
        count_sent = v.count_sent;
        prefix =
            ap (λ r. r ++ (x ∷ [])) v.prefix
            ∙ sym (take-suc sent q.head x (v.slots q.head (omega arith) some_left ∙ ap some here))
            ∙ ap (λ n. take n sent) (sym up);
        order = omega arith;
        room = omega (arith, v.room);
        slots = λ i h l. v.slots i (omega arith) l;
      }
