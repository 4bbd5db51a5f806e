-- ===== src/Stock/Agreement.antt =====
-- What `valuate` computes: FIFO is a queue of units, and both methods agree on the quantity.
use openaccounting.Prelude.{
  ℕ, zero, suc, ◌+◌, ◌-◌, ◌<◌, ◌≤◌, List, [], ◌∷◌, ◌≡◌, refl, arith, length, length-append, All, ap,
  sym, ◌∙◌, inl, inr,
}
use openaccounting.Prelude.Int.{ℤ, pos, negsuc, pos_part, neg_part, ◌+ℤ◌, ◌*ℤ◌, int_laws}
use openaccounting.Prelude.Results.{Result, ok, err, ◌>>=◌, Result-cases}
use openaccounting.Stock.Valuation.{
  Movement, StockError, Layer, on_hand, consume, fifo_step, fifo_loop, layers_value, valuate_fifo,
  valuate, ValuationMethod, average_step, average_loop, valuate_average,
}
use openaccounting.Stock.Queue.{
  drop, repeat, total, queue_step, queue, bought, IsQty, units_of, length-repeat, length-units_of,
  units_of-append, units_of-retain, units_of-consume, total-units_of, times_parts,
}

length-drop : (n : ℕ) (units : List ℤ) → length (drop n units) ≡ length units - n
length-drop zero units = omega arith
length-drop (suc n) [] = omega arith
length-drop (suc n) (u ∷ units) = omega (arith, length-drop n units)

-- The queue that a result about layers stands for.
abbrev pub layer_units : Result StockError (List Layer) → Result StockError (List ℤ)
layer_units r = r >>= λ layers. ok (units_of layers)

fifo_step-queue_step :
    (q cost : ℤ) (layers : List Layer)
    → neg_part q < 2147483648
    → on_hand layers < 2147483648
    → layer_units (fifo_step q cost layers) ≡ queue_step q cost (units_of layers)
unfolding fifo_step queue_step
fifo_step-queue_step (pos n) cost layers small fits =
    ap ok (units_of-append layers (record { qty = n; unit_cost = cost }))
fifo_step-queue_step (negsuc k) cost layers small fits = ground (
  arith,
  length-units_of layers,
  units_of-retain (consume (suc k) layers),
  units_of-consume (suc k) layers,
)

queue_step-length :
    (q cost : ℤ) (units next : List ℤ)
    → queue_step q cost units ≡ ok next
    → length next ≤ length units + pos_part q
unfolding queue_step
queue_step-length (pos n) cost units next h =
    ground (arith, length-append units (repeat n cost), length-repeat n cost)
queue_step-length (negsuc k) cost units next h = ground (arith, length-drop (suc k) units)

fifo_loop-queue :
    (movements : List Movement) (layers : List Layer)
    → All IsQty movements
    → on_hand layers + bought movements < 2147483648
    → layer_units (fifo_loop movements layers) ≡ queue movements (units_of layers)
unfolding fifo_loop queue
fifo_loop-queue [] layers small fits = refl
fifo_loop-queue (m ∷ movements) layers small fits =
    let step = fifo_step-queue_step m.qty m.unit_cost layers small.0 (omega arith) in
    elim (Result-cases (fifo_step m.qty m.unit_cost layers)) [
      | inr (x, e) ↦
          let stepped : queue_step m.qty m.unit_cost (units_of layers) ≡ err x = ground arith in
          rw (e, stepped) refl
      | inl (next, e) ↦
          let stepped : queue_step m.qty m.unit_cost (units_of layers) ≡ ok (units_of next) =
            ground arith in
          let room =
            queue_step-length m.qty m.unit_cost (units_of layers) (units_of next) stepped in
          rw (e, stepped)
            (fifo_loop-queue movements next small.1
              (omega (arith, room, length-units_of layers, length-units_of next)))
    ]

fifo_loop-on_hand :
    (movements : List Movement) (layers last : List Layer)
    → All IsQty movements
    → on_hand layers + bought movements < 2147483648
    → fifo_loop movements layers ≡ ok last
    → on_hand last < 2147483648
unfolding fifo_loop
fifo_loop-on_hand [] layers last small fits h = ground arith
fifo_loop-on_hand (m ∷ movements) layers last small fits h =
    let step = fifo_step-queue_step m.qty m.unit_cost layers small.0 (omega arith) in
    elim (Result-cases (fifo_step m.qty m.unit_cost layers)) [
      | inr (x, e) ↦ absurd (ground arith)
      | inl (next, e) ↦
          let stepped : queue_step m.qty m.unit_cost (units_of layers) ≡ ok (units_of next) =
            ground arith in
          let room =
            queue_step-length m.qty m.unit_cost (units_of layers) (units_of next) stepped in
          fifo_loop-on_hand movements next last small.1
            (omega (arith, room, length-units_of layers, length-units_of next)) (ground arith)
    ]

total-empty : (units : List ℤ) → length units ≡ 0 → total units ≡ pos 0
total-empty [] h = refl
total-empty (u ∷ units) h = absurd (omega arith)

layers_value-empty : (layers : List Layer) → on_hand layers ≡ 0 → layers_value layers ≡ pos 0
layers_value-empty layers h =
    sym (total-units_of layers) ∙ total-empty (units_of layers) (length-units_of layers ∙ h)

-- The quantity of a result.
abbrev pub quantity : Result StockError (ℕ × ℤ) → Result StockError ℕ
quantity r = r >>= λ x. ok x.0

module _ (quotient : ℤ → ℕ → ℤ) where
  pub valuate-queue :
      (movements : List Movement)
      → All IsQty movements
      → bought movements < 2147483648
      → valuate quotient ValuationMethod.fifo movements
        ≡ (queue movements [] >>= λ units. ok (length units, total units))
  unfolding valuate valuate_fifo on_hand
  valuate-queue movements small fits =
      let same = fifo_loop-queue movements [] small (omega arith) in
      elim (Result-cases (fifo_loop movements [])) [
        | inr (x, e) ↦ ground arith
        | inl (layers, e) ↦
            let bound = fifo_loop-on_hand movements [] layers small (omega arith) e in
            ground (arith, length-units_of layers, total-units_of layers)
      ]

  average_step-queue_step :
      (q cost : ℤ) (units : List ℤ) (value : ℤ)
      → neg_part q < 2147483648
      → length units + pos_part q < 2147483648
      → quantity (average_step quotient q cost (length units) value)
        ≡ (queue_step q cost units >>= λ next. ok (length next))
  unfolding average_step queue_step
  average_step-queue_step (pos n) cost units value small fits =
      ground (arith, length-append units (repeat n cost), length-repeat n cost)
  average_step-queue_step (negsuc k) cost units value small fits =
      ground (arith, length-drop (suc k) units)

  average_loop-queue :
      (movements : List Movement) (units : List ℤ) (value : ℤ)
      → All IsQty movements
      → length units + bought movements < 2147483648
      → quantity (average_loop quotient movements (length units) value)
        ≡ (queue movements units >>= λ last. ok (length last))
  unfolding average_loop queue
  average_loop-queue [] units value small fits = refl
  average_loop-queue (m ∷ movements) units value small fits =
      let step = average_step-queue_step m.qty m.unit_cost units value small.0 (omega arith) in
      elim (Result-cases (average_step quotient m.qty m.unit_cost (length units) value)) [
        | inr (x, e) ↦ elim (Result-cases (queue_step m.qty m.unit_cost units)) [
          | inr (y, f) ↦ ground arith
          | inl (next, f) ↦ absurd (ground arith)
        ]
        | inl ((n, w), e) ↦ elim (Result-cases (queue_step m.qty m.unit_cost units)) [
          | inr (y, f) ↦ absurd (ground arith)
          | inl (next, f) ↦
              let reached : n ≡ length next = ground arith in
              let room = queue_step-length m.qty m.unit_cost units next f in
              rw (e, f, reached) (average_loop-queue movements next w small.1 (omega (arith, room)))
        ]
      ]

  -- Under the same bounds, both methods accept the same movements, with the same quantity or the
  -- same error.
  pub valuate-quantity :
      (movements : List Movement)
      → All IsQty movements
      → bought movements < 2147483648
      → quantity (valuate quotient ValuationMethod.average movements)
        ≡ quantity (valuate quotient ValuationMethod.fifo movements)
  unfolding valuate valuate_average
  valuate-quantity movements small fits =
      let queued = valuate-queue movements small fits in
      let averaged = average_loop-queue movements [] (pos 0) small (omega arith) in ground arith

  average_step-empty :
      (q cost : ℤ) (qty : ℕ) (value : ℤ) (n : ℕ) (v : ℤ)
      → (qty ≡ 0 → value ≡ pos 0)
      → average_step quotient q cost qty value ≡ ok (n, v)
      → n ≡ 0
      → v ≡ pos 0
  unfolding average_step
  average_step-empty (pos q) cost qty value n v inv h e =
      let nothing : q ≡ 0 = ground arith in
      let before : value ≡ pos 0 = inv (ground arith) in
      let sum : v ≡ pos 0 +ℤ pos 0 *ℤ cost = ground arith in
      let zero_sum : pos 0 +ℤ pos 0 *ℤ cost ≡ pos 0 = omega (int_laws, times_parts 0 cost) in
      sum ∙ zero_sum
  average_step-empty (negsuc k) cost qty value n v inv h e = ground arith

  average_loop-empty :
      (movements : List Movement) (qty : ℕ) (value v : ℤ)
      → (qty ≡ 0 → value ≡ pos 0)
      → average_loop quotient movements qty value ≡ ok (0, v)
      → v ≡ pos 0
  unfolding average_loop
  average_loop-empty [] qty value v inv h = ground arith
  average_loop-empty (m ∷ movements) qty value v inv h =
      elim (Result-cases (average_step quotient m.qty m.unit_cost qty value)) [
        | inr (x, e) ↦ absurd (ground arith)
        | inl ((n, w), e) ↦
            average_loop-empty movements n w v
              (average_step-empty m.qty m.unit_cost qty value n w inv e) (ground arith)
      ]

  -- A stock of which nothing is left has the value zero with either method, however the quotient
  -- is rounded.
  pub valuate-empty :
      (method : ValuationMethod) (movements : List Movement) (v : ℤ)
      → valuate quotient method movements ≡ ok (0, v)
      → v ≡ pos 0
  unfolding valuate valuate_average valuate_fifo
  valuate-empty ValuationMethod.average movements v h =
      average_loop-empty movements 0 (pos 0) v (λ e. refl) h
  valuate-empty ValuationMethod.fifo movements v h = elim (Result-cases (fifo_loop movements [])) [
    | inr (x, e) ↦ absurd (ground arith)
    | inl (layers, e) ↦
        let none_left : on_hand layers ≡ 0 = ground arith in
        ground (arith, layers_value-empty layers none_left)
  ]
