-- ===== src/RingBuffer/Examples.antt =====
-- A ring of four cells that wraps around, with every property at it.
use game_programmer_portfoli.Base.{
  ℕ, zero, suc, ◌+◌, ◌≤◌, ◌≡◌, refl, subst, Option, ◌⊎◌, inr, List, [], ◌∷◌, none, some, slice,
  arith,
}
use game_programmer_portfoli.RingBuffer.{
  RingBuffer, WsaBuf, get_use_size, get_free_size, get_buffer_size, enqueue, enqueue_chunks,
  get_enqueue_segments, move_rear,
}
use game_programmer_portfoli.RingBuffer.Bounds.{IsValid}
use game_programmer_portfoli.RingBuffer.Put.{contents, Put}
use game_programmer_portfoli.RingBuffer.Segments.{
  Covers, Received, get_enqueue_segments-Covers, move_rear-Put,
}
use game_programmer_portfoli.RingBuffer.Queue.{
  Call, enqueues, enqueues_item, dequeues, dequeues_item, peeks, clears, run, queue_run,
  run_refines,
}

abbrev ring : RingBuffer ℕ
ring = record { buffer = 9 ∷ 8 ∷ 7 ∷ 6 ∷ []; buffer_size = 4; front = 2; rear = 3 }

ring-IsValid : IsValid ring
ring-IsValid = record { storage = refl; front_in = omega arith; rear_in = omega arith }

abbrev script : List (Call ℕ)
script =
    enqueues (1 ∷ 2 ∷ 3 ∷ [])
    ∷ peeks 2
    ∷ dequeues_item
    ∷ enqueues_item 5
    ∷ dequeues 9
    ∷ clears
    ∷ dequeues_item
    ∷ []

-- Two of three items fit, one behind the last cell and one in front of the first.
enqueue_wraps :
    enqueue ring (some (1 ∷ 2 ∷ 3 ∷ []))
    ≡ (2, record ring { buffer = 2 ∷ 8 ∷ 7 ∷ 1 ∷ []; rear = 1 })
unfolding enqueue enqueue_chunks get_use_size get_free_size get_buffer_size
enqueue_wraps = refl

run_refines_example : run ring script ≡ queue_run (get_buffer_size ring) (contents ring) script
run_refines_example = run_refines ring script ring-IsValid

abbrev no_buf : WsaBuf
no_buf = record { buf = none; len = 0 }

free_lem : get_free_size ring ≡ 2
unfolding get_free_size get_use_size get_buffer_size
free_lem = refl

get_enqueue_segments_example :
    let (n, v0, v1) = get_enqueue_segments ring no_buf no_buf in
    Covers 4 3 (get_free_size ring) n v0 v1
get_enqueue_segments_example =
    get_enqueue_segments-Covers no_buf no_buf ring-IsValid (omega (arith, free_lem))

-- Two bytes received into the two segments.
abbrev first_buf : WsaBuf
first_buf = record { buf = some 3; len = 1 }

abbrev second_buf : WsaBuf
second_buf = record { buf = some 0; len = 1 }

abbrev after : List ℕ
after = 2 ∷ 8 ∷ 7 ∷ 1 ∷ []

segments : Covers 4 3 (get_free_size ring) 2 first_buf second_buf
segments = record {
  first = refl;
  whole = omega (arith, free_lem);
  inside = omega arith;
  second = inr (refl, refl, refl, omega arith);
}

cells :
    (i n : ℕ)
    → (i + n ≤ 3) ⊎ (4 ≤ i)
    → (i + n ≤ 0) ⊎ (1 ≤ i)
    → slice after i n ≡ slice ring.buffer i n
cells zero zero a b = refl
cells zero (suc n) a b = absurd (omega arith)
cells (suc zero) zero a b = refl
cells (suc zero) (suc zero) a b = refl
cells (suc zero) (suc (suc zero)) a b = refl
cells (suc zero) (suc (suc (suc n))) a b = absurd (omega arith)
cells (suc (suc zero)) zero a b = refl
cells (suc (suc zero)) (suc zero) a b = refl
cells (suc (suc zero)) (suc (suc n)) a b = absurd (omega arith)
cells (suc (suc (suc zero))) zero a b = refl
cells (suc (suc (suc zero))) (suc n) a b = absurd (omega arith)
cells (suc (suc (suc (suc i)))) n a b = refl

offset : (a b : ℕ) → ◌≡◌ {A = Option ℕ} (some a) (some b) → a ≡ b
offset a b e = cc

filled-Received : Received ring.buffer first_buf second_buf (1 ∷ 2 ∷ []) after
filled-Received = record {
  storage = refl;
  outside = λ i n a b. cells i n (a 3 refl) (b 0 refl);
  first = λ o e. subst (λ k. slice after k 1 ≡ 1 ∷ []) (offset 3 o e) refl;
  second = λ o e. subst (λ k. slice after k 1 ≡ 2 ∷ []) (offset 0 o e) refl;
}

move_rear_example :
    ((move_rear (record ring { buffer = after }) 2).0 ≡ 2)
    × Put ring (1 ∷ 2 ∷ []) (move_rear (record ring { buffer = after }) 2).1
move_rear_example = move_rear-Put ring-IsValid segments filled-Received (omega (arith, free_lem))
