-- ===== src/Hooks/Query/Slots.antt =====
-- src/hooks/query.rs: the slots that `write_batches_to_slots` sends, against the rows of the batches.
use pg_analytics.Prelude.{
  ℕ, zero, suc, ◌+◌, true, List, [], ◌∷◌, ◌++◌, length, map, ◌≡◌, arith, append_assoc, append-nil,
  length-append, inl, inr,
}
use mathlib.Core.List.{map-append}
use pg_analytics.Result.{Failure, Result, ok, err, ◌>>=◌, Result-cases, bind-eq-ok}
use pg_analytics.Duckdb.Engine.{Engine}
use pg_analytics.Fdw.Base.{Column, GetCell}
use pg_analytics.Hooks.World.{Slot, Event, startup, shutdown, receive, World}
use pg_analytics.Hooks.Query.{Dest, fill_slot, write_rows, write_batches, write_batches_to_slots}

-- A destination with all three callbacks.
abbrev pub complete_dest : Dest
complete_dest = record { has_startup = true; has_receive = true; has_shutdown = true }

module _ (e : Engine) (Cell : Type 0) (get_cell : GetCell e Cell) (attributes : List Column) where
  open e use {Batch, num_rows}

  -- The slots of `count` rows of a batch from an index on, and of every row of every batch.
  unfoldable pub batch_slots : Batch → ℕ → ℕ → Result (List (Slot e Cell))
  batch_slots batch index zero = ok []
  batch_slots batch index (suc count) =
      fill_slot e Cell get_cell batch index 0 attributes >>= λ slot.
      batch_slots batch (index + 1) count >>= λ slots. ok (slot ∷ slots)

  unfoldable pub all_slots : List Batch → Result (List (Slot e Cell))
  unfolding batch_slots
  all_slots [] = ok []
  all_slots (batch ∷ batches) = batch_slots batch 0 (num_rows batch) >>= λ slots.
      all_slots batches >>= λ rest. ok (slots ++ rest)

  -- The world after slots were received.
  abbrev pub received : List (Slot e Cell) → World e Cell → World e Cell
  received slots w = record w {
    es_processed = w.es_processed + length slots;
    events = w.events ++ map receive slots;
  }

  received-received :
      (ss ts : List (Slot e Cell)) (w : World e Cell)
      → received ts (received ss w) ≡ received (ss ++ ts) w
  received-received ss ts w =
      let slot_event : Slot e Cell → Event e Cell = λ slot. receive slot in
      ground (
        arith,
        length-append ss ts,
        append_assoc w.events (map receive ss) (map receive ts),
        map-append slot_event ss ts,
      )

  write_rows_ok :
      (batch : Batch) (index count : ℕ) (slots : List (Slot e Cell)) (w : World e Cell)
      → batch_slots batch index count ≡ ok slots
      → write_rows e Cell get_cell attributes batch index count w ≡ (ok tt, received slots w)
  unfolding write_rows batch_slots
  write_rows_ok batch index zero slots w h = ground (arith, append-nil w.events)
  write_rows_ok batch index (suc count) slots w h =
      let (slot, es, h₁) = bind-eq-ok (fill_slot e Cell get_cell batch index 0 attributes) _ h in
      let (rest, er, h₂) = bind-eq-ok (batch_slots batch (index + 1) count) _ h₁ in
      let w' : World e Cell = received (slot ∷ []) w in
      let ih = write_rows_ok batch (index + 1) count rest w' er in
      ground (arith, es, h₂, ih, received-received (slot ∷ []) rest w)

  write_batches_ok :
      (batches : List Batch) (slots : List (Slot e Cell)) (w : World e Cell)
      → all_slots batches ≡ ok slots
      → write_batches e Cell get_cell attributes batches w ≡ (ok tt, received slots w)
  unfolding write_batches all_slots
  write_batches_ok [] slots w h = ground (arith, append-nil w.events)
  write_batches_ok (batch ∷ batches) slots w h =
      let (ss, es, h₁) = bind-eq-ok (batch_slots batch 0 (num_rows batch)) _ h in
      let (rest, er, h₂) = bind-eq-ok (all_slots batches) _ h₁ in
      let ih = write_batches_ok batches rest (received ss w) er in
      ground
        (arith, write_rows_ok batch 0 (num_rows batch) ss w es, h₂, ih, received-received ss rest w)

  -- The world after all slots were sent to a receiver that was started and shut down.
  abbrev pub delivered : List (Slot e Cell) → World e Cell → World e Cell
  delivered slots w = record w {
    es_processed = length slots;
    events = w.events ++ startup ∷ (map receive slots ++ shutdown ∷ []);
  }

  pub write_batches_to_slots_ok :
      (batches : List Batch) (slots : List (Slot e Cell)) (w : World e Cell)
      → all_slots batches ≡ ok slots
      → write_batches_to_slots e Cell get_cell complete_dest attributes batches w
        ≡ (ok tt, delivered slots w)
  unfolding write_batches_to_slots
  write_batches_to_slots_ok batches slots w h =
      let w' : World e Cell = record w { es_processed = 0; events = w.events ++ startup ∷ [] } in
      ground (
        arith,
        write_batches_ok batches slots w' h,
        append_assoc w.events (startup ∷ []) (map receive slots),
        append_assoc w.events (startup ∷ map receive slots) (shutdown ∷ []),
      )

  write_rows_err :
      (batch : Batch) (index count : ℕ) (f : Failure) (w : World e Cell)
      → batch_slots batch index count ≡ err f
      → (write_rows e Cell get_cell attributes batch index count w).0 ≡ err f
  unfolding write_rows batch_slots
  write_rows_err batch index zero f w h = cc
  write_rows_err batch index (suc count) f w h =
      elim (Result-cases (fill_slot e Cell get_cell batch index 0 attributes)) [
        | inr (g, es) ↦ ground (arith, es)
        | inl (slot, es) ↦
            let ih = write_rows_err batch (index + 1) count f (received (slot ∷ []) w) in
            ground (arith, es, ih)
      ]

  write_batches_err :
      (batches : List Batch) (f : Failure) (w : World e Cell)
      → all_slots batches ≡ err f
      → (write_batches e Cell get_cell attributes batches w).0 ≡ err f
  unfolding write_batches all_slots
  write_batches_err [] f w h = cc
  write_batches_err (batch ∷ batches) f w h =
      elim (Result-cases (batch_slots batch 0 (num_rows batch))) [
        | inr (g, es) ↦ ground (arith, es, write_rows_err batch 0 (num_rows batch) g w es)
        | inl (ss, es) ↦
            let ih = write_batches_err batches f (received ss w) in
            ground (arith, es, write_rows_ok batch 0 (num_rows batch) ss w es, ih)
      ]

  dest_complete :
      (dest : Dest) (batches : List Batch) (w : World e Cell)
      → (write_batches_to_slots e Cell get_cell dest attributes batches w).0 ≡ ok tt
      → dest ≡ complete_dest
  unfolding write_batches_to_slots
  dest_complete dest batches w h = ground arith

  slots_readable :
      (dest : Dest) (batches : List Batch) (f : Failure) (w : World e Cell)
      → all_slots batches ≡ err f
      → (write_batches_to_slots e Cell get_cell dest attributes batches w).0 ≡ ok tt
      → ⊥
  unfolding write_batches_to_slots
  slots_readable dest batches f w es h =
      let w' : World e Cell = record w { es_processed = 0; events = w.events ++ startup ∷ [] } in
      ground (arith, write_batches_err batches f w' es)

  -- The slots are sent only if the destination has its callbacks and every cell can be read.
  pub write_batches_to_slots_inv :
      (dest : Dest) (batches : List Batch) (w : World e Cell)
      → (write_batches_to_slots e Cell get_cell dest attributes batches w).0 ≡ ok tt
      → (slots : List (Slot e Cell)) × (all_slots batches ≡ ok slots) × (dest ≡ complete_dest)
  write_batches_to_slots_inv dest batches w h = elim (Result-cases (all_slots batches)) [
    | inl (slots, es) ↦ (slots, es, dest_complete dest batches w h)
    | inr (f, es) ↦ absurd (slots_readable dest batches f w es h)
  ]
