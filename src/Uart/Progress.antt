-- ===== src/Uart/Progress.antt =====
-- That the transmit queue of src/uart_meshtastic.c runs empty: the driver ends the transmissions
-- that it accepted, and the work queue runs the item that is submitted.
use meshtastic_ble_proxy.Base.{
  ℕ, zero, suc, ◌≤◌, ◌≡◌, refl, ap, ◌∙◌, Bool, true, false, List, [], ◌∷◌, arith, length, map,
  Bytes, Option, none, some, ◌+◌, if◌then◌else◌, ◌⊎◌, inl, inr, Bool-cases,
}
use meshtastic_ble_proxy.Uart.{Tx, TxRun, idle, sent, dropped, tx_work_handler, tx_done, frame_of}
use meshtastic_ble_proxy.Uart.Transmit.{IsSafe, start, handle-IsSafe, done-IsSafe}

-- A round of the driver and of the work queue, with the answer that `uart_tx` would give: the
-- transmission in progress ends, and the work item runs if it is submitted.
settle : Tx → Tx
settle tx = if tx.in_progress then tx_done tx else tx

pub round : Tx → Bool → TxRun × Tx
unfolding settle
round tx answer =
    let tx' = settle tx in if tx'.submitted then tx_work_handler tx' answer else (idle, tx')

-- Rounds with no packet put meanwhile, and the frames that leave the queue.
pub rounds : Tx → List Bool → Tx × List Bytes
rounds tx [] = (tx, [])
rounds tx (answer ∷ answers) =
    let (r, tx') = round tx answer in
    let (end, frames) = rounds tx' answers in (end, start r frames)

-- Behind the end of a transmission none is in progress, so that waiting packets have the work item
-- submitted.
settled : (tx : Tx) → IsSafe tx → IsSafe (settle tx) × ((settle tx).in_progress ≡ false)
unfolding settle tx_done
settled tx v = ground (arith, done-IsSafe tx v)

round-IsSafe : (tx : Tx) (answer : Bool) → IsSafe tx → IsSafe (round tx answer).1
unfolding round
round-IsSafe tx answer v = elim (Bool-cases (settle tx).submitted) [
  | inl e ↦ rw e (handle-IsSafe (settle tx).msgq (settle tx) answer refl (settled tx v).0)
  | inr e ↦ rw e ((settled tx v).0)
]

-- With packets in the queue a round takes the oldest out, sent or refused by the driver.
round-takes :
    (tx : Tx) (answer : Bool) (p : Bytes) (rest : List Bytes)
    → IsSafe tx
    → tx.msgq ≡ p ∷ rest
    → let (r, tx') = round tx answer in
      (tx'.msgq ≡ rest) × ((r ≡ sent (frame_of p)) ⊎ (r ≡ dropped (frame_of p)))
unfolding round tx_done tx_work_handler
round-takes tx answer p rest v e = ground arith

round-empty :
    (tx : Tx) (answer : Bool)
    → tx.msgq ≡ []
    → let (r, tx') = round tx answer in (tx'.msgq ≡ []) × (r ≡ idle)
unfolding round tx_done tx_work_handler
round-empty tx answer e = ground arith

started :
    (r : TxRun) (p : Bytes) (frames : List Bytes)
    → (r ≡ sent (frame_of p)) ⊎ (r ≡ dropped (frame_of p))
    → start r frames ≡ frame_of p ∷ frames
started r p frames (inl e) = rw e
started r p frames (inr e) = rw e

rounds-drain_from :
    (q : List Bytes) (tx : Tx) (answers : List Bool)
    → tx.msgq ≡ q
    → IsSafe tx
    → length q ≤ length answers
    → let (end, frames) = rounds tx answers in (end.msgq ≡ []) × (frames ≡ map frame_of q)
unfolding rounds
rounds-drain_from [] tx [] e v h = (e, refl)
rounds-drain_from (p ∷ q) tx [] e v h = absurd (omega arith)
rounds-drain_from [] tx (answer ∷ answers) e v h =
    let (r, tx') = round tx answer in
    let (still, no_run) = round-empty tx answer e in
    let (empty, same) =
      rounds-drain_from [] tx' answers still (round-IsSafe tx answer v) (omega arith) in
    (empty, rw no_run same)
rounds-drain_from (p ∷ q) tx (answer ∷ answers) e v h =
    let (r, tx') = round tx answer in
    let (rest, out) = round-takes tx answer p q v e in
    let (empty, same) =
      rounds-drain_from q tx' answers rest (round-IsSafe tx answer v) (omega arith) in
    (empty, started r p (rounds tx' answers).1 out ∙ ap (λ fs. frame_of p ∷ fs) same)

-- Every waiting packet leaves: in as many rounds of the driver and the work queue as packets wait,
-- whatever `uart_tx` answers, the queue is empty, and exactly the frames of those packets have been
-- given to `uart_tx`, oldest first. No packet waits for another to be put.
pub rounds-drain :
    (tx : Tx) (answers : List Bool)
    → IsSafe tx
    → length tx.msgq ≤ length answers
    → let (end, frames) = rounds tx answers in (end.msgq ≡ []) × (frames ≡ map frame_of tx.msgq)
rounds-drain tx answers v h = rounds-drain_from tx.msgq tx answers refl v h

-- The work queue runs the item as long as it is submitted, and the driver reports nothing meanwhile.
-- `none` means that the fuel ran out; `answers` gives what `uart_tx` answers, by the fuel left.
pub work_queue : ℕ → (ℕ → Bool) → Tx → Option Tx
work_queue zero answers tx = none
work_queue (suc fuel) answers tx =
    let rest = work_queue fuel answers (tx_work_handler tx (answers fuel)).1 in
    if tx.submitted then rest else some tx

-- A run takes the item off the work queue, or it takes a packet out of the message queue.
run-falls :
    (q : List Bytes) (tx : Tx) (answer : Bool)
    → q ≡ tx.msgq
    → let tx' = (tx_work_handler tx answer).1 in
      (tx'.submitted ≡ false) ⊎ (suc (length tx'.msgq) ≡ length tx.msgq)
unfolding tx_work_handler
run-falls [] tx answer e = ground arith
run-falls (p ∷ q) tx answer e = ground arith

at_rest : (tx : Tx) → IsSafe tx → tx.submitted ≡ false → (tx.msgq ≡ []) ⊎ (tx.in_progress ≡ true)
at_rest tx v rests = elim v.driven [
  | inl empty ↦ inl empty
  | inr (inl busy) ↦ inr busy
  | inr (inr runs) ↦ cc
]

work_queue-ends_from :
    (fuel : ℕ) (answers : ℕ → Bool) (tx : Tx)
    → IsSafe tx
    → ((tx.submitted ≡ false) × (1 ≤ fuel)) ⊎ (length tx.msgq + 2 ≤ fuel)
    → (end : Tx) × (work_queue fuel answers tx ≡ some end)
      × (end.submitted ≡ false)
      × ((end.msgq ≡ []) ⊎ (end.in_progress ≡ true))
unfolding work_queue
work_queue-ends_from zero answers tx v h = absurd (omega arith)
work_queue-ends_from (suc fuel) answers tx v h = elim (Bool-cases tx.submitted) [
  | inr rests ↦ (tx, ground arith, rests, at_rest tx v rests)
  | inl runs ↦
      let tx' = (tx_work_handler tx (answers fuel)).1 in
      let safe = handle-IsSafe tx.msgq tx (answers fuel) refl v in
      let enough : ((tx'.submitted ≡ false) × (1 ≤ fuel)) ⊎ (length tx'.msgq + 2 ≤ fuel) =
        ground (arith, run-falls tx.msgq tx (answers fuel) refl) in
      let (end, e, done, rest) = work_queue-ends_from fuel answers tx' safe enough in
      (end, ap (λ b. if b then work_queue fuel answers tx' else some tx) runs ∙ e, done, rest)
]

-- The item does not submit itself for ever, whatever `uart_tx` answers: with two runs more than
-- packets wait it has come to rest, with a transmission in progress or nothing left to send.
pub work_queue-ends :
    (fuel : ℕ) (answers : ℕ → Bool) (tx : Tx)
    → IsSafe tx
    → length tx.msgq + 2 ≤ fuel
    → (end : Tx) × (work_queue fuel answers tx ≡ some end)
      × (end.submitted ≡ false)
      × ((end.msgq ≡ []) ⊎ (end.in_progress ≡ true))
work_queue-ends fuel answers tx v h = work_queue-ends_from fuel answers tx v (inr h)
