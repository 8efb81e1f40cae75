-- ===== src/Uart/Transmit.antt =====
-- The transmit queue of src/uart_meshtastic.c, over every order of its callers, its work item and
-- the driver's events.
use meshtastic_ble_proxy.Base.{
  ◌≤◌, ◌<◌, ◌≡◌, refl, sym, ap, ◌∙◌, Bool, true, List, [], ◌∷◌, ◌++◌, arith, length, map, Bytes,
  append_assoc, length-append, All, All-append, append-nil, Rc, ok, err, emsgsize, enomem, ◌⊎◌, inl,
  inr,
}
use meshtastic_ble_proxy.Uart.{
  Tx, TxRun, idle, sent, dropped, uart_meshtastic_tx, tx_work_handler, tx_done, frame_of,
  meshtastic_max_payload, tx_queue_depth, tx_at_boot,
}

-- What can happen to the transmit side: a caller's packet, a run of the submitted work item with
-- the driver's answer, and the end of a transmission in progress.
pub data TxEvent : Type 0 where
  put : Bytes → TxEvent
  run : Bool → TxEvent
  done : TxEvent

-- What came of the events: the packets that were accepted, and the frames that left the queue.
pub record TxLog : Type 0 where
  pub accepted : List Bytes
  pub started : List Bytes

abbrev accept : Rc → Bytes → List Bytes → List Bytes
accept ok p ps = p ∷ ps
accept (err e) p ps = ps

abbrev pub start : TxRun → List Bytes → List Bytes
start idle fs = fs
start (sent f) fs = f ∷ fs
start (dropped f) fs = f ∷ fs

pub tx_events : Tx → List TxEvent → Tx × TxLog
tx_events tx [] = (tx, record { accepted = []; started = [] })
tx_events tx (put p ∷ es) =
    let (rc, tx') = uart_meshtastic_tx tx p in
    let (end, log) = tx_events tx' es in (end, record log { accepted = accept rc p log.accepted })
tx_events tx (run answer ∷ es) =
    let (r, tx') = tx_work_handler tx answer in
    let (end, log) = tx_events tx' es in (end, record log { started = start r log.started })
tx_events tx (done ∷ es) = tx_events (tx_done tx) es

pub record IsSafe (tx : Tx) : Type 0 where
  pub depth : length tx.msgq ≤ tx_queue_depth
  pub sizes : All (λ p. length p ≤ meshtastic_max_payload) tx.msgq
  -- A waiting packet has a run of the work item coming: it is submitted, or the end of the
  -- transmission in progress will submit it.
  pub driven : (tx.msgq ≡ []) ⊎ ((tx.in_progress ≡ true) ⊎ (tx.submitted ≡ true))

pub at_boot-IsSafe : IsSafe tx_at_boot
unfolding tx_at_boot
at_boot-IsSafe = record { depth = omega arith; sizes = tt; driven = inl refl }

-- A packet is queued behind the others and the work item submitted, or refused with no effect:
-- with -EMSGSIZE above 512 bytes, and else with -ENOMEM when four packets wait.
pub tx_cases :
    (tx : Tx) (p : Bytes)
    → ((length p ≤ meshtastic_max_payload)
        × (length tx.msgq < tx_queue_depth)
        × (uart_meshtastic_tx tx p
            ≡ (ok, record tx { msgq = tx.msgq ++ p ∷ []; submitted = true })))
      ⊎ (((meshtastic_max_payload < length p) × (uart_meshtastic_tx tx p ≡ (err emsgsize, tx)))
          ⊎ ((length p ≤ meshtastic_max_payload)
              × (tx_queue_depth ≤ length tx.msgq)
              × (uart_meshtastic_tx tx p ≡ (err enomem, tx))))
unfolding uart_meshtastic_tx
tx_cases tx p = ground arith

pub tx-IsSafe : (tx : Tx) (p : Bytes) → IsSafe tx → IsSafe (uart_meshtastic_tx tx p).1
tx-IsSafe tx p v = elim (tx_cases tx p) [
  | inl (small, room, e) ↦ rw e (record {
    depth = omega (arith, length-append tx.msgq (p ∷ []));
    sizes =
        All-append (λ q. length q ≤ meshtastic_max_payload) tx.msgq (p ∷ []) v.sizes (small, tt);
    driven = inr (inr refl);
  })
  | inr (inl (big, e)) ↦ rw e v
  | inr (inr (small, full, e)) ↦ rw e v
]

pub handle-IsSafe :
    (q : List Bytes) (tx : Tx) (answer : Bool)
    → q ≡ tx.msgq
    → IsSafe tx
    → IsSafe (tx_work_handler tx answer).1
unfolding tx_work_handler
handle-IsSafe [] tx answer e v = ground arith
handle-IsSafe (p ∷ q) tx answer e v = ground arith

-- The first packet after boot is given to `uart_tx`, framed.
pub first_packet :
    (payload : Bytes)
    → length payload ≤ meshtastic_max_payload
    → (tx_work_handler (uart_meshtastic_tx tx_at_boot payload).1 true).0 ≡ sent (frame_of payload)
unfolding uart_meshtastic_tx tx_at_boot tx_work_handler
first_packet payload small = ground arith

pub done-IsSafe : (tx : Tx) → IsSafe tx → IsSafe (tx_done tx)
unfolding tx_done
done-IsSafe tx v = record { depth = v.depth; sizes = v.sizes; driven = inr (inr refl) }

-- Under every sequence of events the queue holds at most four packets of at most 512 bytes, and a
-- packet in it never waits with no run of the work item to come.
events-IsSafe : (tx : Tx) (es : List TxEvent) → IsSafe tx → IsSafe (tx_events tx es).0
unfolding tx_events tx_done
events-IsSafe tx [] v = v
events-IsSafe tx (put p ∷ es) v = events-IsSafe (uart_meshtastic_tx tx p).1 es (tx-IsSafe tx p v)
events-IsSafe tx (run answer ∷ es) v =
    events-IsSafe (tx_work_handler tx answer).1 es (handle-IsSafe tx.msgq tx answer refl v)
events-IsSafe tx (done ∷ es) v = events-IsSafe (tx_done tx) es (done-IsSafe tx v)

put_appends :
    (tx : Tx) (p : Bytes) (later : List Bytes)
    → let (rc, tx') = uart_meshtastic_tx tx p in tx.msgq ++ accept rc p later ≡ tx'.msgq ++ later
put_appends tx p later = elim (tx_cases tx p) [
  | inl (small, room, e) ↦ rw e (sym (append_assoc tx.msgq (p ∷ []) later))
  | inr (inl (big, e)) ↦ rw e
  | inr (inr (small, full, e)) ↦ rw e
]

start-append : (r : TxRun) (fs gs : List Bytes) → start r fs ++ gs ≡ start r (fs ++ gs)
start-append idle fs gs = refl
start-append (sent f) fs gs = refl
start-append (dropped f) fs gs = refl

run_removes :
    (q : List Bytes) (tx : Tx) (answer : Bool) (later : List Bytes)
    → tx.msgq ≡ q
    → let (r, tx') = tx_work_handler tx answer in
      map frame_of (tx.msgq ++ later) ≡ start r (map frame_of (tx'.msgq ++ later))
unfolding tx_work_handler
run_removes [] tx answer later e = ground arith
run_removes (p ∷ q) tx answer later e = ground arith

-- Under every sequence of events the frames that leave the queue are those of the accepted packets,
-- each once and in the order of acceptance, and the packets still in the queue are the others.
pub events-fifo :
    (tx : Tx) (es : List TxEvent)
    → let (end, log) = tx_events tx es in
      map frame_of (tx.msgq ++ log.accepted) ≡ log.started ++ map frame_of end.msgq
unfolding tx_events tx_done
events-fifo tx [] = rw (append-nil)
events-fifo tx (put p ∷ es) =
    let (rc, tx') = uart_meshtastic_tx tx p in
    ap (map frame_of) (put_appends tx p (tx_events tx' es).1.accepted) ∙ events-fifo tx' es
events-fifo tx (run answer ∷ es) =
    let (r, tx') = tx_work_handler tx answer in
    run_removes tx.msgq tx answer (tx_events tx' es).1.accepted refl
    ∙ ap (start r) (events-fifo tx' es)
    ∙ sym (start-append r (tx_events tx' es).1.started _)
events-fifo tx (done ∷ es) = events-fifo (tx_done tx) es
