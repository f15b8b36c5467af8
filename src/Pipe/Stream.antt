-- ===== src/Pipe/Stream.antt =====
-- Any sequence of writes, reads and closes of one pipe.
use wasmer_js.Prelude.{
  ℕ, ◌-◌, min, ◌≡◌, refl, sym, ap, ◌∙◌, List, [], ◌∷◌, ◌++◌, arith, ◌==◌, length, take, drop,
  take-append-drop, take_append_exact, take-min, append_assoc, append-nil, length-take, Bool, true,
  false, Option, none, some, Bool-cases, inl, inr,
}
use wasmer_js.Memory.{Memory}
use wasmer_js.Pipe.{Result, ok, err, is_closed, close, write_data, try_read}
use wasmer_js.Pipe.Space.{IsPipe, tx_end, rx_end, contents}
use wasmer_js.Pipe.Write.{write_data_refines, write_data-Frame}
use wasmer_js.Pipe.Read.{try_read_refines, try_read-Frame}
use wasmer_js.Pipe.Close.{close-IsPipe, contents-close}
use wasmer_js.Pipe.Queue

-- A call on one of the ends; a read brings the caller's buffer.
pub data Op : Type 0 where
  put : List ℕ → Op
  get : List ℕ → Op
  shut : Op

-- The bytes that the calls took from their callers, and those that they handed to them.
abbrev pub accepted_of : List ℕ → Result ℕ → List ℕ
accepted_of bytes (ok n) = take n bytes
accepted_of bytes (err e) = []

abbrev pub received_of : Option ℕ → List ℕ → List ℕ
received_of none buf = []
received_of (some n) buf = take n buf

pub record Log : Type 0 where
  pub accepted : List ℕ
  pub received : List ℕ
  pub final : Memory

unfoldable pub run : ℕ → ℕ → Memory → List Op → Log
run offset capacity m [] = record { accepted = []; received = []; final = m }
run offset capacity m (put bytes ∷ ops) =
    let r = write_data m (tx_end offset capacity) bytes in
    let rest = run offset capacity r.1 ops in
    record rest { accepted = accepted_of bytes r.0 ++ rest.accepted }
run offset capacity m (get buf ∷ ops) =
    let o = try_read m (rx_end offset capacity) buf in
    let rest = run offset capacity o.2 ops in
    record rest { received = received_of o.0 o.1 ++ rest.received }
run offset capacity m (shut ∷ ops) = run offset capacity (close m offset) ops

-- A write of the queue adds the accepted bytes at its end.
write_accepts :
    (capacity : ℕ) (closed : Bool) (queue bytes : List ℕ)
    → let r = Queue.write capacity closed queue bytes in r.1 ≡ queue ++ accepted_of bytes r.0
unfolding Queue.write
write_accepts capacity true queue bytes = sym (append-nil queue)
write_accepts capacity false queue [] = sym (append-nil queue)
write_accepts capacity false queue (x ∷ xs) = elim (Bool-cases (capacity - 1 - length queue == 0)) [
  | inl z ↦ rw z (sym (append-nil queue))
  | inr z ↦ rw z (ap (◌++◌ queue) (sym (take-min (capacity - 1 - length queue) (x ∷ xs))))
]

took_back :
    (queue buf : List ℕ)
    → let n = min (length buf) (length queue) in
      queue ≡ take n (take n queue ++ drop n buf) ++ drop n queue
took_back queue buf =
    let n = min (length buf) (length queue) in
    sym (take-append-drop n queue)
    ∙ ap (λ front. front ++ drop n queue)
        (sym (take_append_exact n (take n queue) (drop n buf) (omega (arith, length-take n queue))))

-- A read of the queue takes the received bytes from its front.
read_delivers :
    (closed : Bool) (queue buf : List ℕ)
    → let o = Queue.read closed queue buf in queue ≡ received_of o.0 o.1 ++ o.2
unfolding Queue.read
read_delivers true [] buf = refl
read_delivers false [] buf = refl
read_delivers true (x ∷ xs) buf = took_back (x ∷ xs) buf
read_delivers false (x ∷ xs) buf = took_back (x ∷ xs) buf

stored :
    (offset capacity : ℕ) (m : Memory) (bytes : List ℕ)
    → IsPipe m offset capacity
    → let r = write_data m (tx_end offset capacity) bytes in
      contents r.1 offset capacity ≡ contents m offset capacity ++ accepted_of bytes r.0
stored offset capacity m bytes v =
    let e = write_data_refines m offset capacity bytes v in
    let queue = contents m offset capacity in
    ap (λ (p : Result ℕ × List ℕ). p.1) e
    ∙ write_accepts capacity (is_closed m offset) queue bytes
    ∙ ap (λ (p : Result ℕ × List ℕ). queue ++ accepted_of bytes p.0) (sym e)

taken_out :
    (offset capacity : ℕ) (m : Memory) (buf : List ℕ)
    → IsPipe m offset capacity
    → let o = try_read m (rx_end offset capacity) buf in
      contents m offset capacity ≡ received_of o.0 o.1 ++ contents o.2 offset capacity
taken_out offset capacity m buf v =
    let e = try_read_refines m offset capacity buf v in
    read_delivers (is_closed m offset) (contents m offset capacity) buf
    ∙ ap (λ (p : Option ℕ × List ℕ × List ℕ). received_of p.0 p.1 ++ p.2) (sym e)

-- In a well-formed pipe, however the calls follow one another: what the readers received, followed
-- by what the pipe still holds, is what the pipe held at first, followed by what it accepted from
-- the writers. No byte is lost, invented, repeated or overtaken.
pub run_stream :
    (offset capacity : ℕ) (m : Memory) (ops : List Op)
    → IsPipe m offset capacity
    → let l = run offset capacity m ops in
      l.received ++ contents l.final offset capacity ≡ contents m offset capacity ++ l.accepted
unfolding run
run_stream offset capacity m [] v = sym (append-nil (contents m offset capacity))
run_stream offset capacity m (put bytes ∷ ops) v =
    let r = write_data m (tx_end offset capacity) bytes in
    let rest = run offset capacity r.1 ops in
    run_stream offset capacity r.1 ops (write_data-Frame m offset capacity bytes v).well_formed
    ∙ ap (λ q. q ++ rest.accepted) (stored offset capacity m bytes v)
    ∙ append_assoc (contents m offset capacity) (accepted_of bytes r.0) rest.accepted
run_stream offset capacity m (get buf ∷ ops) v =
    let o = try_read m (rx_end offset capacity) buf in
    let rest = run offset capacity o.2 ops in
    append_assoc (received_of o.0 o.1) rest.received (contents rest.final offset capacity)
    ∙ ap (◌++◌ (received_of o.0 o.1))
        (run_stream offset capacity o.2 ops (try_read-Frame m offset capacity buf v).well_formed)
    ∙ sym (append_assoc (received_of o.0 o.1) (contents o.2 offset capacity) rest.accepted)
    ∙ ap (λ q. q ++ rest.accepted) (sym (taken_out offset capacity m buf v))
run_stream offset capacity m (shut ∷ ops) v =
    run_stream offset capacity (close m offset) ops (close-IsPipe m offset capacity v)
    ∙ ap (λ q. q ++ (run offset capacity (close m offset) ops).accepted)
        (contents-close m offset capacity)
