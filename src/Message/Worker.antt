-- ===== src/Message/Worker.antt =====
-- `WorkerMessage` of src/tasks/worker_message.rs: what a worker sends to the scheduler, and its
-- conversions.
use wasmer_js.Prelude.{ℕ, ◌≡◌, refl, ap, ◌∙◌, Option, none, some, ◌==◌, if◌then◌else◌}
use wasmer_js.Message.{SchedulerMessage}
use wasmer_js.Message.Ty
use wasmer_js.Message.Object.{Object, type_field, set, serializer, ◌>>=◌, as_string}
use wasmer_js.Message.Convert.{Texts}
use wasmer_js.Message.Convert
use wasmer_js.Message.Convert.RoundTrip.{IsSendable, received, try_from_js-into_js}

pub data WorkerMessage : Type 0 where
  mark_busy mark_idle : WorkerMessage
  scheduler : SchedulerMessage → WorkerMessage

-- The JS object of such a message, and the object under its field `msg`, if there is one.
pub record Envelope : Type 0 where
  pub fields : Object
  pub msg : Option Object

abbrev pub bare : ℕ → Envelope
bare ty = record { fields = serializer ty; msg = none }

abbrev pub enclose : Object → Envelope
enclose o = record { fields = serializer Ty.scheduler; msg = some o }

-- `WorkerMessage::into_js` and `try_from_js`.
unfoldable pub into_js : Texts → WorkerMessage → Option Envelope
into_js t mark_busy = some (bare Ty.busy)
into_js t mark_idle = some (bare Ty.idle)
into_js t (scheduler msg) = do o ← Convert.into_js t msg; some (enclose o)

unfoldable pub read_message : Texts → Option Object → Option WorkerMessage
read_message t msg = do o ← msg; m ← Convert.try_from_js t o; some (scheduler m)

unfoldable pub try_from_js : Texts → Envelope → Option WorkerMessage
unfolding read_message
try_from_js t e = do
  ty ← as_string (e.fields type_field)
  if ty == Ty.busy
      then some mark_busy
      else if ty == Ty.idle
      then some mark_idle
      else if ty == Ty.scheduler
      then read_message t e.msg
      else none

-- What can be sent, and what arrives.
abbrev pub IsEmittable : Texts → WorkerMessage → Type 0
IsEmittable t (scheduler msg) = IsSendable t msg
IsEmittable t _ = Unit

abbrev pub read_back : WorkerMessage → WorkerMessage
read_back (scheduler msg) = scheduler (received msg)
read_back msg = msg

read-enclose :
    (t : Texts) (o : Option Object)
    → (do e ← (do o' ← o; some (enclose o')); try_from_js t e)
      ≡ (do m ← (do o' ← o; Convert.try_from_js t o'); some (scheduler m))
unfolding try_from_js set serializer
read-enclose t none = refl
read-enclose t (some o) = refl

-- A worker's message that can be sent is read back from its object.
pub try_from_js-into_js_worker :
    (t : Texts) (msg : WorkerMessage)
    → IsEmittable t msg
    → (do e ← into_js t msg; try_from_js t e) ≡ some (read_back msg)
unfolding into_js
try_from_js-into_js_worker t mark_busy h = unfold try_from_js set serializer in refl
try_from_js-into_js_worker t mark_idle h = unfold try_from_js set serializer in refl
try_from_js-into_js_worker t (scheduler msg) h =
    read-enclose t (Convert.into_js t msg)
    ∙ ap (λ o. o >>= λ m. some (scheduler m)) (try_from_js-into_js t msg h)
