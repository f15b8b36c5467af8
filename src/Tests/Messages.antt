-- ===== src/Tests/Messages.antt =====
-- A message with a memory and the pipes of a fork, and one that is not understood.
use wasmer_js.Prelude.{◌≡◌, refl, true, false, [], ◌∷◌, none, some}
use wasmer_js.Message.{
  SubprocessStdioBuffers, ForkPipeBuffers, SchedulerMessage, PostMessagePayload, blocking, close,
}
use wasmer_js.Message
use wasmer_js.Message.Payload
use wasmer_js.Message.Payload.RoundTrip.{arrived, try_from_js-into_js_payload}
use wasmer_js.Message.Object.{◌>>=◌, set, serializer}
use wasmer_js.Message.Convert.{Texts, into_js, try_from_js, read_fields}
use wasmer_js.Message.Convert.RoundTrip.{received, try_from_js-into_js}

abbrev texts : Texts
texts = record {
  print_hash = λ h. h;
  sha256_parse_hex = λ s. none;
  xxhash_parse_hex = λ s. some s;
  has_shared_memory = λ s. true;
}

abbrev forked : ForkPipeBuffers
forked = record { buffers = (4, true, 24, 28) ∷ (5, false, 52, 28) ∷ []; all_fds_debug = 9 }

abbrev msg : SchedulerMessage
msg = SchedulerMessage.spawn_with_module_and_memory 1 (some 2) 3 none (some forked)

try_from_js-into_js_example : (into_js texts msg >>= try_from_js texts) ≡ some (received msg)
try_from_js-into_js_example = try_from_js-into_js texts msg refl

-- `close` can be written but not read.
close_unread : (into_js texts close >>= try_from_js texts) ≡ none
unfolding into_js try_from_js read_fields set serializer
close_unread = refl

abbrev stdio : SubprocessStdioBuffers
stdio = record {
  stdin_offset = 24;
  stdin_size = 28;
  stdout_offset = 52;
  stdout_size = 28;
  stderr_offset = 80;
  stderr_size = 28;
}

abbrev payload : PostMessagePayload
payload =
    blocking
      (Message.BlockingJob.spawn_with_module_and_memory 1 (some 2) 3 (some stdio) (some forked))

try_from_js-into_js_payload_example :
    Payload.try_from_js texts (Payload.into_js texts payload) ≡ some (arrived payload)
try_from_js-into_js_payload_example = try_from_js-into_js_payload texts payload tt
