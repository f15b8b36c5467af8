-- ===== src/Tests/Fork.antt =====
-- A process with both ends of a pipe is forked.
use wasmer_js.Prelude.{
  ℕ, zero, suc, ◌==◌, if◌then◌else◌, ◌-◌, ◌/◌, ◌+◌, ◌*◌, ◌≡◌, ◌≤◌, ◌<◌, refl, List, [], ◌∷◌, none,
  some, true, false, arith,
}
use wasmer_js.Memory.{Memory, load}
use wasmer_js.Message.{blocking, thunk, spawn_with_module_and_memory}
use wasmer_js.Message.Object.{Object, serializer}
use wasmer_js.Message.Convert.{Texts}
use wasmer_js.Message.Payload.{into_js}
use wasmer_js.Message.Ty
use wasmer_js.Fork.{Kind, virtual_pipe_tx, virtual_pipe_rx, other, fork_pipes, get_fd}
use wasmer_js.Fork.Copy.{WasmMemory, MemoryType, copied, thrown, copy_memory, copy_memory_lem}
use wasmer_js.Worker.{World, act, busy, began, executed, handle}
use wasmer_js.Fork.Unchanged.{IsMap, IsLive}
use wasmer_js.Worker.Forked.{handle-forked}
use wasmer_js.Worker.Overlap.{Event, arrived, resumed, State, run}
use wasmer_js.Worker.Overlap.Marks.{IsMarked, after_all, run-IsMarked}

abbrev texts : Texts
texts = record {
  print_hash = λ h. h;
  sha256_parse_hex = λ s. none;
  xxhash_parse_hex = λ s. some s;
  has_shared_memory = λ s. true;
}

-- Descriptors 1 and 5 are the two ends of a pipe at 24 with one writer; 0 is a file.
abbrev kinds : ℕ → Kind
kinds zero = other
kinds (suc zero) =
    virtual_pipe_tx (some (record { pool_offset = 24; buffer_size = 28; data_capacity = 8 }))
kinds (suc (suc zero)) =
    virtual_pipe_rx (some (record { pool_offset = 24; buffer_size = 28; data_capacity = 8 }))
kinds _ = other

abbrev memory : Memory
memory a = if a == 40 then 1 else 0

abbrev world : World
world = record {
  envs = λ spawn. record { fd_map = (0, 0) ∷ (1, 1) ∷ (5, 2) ∷ []; kinds = kinds };
  memory = memory;
  actions = [];
}

counted : load memory 40 ≡ 1
unfolding load
counted = refl

live : (inode : ℕ) → IsLive memory (kinds inode)
live zero = tt
live (suc zero) = (refl, omega (arith, counted), omega (arith, counted))
live (suc (suc zero)) = refl
live (suc (suc (suc n))) = tt

is_map : IsMap (world.envs 3)
unfolding get_fd
is_map = (refl, (refl, (refl, tt)))

handle-forked_example :
    let pipes = fork_pipes (λ bs. bs) (world.envs 3) 0 in
    handle texts
      (λ spawn. false)
      world
      (into_js texts (blocking (spawn_with_module_and_memory 1 (some 2) 3 none pipes)))
    ≡ (false, act world (began 3 ∷ busy (executed 3 1 (some 2) ∷ [])))
handle-forked_example =
    handle-forked (λ bs. bs) (λ P bs h. h) texts (λ spawn. false) world 1 (some 2) 3 none 0 is_map
      (λ c. ground arith) live

-- Something that the worker does not understand, two spawns, the second of which arrives while the
-- first is executed, and a job that is begun while both are.
abbrev spawn : ℕ → Object
spawn i = into_js texts (blocking (spawn_with_module_and_memory 1 (some 2) i none none))

abbrev events : List Event
events =
    arrived (serializer Ty.close)
    ∷ arrived (spawn 3)
    ∷ resumed 0
    ∷ arrived (spawn 4)
    ∷ resumed 1
    ∷ arrived (into_js texts (blocking (thunk 4)))
    ∷ resumed 1
    ∷ []

abbrev unmarked : State
unmarked = record { world = world; tasks = [] }

unmarked-IsMarked : IsMarked unmarked
unfolding after_all
unmarked-IsMarked = refl

run-IsMarked_example : IsMarked (run texts unmarked events)
run-IsMarked_example = run-IsMarked texts unmarked events unmarked-IsMarked

-- One page and a byte, in a memory that starts with one page and may have three, or two.
abbrev source : WasmMemory
source = record { bytes = λ b. 7; byte_length = 65537 }

abbrev ty : MemoryType
ty = record { minimum = 1; maximum = some 3 }

copy_memory_lem_example :
    (1 + ((65537 - 1) / 65536 + 1) ≤ 3
      → (m : WasmMemory) × (copy_memory true source ty ≡ copied m)
        × ((b : ℕ) → b < 65537 → m.bytes b ≡ 7)
        × ((b : ℕ) → 65537 ≤ b → m.bytes b ≡ 0)
        × (m.byte_length ≡ (1 + ((65537 - 1) / 65536 + 1)) * 65536))
    × (3 < 1 + ((65537 - 1) / 65536 + 1) → copy_memory true source ty ≡ thrown)
copy_memory_lem_example = copy_memory_lem source ty (omega arith) (omega arith)

-- A source that fills its memory cannot be forked.
full : copy_memory true source (record { minimum = 1; maximum = some 2 }) ≡ thrown
full =
    (copy_memory_lem source (record { minimum = 1; maximum = some 2 }) (omega arith)
        (omega arith)).1
      (omega arith)
