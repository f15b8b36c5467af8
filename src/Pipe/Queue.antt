-- ===== src/Pipe/Queue.antt =====
-- What the two ends of a pipe promise each other: a bounded first-in first-out queue of bytes.
use wasmer_js.Prelude.{
  ℕ, ◌-◌, min, Bool, true, false, List, [], ◌∷◌, ◌++◌, Option, none, some, ◌==◌, if◌then◌else◌, ◌≡◌,
  refl, ◌≢◌, length, take, drop,
}
use wasmer_js.Pipe.{Result, ok, err, broken_pipe, would_block}

-- A write takes as many bytes as fit and says how many. A ring of `capacity` bytes holds one less.
unfoldable pub write : ℕ → Bool → List ℕ → List ℕ → Result ℕ × List ℕ
write capacity true queue bytes = (err broken_pipe, queue)
write capacity false queue [] = (ok 0, queue)
write capacity false queue (x ∷ xs) =
    let free = capacity - 1 - length queue in
    if free == 0
    then (err would_block, queue)
    else (ok (min (length (x ∷ xs)) free), queue ++ take free (x ∷ xs))

-- A read takes the oldest bytes to the front of the caller's buffer. An empty pipe is at its end if
-- it is closed, and otherwise the read would block.
unfoldable pub read : Bool → List ℕ → List ℕ → Option ℕ × List ℕ × List ℕ
read true [] buf = (some 0, buf, [])
read false [] buf = (none, buf, [])
read closed (x ∷ xs) buf =
    let n = min (length buf) (length (x ∷ xs)) in
    (some n, take n (x ∷ xs) ++ drop n buf, drop n (x ∷ xs))

pub read_nonempty :
    (closed : Bool) (queue buf : List ℕ)
    → length queue ≢ 0
    → let n = min (length buf) (length queue) in
      read closed queue buf ≡ (some n, take n queue ++ drop n buf, drop n queue)
unfolding read
read_nonempty closed [] buf h = absurd (h refl)
read_nonempty true (x ∷ xs) buf h = refl
read_nonempty false (x ∷ xs) buf h = refl
