-- ===== src/Tests/PackageLoader.antt =====
-- Two calls for one package, the second behind the response to the first, and a third that fails.
use wasmer_js.Prelude.{ℕ, suc, ◌≡◌, refl, List, [], ◌∷◌, none, some, true, false, insert}
use wasmer_js.PackageLoader.{
  Bytes, DistributionInfo, download, load, save, download_cached, take_pending, Event, called,
  responded, step, run, new,
}
use wasmer_js.PackageLoader.Sourced.{AreHonest, AreBodies, run_bodies}

abbrev cowsay : DistributionInfo
cowsay = record { webc = 1; webc_sha256 = 4 }

abbrev missing : DistributionInfo
missing = record { webc = 2; webc_sha256 = 6 }

abbrev events : List Event
events =
    called cowsay
    ∷ called missing
    ∷ responded 1 (some (record { is_ok = true; body = some (5 ∷ []) }))
    ∷ called cowsay
    ∷ responded 0 (some (record { is_ok = false; body = some (9 ∷ []) }))
    ∷ []

-- The body of a hash is the number behind it.
abbrev IsBody : ℕ → Bytes → Type 0
IsBody hash bytes = bytes ≡ suc hash ∷ []

honest : AreHonest IsBody new events
unfolding AreHonest step download_cached load save insert take_pending download
honest = (tt, (tt, (refl, (tt, (tt, tt)))))

returned :
    (run new events).returned
    ≡ (missing, none) ∷ (cowsay, some (5 ∷ [])) ∷ (cowsay, some (5 ∷ [])) ∷ []
unfolding run step download_cached load save insert take_pending download
returned = refl

run_bodies_example : AreBodies IsBody (run new events).returned
run_bodies_example = run_bodies IsBody events honest
