-- ===== src/PackageLoader/Sourced.antt =====
-- That a body is returned for the hash that it was downloaded for.
use wasmer_js.Prelude.{
  ℕ, ◌≡◌, refl, sym, ap, ◌∙◌, List, [], ◌∷◌, Option, none, some, Bool-cases, if◌then◌else◌, inl,
  inr, ◌==◌, ==→eq, HashMap, insert,
}
use wasmer_js.PackageLoader.{
  Bytes, DistributionInfo, HttpResponse, download, load, save, PackageLoader, begin,
  download_cached, finish, take_pending, Event, called, responded, resume, step, run, new,
}

some-inj : {A : Type 0} {a b : A} → some a ≡ some b → a ≡ b
some-inj h = cc

-- What the server promises of a hash's body, as the check of a hash would.
module _ (IsBody : ℕ → Bytes → Type 0) where
  abbrev pub HasSent : Option (DistributionInfo × List DistributionInfo) → Option Bytes → Type 0
  HasSent none body = Unit
  HasSent (some (dist, others)) none = Unit
  HasSent (some (dist, others)) (some bytes) = IsBody dist.webc_sha256 bytes

  abbrev pub IsHonest : PackageLoader → Event → Type 0
  IsHonest s (called dist) = Unit
  IsHonest s (responded n response) = HasSent (take_pending n s.pending) (download response)

  -- Each response with a body has the body of the hash that was asked for.
  unfoldable pub AreHonest : PackageLoader → List Event → Type 0
  AreHonest s [] = Unit
  AreHonest s (event ∷ events) = IsHonest s event × AreHonest (step s event) events

  abbrev pub AreBodies : List (DistributionInfo × Option Bytes) → Type 0
  AreBodies [] = Unit
  AreBodies ((dist, none) ∷ rest) = AreBodies rest
  AreBodies ((dist, some bytes) ∷ rest) = IsBody dist.webc_sha256 bytes × AreBodies rest

  abbrev IsSourced : PackageLoader → Type 0
  IsSourced s =
      ((hash : ℕ) (bytes : Bytes) → s.cache hash ≡ some bytes → IsBody hash bytes)
      × AreBodies s.returned

  save-IsBody :
      (cache : HashMap Bytes) (hash : ℕ) (bytes : Bytes)
      → ((k : ℕ) (b : Bytes) → cache k ≡ some b → IsBody k b)
      → IsBody hash bytes
      → (k : ℕ) (b : Bytes) → save cache hash bytes k ≡ some b
      → IsBody k b
  unfolding save insert
  save-IsBody cache hash bytes h sent k b e = elim (Bool-cases (k == hash)) [
    | inl same ↦
        let eq : bytes ≡ b =
          some-inj (sym (ap (λ t. if t then some bytes else cache k) same) ∙ e) in
        rw (==→eq k hash same, sym eq) sent
    | inr other ↦ h k b (sym (ap (λ t. if t then some bytes else cache k) other) ∙ e)
  ]

  resume-IsSourced :
      (s : PackageLoader) (response : Option HttpResponse)
      (found : Option (DistributionInfo × List DistributionInfo))
      → HasSent found (download response)
      → IsSourced s
      → IsSourced (resume s response found)
  resume-IsSourced s response none honest h = h
  resume-IsSourced s response (some (dist, others)) honest h =
      finish-IsSourced (download response) honest
    where
      finish-IsSourced :
          (body : Option Bytes)
          → HasSent (some (dist, others)) body
          → IsSourced (finish (record s { pending = others }) dist body)
      finish-IsSourced none u = (h.0, h.1)
      finish-IsSourced (some bytes) sent =
          (save-IsBody s.cache dist.webc_sha256 bytes h.0 sent, (sent, h.1))

  step-IsSourced :
      (s : PackageLoader) (event : Event)
      → IsHonest s event
      → IsSourced s
      → IsSourced (step s event)
  unfolding step download_cached load
  step-IsSourced s (called dist) honest h = begun (s.cache dist.webc_sha256) refl
    where
      begun :
          (body : Option Bytes) → s.cache dist.webc_sha256 ≡ body → IsSourced (begin s dist body)
      begun none e = (h.0, h.1)
      begun (some bytes) e = (h.0, (h.0 dist.webc_sha256 bytes e, h.1))
  step-IsSourced s (responded n response) honest h =
      resume-IsSourced s response (take_pending n s.pending) honest h

  run-IsSourced :
      (s : PackageLoader) (events : List Event)
      → AreHonest s events
      → IsSourced s
      → IsSourced (run s events)
  unfolding run AreHonest
  run-IsSourced s [] honest h = h
  run-IsSourced s (event ∷ events) honest h =
      run-IsSourced (step s event) events honest.1 (step-IsSourced s event honest.0 h)

  -- Whatever calls and responses of a new loader follow one another, if each OK response has the
  -- body of the hash that it was asked for, then so has each body that a call returns, whether it
  -- was downloaded for that call or comes out of the cache.
  pub run_bodies :
      (events : List Event) → AreHonest new events → AreBodies (run new events).returned
  run_bodies events honest = (run-IsSourced new events honest ((λ hash bytes e. cc), tt)).1
