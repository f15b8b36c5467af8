-- ===== src/PackageLoader.antt =====
-- The cache in front of a package's download: `download`, `download_cached` and `Cache` of
-- src/package_loader.rs. A download is under way while others begin and end. The HTTP client is a
-- parameter: its responses are events. A hash, a URL and a body's byte are numbers, and the lock of
-- the cache is not poisoned.
pub mod Sourced
use wasmer_js.Prelude.{
  ℕ, zero, suc, List, [], ◌∷◌, Option, none, some, Bool, if◌then◌else◌, HashMap, insert,
}

abbrev pub Bytes : Type 0
Bytes = List ℕ

pub record DistributionInfo : Type 0 where
  pub webc : ℕ
  pub webc_sha256 : ℕ

-- What the client answers: `is_ok` of the status, and the body; `none` where the request fails.
pub record HttpResponse : Type 0 where
  pub is_ok : Bool
  pub body : Option Bytes

-- What `download` makes of the response; `none` is an error.
unfoldable pub download : Option HttpResponse → Option Bytes
download none = none
download (some response) = if response.is_ok then response.body else none

-- `Cache::load` and `Cache::save`. The assertion of `save` is made in debug builds only.
unfoldable pub load : HashMap Bytes → ℕ → Option Bytes
load cache hash = cache hash

unfoldable pub save : HashMap Bytes → ℕ → Bytes → HashMap Bytes
save cache hash bytes = insert cache hash bytes

-- The loader, with the downloads that are under way, the requests made, and what the calls
-- returned, the latest first.
pub record PackageLoader : Type 0 where
  pub cache : HashMap Bytes
  pub pending : List DistributionInfo
  pub requests : List DistributionInfo
  pub returned : List (DistributionInfo × Option Bytes)

-- `download_cached` up to the request.
abbrev pub begin : PackageLoader → DistributionInfo → Option Bytes → PackageLoader
begin s dist (some body) = record s { returned = (dist, some body) ∷ s.returned }
begin s dist none = record s { pending = dist ∷ s.pending; requests = dist ∷ s.requests }

unfoldable pub download_cached : PackageLoader → DistributionInfo → PackageLoader
download_cached s dist = begin s dist (load s.cache dist.webc_sha256)

-- And its rest, when the response is there.
abbrev pub finish : PackageLoader → DistributionInfo → Option Bytes → PackageLoader
finish s dist none = record s { returned = (dist, none) ∷ s.returned }
finish s dist (some bytes) = record s {
  cache = save s.cache dist.webc_sha256 bytes;
  returned = (dist, some bytes) ∷ s.returned;
}

-- The `n`-th of the downloads that are under way, and the others.
unfoldable pub take_pending :
    ℕ → List DistributionInfo → Option (DistributionInfo × List DistributionInfo)
take_pending n [] = none
take_pending zero (dist ∷ rest) = some (dist, rest)
take_pending (suc n) (dist ∷ rest) = elim (take_pending n rest) [
  | none ↦ none
  | some (found, others) ↦ some (found, dist ∷ others)
]

pub data Event : Type 0 where
  called : DistributionInfo → Event
  responded : ℕ → Option HttpResponse → Event

abbrev pub resume :
    PackageLoader
    → Option HttpResponse
    → Option (DistributionInfo × List DistributionInfo)
    → PackageLoader
resume s response none = s
resume s response (some (dist, others)) =
    finish (record s { pending = others }) dist (download response)

unfoldable pub step : PackageLoader → Event → PackageLoader
step s (called dist) = download_cached s dist
step s (responded n response) = resume s response (take_pending n s.pending)

unfoldable pub run : PackageLoader → List Event → PackageLoader
run s [] = s
run s (event ∷ events) = run (step s event) events

-- `PackageLoader::new`.
abbrev pub new : PackageLoader
new = record { cache = λ hash. none; pending = []; requests = []; returned = [] }
