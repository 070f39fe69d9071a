-- ===== src/Disk/Queue.antt =====
-- vmem_disk_request and vmem_disk_getgeo: the queue of requests, and the geometry that is reported.
use training.Base.{
  ◌+◌, ◌*◌, ◌%◌, ◌≡◌, refl, sym, ap, ◌∙◌, inl, inr, List, [], ◌∷◌, true, false, arith,
  if◌then◌else◌, Bool-cases, length,
}
use training.Disk.{Dev, BlockRequest, Ended, eio, request, serve_request, getgeo}
use training.Disk.Transfer.{IsValid}

-- The requests of the file system.
abbrev pub fs_only : List BlockRequest → List BlockRequest
fs_only [] = []
fs_only (req ∷ rest) = if req.is_fs then req ∷ fs_only rest else fs_only rest

-- The answer to each request that is none of the file system's is -EIO.
abbrev pub Refused : List BlockRequest → List Ended → Type 0
Refused [] [] = Unit {0}
Refused (req ∷ reqs) (e ∷ ends) = ((req.is_fs ≡ false) → e ≡ eio) × Refused reqs ends
Refused _ _ = ⊥

skipped : (dev : Dev) (req : BlockRequest) → req.is_fs ≡ false → serve_request dev req ≡ (dev, eio)
unfolding serve_request
skipped dev req h = rw h

request_cons :
    (dev : Dev) (req : BlockRequest) (rest : List BlockRequest)
    → ((request dev (req ∷ rest)).0 ≡ (request (serve_request dev req).0 rest).0)
      × ((request dev (req ∷ rest)).1
          ≡ (serve_request dev req).1 ∷ (request (serve_request dev req).0 rest).1)
unfolding request
request_cons dev req rest = (refl, refl)

fs_only_keep :
    (req : BlockRequest) (rest : List BlockRequest)
    → req.is_fs ≡ true
    → fs_only (req ∷ rest) ≡ req ∷ fs_only rest
fs_only_keep req rest h = ground arith

fs_only_skip :
    (req : BlockRequest) (rest : List BlockRequest)
    → req.is_fs ≡ false
    → fs_only (req ∷ rest) ≡ fs_only rest
fs_only_skip req rest h = ground arith

request-fs_only :
    (dev : Dev) (reqs : List BlockRequest) → (request dev reqs).0 ≡ (request dev (fs_only reqs)).0
request-fs_only dev [] = refl
request-fs_only dev (req ∷ rest) = elim (Bool-cases req.is_fs) [
  | inl fs ↦
      (request_cons dev req rest).0
      ∙ request-fs_only (serve_request dev req).0 rest
      ∙ sym (request_cons dev req (fs_only rest)).0
      ∙ ap (λ l. (request dev l).0) (sym (fs_only_keep req rest fs))
  | inr other ↦
      (request_cons dev req rest).0
      ∙ ap (λ r. (request r.0 rest).0) (skipped dev req other)
      ∙ request-fs_only dev rest
      ∙ ap (λ l. (request dev l).0) (sym (fs_only_skip req rest other))
]

request-Refused : (dev : Dev) (reqs : List BlockRequest) → Refused reqs (request dev reqs).1
unfolding request
request-Refused dev [] = tt
request-Refused dev (req ∷ rest) =
    (λ h. ap (λ r. r.1) (skipped dev req h), request-Refused (serve_request dev req).0 rest)

-- Every request of the queue is ended once and in order, and one that is none of the file system's is
-- refused with -EIO and leaves the disk as if it had not been there.
pub request_lem :
    (dev : Dev) (reqs : List BlockRequest)
    → Refused reqs (request dev reqs).1 × ((request dev reqs).0 ≡ (request dev (fs_only reqs)).0)
request_lem dev reqs = (request-Refused dev reqs, request-fs_only dev reqs)

-- The geometry of a disk has as many sectors as the disk has bytes, up to a whole number of cylinders.
pub getgeo_lem :
    (dev : Dev)
    → IsValid dev
    → (getgeo dev).cylinders * ((getgeo dev).heads * (getgeo dev).sectors) + length dev.bytes % 64
      ≡ length dev.bytes
unfolding getgeo
getgeo_lem dev v = omega arith
