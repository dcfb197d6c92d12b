-- ===== src/Fence/Tests.antt =====
-- A run of the fence, and the theorem at it.
use im_backend.Prelude.{err, ◌≡◌, [], ◌∷◌, codes, arith}
use im_backend.Outbox.Types.{served, lost}
use im_backend.Messages.Store.{text_eq}
use im_backend.Fence.{Tables, stale_owner, current_token, write_fenced}
use im_backend.Fence.Superseded.{acquire, write, calls, superseded_owner_is_refused}

-- The second owner has the lease, with token 2.
abbrev second_owner : Tables
second_owner = record {
  leases = record { name = codes "r"; token = 2; until = 50 } ∷ [];
  resources = record { name = codes "r"; value = []; last_token = 1 } ∷ [];
}

superseded_owner_is_refused_example :
    write_fenced served (codes "r") 1 (codes "late") 60 (
      calls
        (write served (codes "r") 2 (codes "new") 40 ∷ acquire lost (codes "r") 5000000 55 ∷ [])
        second_owner)
    ≡ (
      calls
          (write served (codes "r") 2 (codes "new") 40 ∷ acquire lost (codes "r") 5000000 55 ∷ [])
          second_owner,
      err stale_owner,
    )
unfolding current_token text_eq
superseded_owner_is_refused_example =
    superseded_owner_is_refused (codes "r") (codes "late") 1 60 served
      (write served (codes "r") 2 (codes "new") 40 ∷ acquire lost (codes "r") 5000000 55 ∷ [])
      second_owner (omega arith)
