-- ===== src/Storage/Runs.antt =====
-- Runs of the panel's operations on a project's objects, pgforge/storage.go.
use mathlib.Core.Path.{subst, sym}
use forgebase.Common.{Bool, true, false, ◌≡◌, ◌⊎◌, Option, none, List, [], ◌∷◌, inl, inr, arith}
use forgebase.Common.Tests.{◌==◌}
use forgebase.Common.Text.{Bytes}
use forgebase.Common.Map.{lookup}
use forgebase.Storage.Path.{safe_rel}
use forgebase.Storage.Bucket.{Project, object_key}
use forgebase.Storage.Objects.{Request, save_object}
use forgebase.Storage.Panel.{
  Transfer, upload_object, delete_object, transfer_object, bulk_delete_objects, delete_bucket,
}
use forgebase.Storage.Agreement.{
  IsConsistent, save_object-IsConsistent, delete_object-IsConsistent,
  bulk_delete_objects-IsConsistent, delete_bucket-IsConsistent,
}
use forgebase.Storage.Transfers.{transfer_object-IsConsistent}

pub data Op : Type 0 where
  upload : Request → Bytes → Bytes → Op
  delete : Bytes → Bytes → Op
  transfer : Bool → Transfer → Bytes → Bytes → Bytes → Op
  bulk_delete : Bytes → Option (List Bytes) → Op
  drop_bucket : Bytes → Op

abbrev pub apply : Op → Project → Project
apply (upload r bucket filename) st = (upload_object r bucket filename st).0
apply (delete bucket path) st = (delete_object bucket path st).0
apply (transfer move t bucket from to) st = (transfer_object move t bucket from to st).0
apply (bulk_delete bucket paths) st = (bulk_delete_objects bucket paths st).0
apply (drop_bucket bucket) st = (delete_bucket bucket st).0

-- An upload succeeds, or no object stood there: a failed overwriting removes the file and leaves
-- the row.
abbrev pub IsKept : Op → Project → Type 0
IsKept (upload r bucket filename) st =
    ((upload_object r bucket filename st).1 ≡ true)
    ⊎ (lookup (object_key bucket (safe_rel filename)) st.objects ≡ none)
IsKept _ st = Unit

abbrev pub run : List Op → Project → Project
run [] st = st
run (o ∷ os) st = run os (apply o st)

abbrev pub IsKeptRun : List Op → Project → Type 0
IsKeptRun [] st = Unit
IsKeptRun (o ∷ os) st = IsKept o st × IsKeptRun os (apply o st)

-- What the panel's upload comes to.
upload_object-cases :
    (r : Request) (bucket filename : Bytes) (st : Project)
    → (upload_object r bucket filename st ≡ (st, false))
      ⊎ (upload_object r bucket filename st ≡ (
        (save_object r bucket (safe_rel filename) st).0,
        (save_object r bucket (safe_rel filename) st).1 == 200,
      ))
unfolding upload_object
upload_object-cases r bucket filename st = ground arith

upload_object-IsConsistent :
    (r : Request) (bucket filename : Bytes) (st : Project)
    → IsConsistent st
    → IsKept (upload r bucket filename) st
    → IsConsistent (upload_object r bucket filename st).0
upload_object-IsConsistent r bucket filename st c k =
    elim (upload_object-cases r bucket filename st) [
      | inl e ↦ subst (λ q. IsConsistent q.0) (sym e) c
      | inr e ↦
          subst (λ q. IsConsistent q.0) (sym e)
            (save_object-IsConsistent r bucket (safe_rel filename) st c
              (elim k [ inl good ↦ inl (ground (arith, e, good)) | inr free ↦ inr free ]))
    ]

apply-IsConsistent :
    (o : Op) (st : Project) → IsConsistent st → IsKept o st → IsConsistent (apply o st)
apply-IsConsistent (upload r bucket filename) st c k =
    upload_object-IsConsistent r bucket filename st c k
apply-IsConsistent (delete bucket path) st c k = delete_object-IsConsistent bucket path st c
apply-IsConsistent (transfer move t bucket from to) st c k =
    transfer_object-IsConsistent move t bucket from to st c
apply-IsConsistent (bulk_delete bucket paths) st c k =
    bulk_delete_objects-IsConsistent bucket paths st c
apply-IsConsistent (drop_bucket bucket) st c k = delete_bucket-IsConsistent bucket st c

-- Uploads that overwrite nothing in vain, deletions, copies, moves and bulk deletions, in any
-- order, leave every row with a file of the size that it says.
pub run-IsConsistent :
    (os : List Op) (st : Project) → IsConsistent st → IsKeptRun os st → IsConsistent (run os st)
run-IsConsistent [] st c k = c
run-IsConsistent (o ∷ os) st c (k, ks) =
    run-IsConsistent os (apply o st) (apply-IsConsistent o st c k) ks
