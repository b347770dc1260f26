-- ===== src/Storage/PanelTests.antt =====
-- The panel's theorems on a concrete project.
use forgebase.Common.Lists.{length}
use forgebase.Common.Decimal.{pos}
use forgebase.Common.{
  some, ◌≤◌, ◌++◌, ◌≡◌, ◌≢◌, ◌↔◌, refl, true, false, Bool, none, List, [], ◌∷◌, inl, inr, arith,
}
use forgebase.Common.Tests.{Bool-cases}
use forgebase.Common.Text.{Bytes, codes, eqb, eqb-false, has_byte}
use forgebase.Common.Split.{split, join}
use forgebase.Common.Map.{lookup}
use forgebase.Storage.Path.{slash, safe_rel, trim_slashes, is_proper, bucket_re}
use forgebase.Storage.Bucket.{Object, Project, object_key, bucket_exists}
use forgebase.Storage.Objects.{Request}
use forgebase.Storage.Panel.{
  Transfer, ensure_local, copy_file, transfer_to, transfer_object, delete_bucket,
}
use forgebase.Storage.Listing.{
  ListBody, object, like, any_end, rows_of, matching, list_prefix, all_entries,
}
use forgebase.Storage.Agreement.{IsConsistent}
use forgebase.Storage.Transfers.{Transferred, transfer_object-Transferred}
use forgebase.Storage.Removal.{delete_bucket_lem}
use forgebase.Storage.Levels.{IsPlain, HasEntry}
use forgebase.Storage.Listed.{IsHit, all_entries_lem}
use forgebase.Storage.Runs.{Op, upload, transfer, delete, drop_bucket, run, run-IsConsistent}

abbrev note : Object
note = record { size = 4; mime = codes "text/plain" }

abbrev docs : Bytes
docs = codes "docs"

abbrev held : Project
held = record {
  slug = codes "shop";
  secret = codes "key";
  quota_mb = 1;
  buckets = (docs, record { public = false; max_size_mb = 0; allowed_mime = [] }) ∷ [];
  rules = [];
  objects = (codes "docs/a", note) ∷ [];
  files = (codes "docs/a", codes "kept") ∷ [];
}

held-IsConsistent : IsConsistent held
unfolding lookup
held-IsConsistent = record {
  rows = (refl, tt);
  disk = (refl, tt);
  backed = λ k p e. elim (Bool-cases (eqb (codes "docs/a") k)) [
    | inl same ↦
        let q : note ≡ p = ground (arith, same, e) in
        (codes "kept", rw same refl, ground (arith, q))
    | inr other ↦ absurd (ground (arith, other, e))
  ];
}

abbrev works : Bool → Transfer
works pushes = record {
  remote = none;
  opens = true;
  creates = true;
  copies = true;
  closes = true;
  pushes = pushes;
}

transfer_object-Transferred_example :
    (lookup (object_key docs (safe_rel (codes "/b"))) held.objects ≡ none)
    × Transferred true
        (object_key docs (safe_rel (codes "a")))
        (object_key docs (safe_rel (codes "/b")))
        held
        (transfer_object true (works true) docs (codes "a") (codes "/b") held).0
unfolding transfer_object bucket_exists bucket_re lookup safe_rel trim_slashes is_proper eqb split
    join ensure_local transfer_to copy_file
transfer_object-Transferred_example =
    transfer_object-Transferred true (works true) docs (codes "a") (codes "/b") held
      held-IsConsistent refl

abbrev form : Request
form = record {
  apikey = [];
  authorization = [];
  content_type = codes "text/plain";
  body = codes "new";
  creates = true;
  copies = true;
  pushes = true;
}

abbrev tidying : List Op
tidying =
    upload form docs (codes "c")
    ∷ transfer false (works true) docs (codes "a") (codes "b")
    ∷ delete docs (codes "a")
    ∷ drop_bucket docs
    ∷ []

nothing_there : lookup (object_key docs (safe_rel (codes "c"))) held.objects ≡ none
unfolding lookup safe_rel trim_slashes is_proper eqb split join
nothing_there = refl

run-IsConsistent_example : IsConsistent (run tidying held)
run-IsConsistent_example =
    run-IsConsistent tidying held held-IsConsistent (inr nothing_there, (tt, (tt, (tt, tt))))

docs2 : codes "docs2" ≢ docs
docs2 = eqb-false (codes "docs2") docs (unfold eqb in refl)

delete_bucket_lem_example :
    let new = (delete_bucket docs held).0 in
    ((path : Bytes)
      → (lookup (object_key docs path) new.objects ≡ none)
        × (lookup (object_key docs path) new.files ≡ none))
    × (bucket_exists new docs ≡ false)
    × (lookup (object_key (codes "docs2") (codes "a")) new.objects
        ≡ lookup (object_key (codes "docs2") (codes "a")) held.objects)
    × (lookup (object_key (codes "docs2") (codes "a")) new.files
        ≡ lookup (object_key (codes "docs2") (codes "a")) held.files)
    × (new.rules ≡ held.rules)
unfolding bucket_re has_byte
delete_bucket_lem_example =
    delete_bucket_lem docs (codes "docs2") (codes "a") held held-IsConsistent refl refl docs2

-- An underscore matches any byte: a listing of "a_b" selects the rows under "axb".
wildcard : like false (codes "a_b/%") (codes "axb/secret") ≡ true
unfolding like any_end
wildcard = refl

abbrev level : ListBody
level = record { prefix = codes "u"; limit = pos 10; offset = pos 0; search = codes "X" }

abbrev shelf : Project
shelf = record held { objects = (codes "docs/u/x", note) ∷ [] }

plain : IsPlain (list_prefix level.prefix)
unfolding list_prefix safe_rel trim_slashes is_proper eqb split join
plain = (omega arith, omega arith, omega arith, (omega arith, omega arith, omega arith, tt))

few : length (matching (list_prefix level.prefix ++ b'%' ∷ []) (rows_of docs shelf.objects)) ≤ 5000
unfolding list_prefix safe_rel trim_slashes is_proper eqb split join matching like rows_of any_end
few = omega arith

all_entries_lem_example :
    HasEntry
      (object (codes "x") (codes "docs/u/x") note)
      (all_entries (λ rows. rows) docs level shelf)
    ↔ ((lookup (object_key docs (list_prefix level.prefix ++ codes "x")) shelf.objects ≡ some note)
        × (has_byte slash (codes "x") ≡ false)
        × IsHit level.search (codes "x")
        × (codes "docs/u/x" ≡ object_key docs (list_prefix level.prefix ++ codes "x")))
unfolding lookup
all_entries_lem_example =
    all_entries_lem (λ rows. rows) (λ x rows. ((λ h. h), (λ h. h))) (λ rows. refl) docs level
      (codes "x") (codes "docs/u/x") note shelf (refl, tt) plain few
