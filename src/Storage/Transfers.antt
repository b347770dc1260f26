-- ===== src/Storage/Transfers.antt =====
-- Copies and moves of an object within its bucket.
use mathlib.Core.Path.{subst, sym}
use forgebase.Common.{
  Bool, true, false, ◌||◌, ◌≡◌, ◌≢◌, refl, ap, ◌∙◌, ◌⊎◌, Option, none, some, [], ◌∷◌, inl, inr,
  arith,
}
use forgebase.Common.Tests.{if◌then◌else◌, Bool-cases, Option-cases}
use forgebase.Common.Text.{Bytes, eqb, eqb_iff, eqb_refl}
use forgebase.Common.Map.{lookup, put, lookup-put, lookup-remove}
use forgebase.Storage.Path.{safe_rel}
use forgebase.Storage.Bucket.{Object, Project, object_key, bucket_exists}
use forgebase.Storage.Objects.{put_file}
use forgebase.Storage.Panel.{
  Transfer, put_row, ensure_local, copy_file, transfer_to, transfer_object,
}
use forgebase.Storage.Agreement.{
  IsConsistent, put_both-IsConsistent, drop_both-IsConsistent, put_file-IsConsistent,
  drop_file-IsConsistent,
}

-- A successful transfer: the destination has the source's row and content; a move takes the source
-- away, a copy leaves it; every other object is as before.
pub record Transferred (move : Bool) (src dst : Bytes) (st new : Project) : Type 0 where
  pub row : lookup dst new.objects ≡ lookup src st.objects
  pub content : lookup dst new.files ≡ lookup src st.files
  pub source_row : lookup src new.objects ≡ (if move then none else lookup src st.objects)
  pub source_file : lookup src new.files ≡ (if move then none else lookup src st.files)
  pub rest :
      (k : Bytes)
      → src ≢ k
      → dst ≢ k
      → (lookup k new.objects ≡ lookup k st.objects) × (lookup k new.files ≡ lookup k st.files)

module _ (move : Bool) (t : Transfer) (src dst : Bytes) (o : Object) (content : Bytes)
    (st : Project) (apart : src ≢ dst) (row : lookup src st.objects ≡ some o)
    (file : lookup src st.files ≡ some content) (free : lookup dst st.objects ≡ none) where
  transfer_to-Transferred :
      (transfer_to move t src dst o content st).1 ≡ true
      → Transferred move src dst st (transfer_to move t src dst o content st).0
  unfolding transfer_to copy_file
  transfer_to-Transferred h = record {
    row = ground (
      arith,
      lookup-put dst dst o st.objects,
      lookup-remove src dst (put dst o st.objects),
      eqb_refl dst,
      eqb_iff src dst,
    );
    content = ground (
      arith,
      lookup-put dst dst content st.files,
      lookup-remove src dst (put dst content st.files),
      eqb_refl dst,
      eqb_iff src dst,
    );
    source_row = ground (
      arith,
      lookup-put dst src o st.objects,
      lookup-remove src src (put dst o st.objects),
      eqb_refl src,
      eqb_iff dst src,
    );
    source_file = ground (
      arith,
      lookup-put dst src content st.files,
      lookup-remove src src (put dst content st.files),
      eqb_refl src,
      eqb_iff dst src,
    );
    rest = λ k ns nd. (
      ground (
        arith,
        lookup-put dst k o st.objects,
        lookup-remove src k (put dst o st.objects),
        eqb_iff src k,
        eqb_iff dst k,
      ),
      ground (
        arith,
        lookup-put dst k content st.files,
        lookup-remove src k (put dst content st.files),
        eqb_iff src k,
        eqb_iff dst k,
      ),
    );
  }

  -- A failed transfer changes no row, and no file but the destination's.
  transfer_to-failed :
      (transfer_to move t src dst o content st).1 ≡ false
      → ((transfer_to move t src dst o content st).0.objects ≡ st.objects)
        × ((k : Bytes)
            → dst ≢ k
            → lookup k (transfer_to move t src dst o content st).0.files ≡ lookup k st.files)
  unfolding transfer_to copy_file
  transfer_to-failed h = (
    ground arith,
    λ k nd. ground (
      arith,
      lookup-put dst k content st.files,
      lookup-remove dst k st.files,
      lookup-remove dst k (put dst content st.files),
      eqb_iff dst k,
    ),
  )

  transfer_to-IsConsistent :
      (c : IsConsistent st) → IsConsistent (transfer_to move t src dst o content st).0
  unfolding transfer_to copy_file
  transfer_to-IsConsistent c =
      let (body, f, n) = c.backed src o row in
      let copy = put_file-IsConsistent dst st c content free in
      let saved = put_both-IsConsistent dst st c o content (ground (arith, f, n, file)) in
      elim (Bool-cases t.opens) [
        | inr e ↦ rw e c
        | inl e ↦ elim (Bool-cases t.creates) [
          | inr g ↦ rw e (rw g c)
          | inl g ↦ elim (Bool-cases t.copies) [
            | inr h ↦ rw e (rw g (rw h (drop_file-IsConsistent dst st c free)))
            | inl h ↦ elim (Bool-cases t.closes) [
              | inr l ↦ rw e (rw g (rw h (rw l copy)))
              | inl l ↦ elim (Bool-cases t.pushes) [
                | inr p ↦ rw e (
                    rw g (
                      rw h (
                        rw l
                          (rw p (drop_file-IsConsistent dst (put_file dst content st) copy free)))))
                | inl p ↦ elim (Bool-cases move) [
                  | inl m ↦ rw e (
                      rw g (
                        rw h (
                          rw l (
                            rw p (
                              rw m (
                                drop_both-IsConsistent src (put_row dst o (put_file dst content st))
                                  saved))))))
                  | inr m ↦ rw e (rw g (rw h (rw l (rw p (rw m saved)))))
                ]
              ]
            ]
          ]
        ]
      ]

object_key-injective : (bucket a b : Bytes) → object_key bucket a ≡ object_key bucket b → a ≡ b
object_key-injective [] a b e = cc
object_key-injective (c ∷ bucket) a b e = object_key-injective bucket a b cc

-- The source's file is on disk, so nothing is fetched.
ensure_local-backed :
    (key : Bytes) (remote : Option Bytes) (st : Project) (content : Bytes)
    → lookup key st.files ≡ some content
    → ensure_local key remote st ≡ some (content, st)
unfolding ensure_local
ensure_local-backed key remote st content e = rw e refl

module _ (move : Bool) (t : Transfer) (bucket from to : Bytes) (st : Project)
    (c : IsConsistent st) where
  -- What a transfer comes to: a refusal, or the copy between two keys.
  transfer_object-cases :
      let src = object_key bucket (safe_rel from) in
      let dst = object_key bucket (safe_rel to) in
      (transfer_object move t bucket from to st ≡ (st, false))
      ⊎ ((o : Object) × (content : Bytes) × (src ≢ dst)
          × (lookup src st.objects ≡ some o)
          × (lookup src st.files ≡ some content)
          × (lookup dst st.objects ≡ none)
          × (transfer_object move t bucket from to st ≡ transfer_to move t src dst o content st))
  unfolding transfer_object
  transfer_object-cases =
      let source = safe_rel from in
      let target = safe_rel to in
      let src = object_key bucket source in
      let dst = object_key bucket target in
      elim (Bool-cases (bucket_exists st bucket)) [
        | inr e ↦ inl (rw e refl)
        | inl e ↦ elim (Bool-cases (eqb source [] || eqb target [] || eqb source target)) [
          | inl g ↦ inl (rw e (rw g refl))
          | inr g ↦ elim (Option-cases (lookup src st.objects)) [
            | inl r ↦ inl (rw e (rw g (rw r refl)))
            | inr (o, r) ↦ elim (Option-cases (lookup dst st.objects)) [
              | inr (p, d) ↦ inl (rw e (rw g (rw r (rw d refl))))
              | inl d ↦
                  let (content, f, n) = c.backed src o r in
                  inr (
                    o,
                    content,
                    distinct g,
                    r,
                    f,
                    d,
                    rw e (
                        rw g
                          (rw r (rw d (rw (ensure_local-backed src t.remote st content f) refl)))),
                  )
            ]
          ]
        ]
      ]
    where
      distinct :
          (eqb (safe_rel from) [] || eqb (safe_rel to) [] || eqb (safe_rel from) (safe_rel to))
            ≡ false
          → object_key bucket (safe_rel from) ≢ object_key bucket (safe_rel to)
      distinct g e =
          let same = object_key-injective bucket (safe_rel from) (safe_rel to) e in
          ground (arith, eqb_iff (safe_rel from) (safe_rel to))

  pub transfer_object-IsConsistent : IsConsistent (transfer_object move t bucket from to st).0
  transfer_object-IsConsistent = elim transfer_object-cases [
    | inl e ↦ subst (λ r. IsConsistent r.0) (sym e) c
    | inr (o, content, apart, r, f, d, e) ↦
        subst (λ r. IsConsistent r.0) (sym e)
          (transfer_to-IsConsistent move t (object_key bucket (safe_rel from))
            (object_key bucket (safe_rel to)) o content st apart r f d c)
  ]

  -- A copy or move that succeeds found no object at the destination, gives it the source's row and
  -- content, takes the source away where it is a move and leaves it otherwise, and leaves every
  -- other object.
  pub transfer_object-Transferred :
      (transfer_object move t bucket from to st).1 ≡ true
      → (lookup (object_key bucket (safe_rel to)) st.objects ≡ none)
        × Transferred move
            (object_key bucket (safe_rel from))
            (object_key bucket (safe_rel to))
            st
            (transfer_object move t bucket from to st).0
  transfer_object-Transferred h = elim transfer_object-cases [
    | inl e ↦ absurd (ground (arith, e))
    | inr (o, content, apart, r, f, d, e) ↦ (
      d,
      subst
          (λ r.
            Transferred move (object_key bucket (safe_rel from)) (object_key bucket (safe_rel to))
              st r.0)
          (sym e)
          (transfer_to-Transferred move t (object_key bucket (safe_rel from))
            (object_key bucket (safe_rel to)) o content st apart r f d (ground (arith, e, h))),
    )
  ]

  -- One that fails changes no row, and no file but the destination's.
  pub transfer_object-failed :
      (transfer_object move t bucket from to st).1 ≡ false
      → ((transfer_object move t bucket from to st).0.objects ≡ st.objects)
        × ((k : Bytes)
            → object_key bucket (safe_rel to) ≢ k
            → lookup k (transfer_object move t bucket from to st).0.files ≡ lookup k st.files)
  transfer_object-failed h = elim transfer_object-cases [
    | inl e ↦ (ap (λ r. r.0.objects) e, λ k nd. ap (λ r. lookup k r.0.files) e)
    | inr (o, content, apart, r, f, d, e) ↦
        let (rows, files) =
          transfer_to-failed move t (object_key bucket (safe_rel from))
            (object_key bucket (safe_rel to)) o content st apart r f d
            (ap (λ r. r.1) (sym e) ∙ h) in
        (ap (λ r. r.0.objects) e ∙ rows, λ k nd. ap (λ r. lookup k r.0.files) e ∙ files k nd)
  ]
