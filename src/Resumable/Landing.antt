-- ===== src/Resumable/Landing.antt =====
-- What a resumable upload leaves in the project: a file as long as its row says.
use forgebase.Common.{
  ◌-◌, ◌≤◌, Bool, true, false, not, ◌≡◌, refl, sym, ◌∙◌, Option, none, some, [], ◌++◌, ◌⊎◌, inl,
  inr, arith,
}
use forgebase.Common.Tests.{Bool-cases}
use forgebase.Common.Lists.{length, take, length-append, length-take}
use forgebase.Common.Text.{Bytes, eqb, eqb_iff, eqb_refl}
use forgebase.Common.Map.{
  Map, lookup, remove, retain, Unique, filter_value, lookup-put, lookup-remove, lookup-retain,
  put-Unique, remove-Unique, retain-Unique,
}
use forgebase.Storage.Bucket.{Project, object_key}
use forgebase.Storage.Objects.{Verifier}
use forgebase.Resumable.{Meta, Staging, TusRequest, describe, serve_tus, prune_stale}
use forgebase.Resumable.Outcome.{
  grow, Outcome, same, opened, grown, dropped, lost, landed, serve_tus-Outcome,
}

-- No stage is longer than its upload was announced.
record Inv (st : Staging) : Type 0 where
  metas_unique : Unique st.metas
  pub stages_unique : Unique st.stages
  pub within :
      (id : Bytes) (m : Meta) (staged : Bytes)
      → lookup id st.metas ≡ some m
      → lookup id st.stages ≡ some staged
      → length staged ≤ m.size

length-grow :
    (m : Meta) (staged body : Bytes) → length staged ≤ m.size → length (grow m staged body) ≤ m.size
length-grow m staged body h = omega (
  arith,
  h,
  length-append staged (take (m.size - length staged) body),
  length-take (m.size - length staged) body,
)

described-Unique :
    (b : Bool) (id : Bytes) (m : Meta) (metas : Map Meta)
    → Unique metas
    → Unique (describe b id m metas)
described-Unique true id m metas u = put-Unique id m metas u
described-Unique false id m metas u = u

described-elsewhere :
    (b : Bool) (id k : Bytes) (m : Meta) (metas : Map Meta)
    → eqb id k ≡ false
    → lookup k (describe b id m metas) ≡ lookup k metas
described-elsewhere true id k m metas q = lookup-put id k m metas ∙ rw q refl
described-elsewhere false id k m metas q = refl

removed-Inv :
    (id : Bytes) (st : Staging) (p : Project)
    → Inv st
    → Inv (record { project = p; metas = remove id st.metas; stages = remove id st.stages })
removed-Inv id st p v = record {
  metas_unique = remove-Unique id st.metas v.metas_unique;
  stages_unique = remove-Unique id st.stages v.stages_unique;
  within = λ k m d e f.
      ground (arith, lookup-remove id k st.metas, lookup-remove id k st.stages, v.within k m d);
}

Outcome-Inv : {st new : Staging} → Outcome st new → Inv st → Inv new
Outcome-Inv same v = v
Outcome-Inv {st} (dropped id) v = removed-Inv id st st.project v
Outcome-Inv {st} (lost id key content) v = removed-Inv id st _ v
Outcome-Inv {st} (landed id m staged body e f l) v = removed-Inv id st _ v
Outcome-Inv {st} (grown id m staged body e f) v = record {
  metas_unique = v.metas_unique;
  stages_unique = put-Unique id (grow m staged body) st.stages v.stages_unique;
  within = λ k n d g h. elim (Bool-cases (eqb id k)) [
    | inl q ↦
        let here = (eqb_iff id k).0 q in
        let same_meta : m ≡ n = ground (arith, rw (← here) at g) in
        let same_stage : grow m staged body ≡ d =
          ground (arith, lookup-put id k (grow m staged body) st.stages) in
        rw (← same_meta, ← same_stage) (length-grow m staged body (v.within id m staged e f))
    | inr q ↦ ground (arith, lookup-put id k (grow m staged body) st.stages, v.within k n d)
  ];
}
Outcome-Inv {st} (opened id m b) v = record {
  metas_unique = described-Unique b id m st.metas v.metas_unique;
  stages_unique = put-Unique id [] st.stages v.stages_unique;
  within = λ k n d g h. elim (Bool-cases (eqb id k)) [
    | inl q ↦
        let empty : [] ≡ d = ground (arith, lookup-put id k [] st.stages) in
        rw (← empty) (omega arith)
    | inr q ↦ ground (
      arith,
      lookup-put id k [] st.stages,
      v.within k n d,
      described-elsewhere b id k m st.metas q,
    )
  ];
}

prune_stale-Inv :
    (is_old_stage is_old_meta : Bytes → Bool) (st : Staging)
    → Inv st
    → Inv (prune_stale is_old_stage is_old_meta st)
unfolding prune_stale
prune_stale-Inv is_old_stage is_old_meta st v = record {
  metas_unique = retain-Unique _ st.metas v.metas_unique;
  stages_unique = retain-Unique _ st.stages v.stages_unique;
  within = λ k m d e f.
      v.within k m d (kept is_old_meta k m st.metas v.metas_unique e)
        (kept is_old_stage k d st.stages v.stages_unique f);
}
  where
    value_kept :
        {V : Type 0} (old : Bytes → Bool) (k : Bytes) (w : V) (o : Option V)
        → filter_value (λ id _. not (old id)) k o ≡ some w
        → o ≡ some w
    value_kept old k w none e = e
    value_kept old k w (some u) e = ground arith

    kept :
        {V : Type 0} (old : Bytes → Bool) (k : Bytes) (w : V) (m : Map V)
        → Unique m
        → lookup k (retain (λ id _. not (old id)) m) ≡ some w
        → lookup k m ≡ some w
    kept old k w m u e =
        value_kept old k w (lookup k m) (sym (lookup-retain (λ id _. not (old id)) k m u) ∙ e)

-- The staged uploads after requests and passes of the pruner, while whatever else may change the
-- project.
pub data Reach (base64 : Bytes → Option Bytes) (verify : Verifier) : Staging → Type 0 where
  start : (p : Project) → Reach base64 verify (record { project = p; metas = []; stages = [] })
  request :
      (st : Staging) (r : TusRequest)
      → Reach base64 verify st
      → Reach base64 verify (serve_tus base64 verify r st).0
  pruned :
      (st : Staging) (is_old_stage is_old_meta : Bytes → Bool)
      → Reach base64 verify st
      → Reach base64 verify (prune_stale is_old_stage is_old_meta st)
  changed :
      (st : Staging) (p : Project)
      → Reach base64 verify st
      → Reach base64 verify (record st { project = p })

module _ (base64 : Bytes → Option Bytes) (verify : Verifier) where
  Reach-Inv : {st : Staging} → Reach base64 verify st → Inv st
  unfolding lookup
  Reach-Inv (start p) = record {
    metas_unique = tt;
    stages_unique = tt;
    within = λ k m d e f. absurd (cc);
  }
  Reach-Inv (request st r a) = Outcome-Inv (serve_tus-Outcome base64 verify r st) (Reach-Inv a)
  Reach-Inv (pruned st s m a) = prune_stale-Inv s m st (Reach-Inv a)
  Reach-Inv (changed st p a) =
      let v = Reach-Inv a in
      record { metas_unique = v.metas_unique; stages_unique = v.stages_unique; within = v.within }

  -- A request to the staged uploads, in any state that they can reach, leaves the rows of the
  -- project's objects as they were, or lands one upload: then its announced size is the size of the
  -- row and the length of the file, and the file continues what was staged for it.
  pub serve_tus-whole :
      (st : Staging) (r : TusRequest)
      → Reach base64 verify st
      → ((serve_tus base64 verify r st).0.project.objects ≡ st.project.objects)
        ⊎ ((id : Bytes) × (m : Meta) × (staged : Bytes) × (rest : Bytes) × (lookup id st.metas
              ≡ some m)
            × (lookup id st.stages ≡ some staged)
            × (length (staged ++ rest) ≡ m.size)
            × (lookup (object_key m.bucket m.path) (serve_tus base64 verify r st).0.project.files
                ≡ some (staged ++ rest))
            × (lookup (object_key m.bucket m.path) (serve_tus base64 verify r st).0.project.objects
                ≡ some (record { size = length (staged ++ rest); mime = m.mime })))
  serve_tus-whole st r a = whole (serve_tus-Outcome base64 verify r st)
    where
      whole :
          {new : Staging}
          → Outcome st new
          → (new.project.objects ≡ st.project.objects)
            ⊎ ((id : Bytes) × (m : Meta) × (staged : Bytes) × (rest : Bytes) × (lookup id st.metas
                  ≡ some m)
                × (lookup id st.stages ≡ some staged)
                × (length (staged ++ rest) ≡ m.size)
                × (lookup (object_key m.bucket m.path) new.project.files ≡ some (staged ++ rest))
                × (lookup (object_key m.bucket m.path) new.project.objects
                    ≡ some (record { size = length (staged ++ rest); mime = m.mime })))
      whole same = inl refl
      whole (opened id m b) = inl refl
      whole (grown id m staged body e f) = inl refl
      whole (dropped id) = inl refl
      whole (lost id key content) = inl refl
      whole (landed id m staged body e f l) =
          let key = object_key m.bucket m.path in
          let content = grow m staged body in
          let long : length content ≡ m.size =
            omega (arith, l, length-grow m staged body ((Reach-Inv a).within id m staged e f)) in
          inr (
            id,
            m,
            staged,
            take (m.size - length staged) body,
            e,
            f,
            long,
            lookup-put key key content st.project.files ∙ rw (eqb_refl key) refl,
            lookup-put key key (record { size = m.size; mime = m.mime }) st.project.objects
                ∙ rw (eqb_refl key, long) refl,
          )
