-- ===== src/Prune/Safety.antt =====
-- What a run of `Prune` leaves alone, what it refuses, and that the preview tells what it does.
use pinsync.Base.{
  true, false, ◌≡◌, refl, sym, ap, ◌∙◌, List, [], ◌∷◌, ◌++◌, Option, none, some, arith,
  if◌then◌else◌, Result, ok, err, nat_eq, list_eq, contains, contains-append, length, Bool-cases,
  Result-cases, inl, inr,
}
use pinsync.Base.Int.{ℤ, pos, ◌+ℤ◌, ◌-ℤ◌}
use pinsync.Base.Action.{Action, pure, bind_ok, bind_err, bind_inversion}
use pinsync.Base.Chunks.{chunks, concat, concat-chunks}
use pinsync.Base.Text.{Text, trim_suffix}
use pinsync.Manifest.Path.{Casing}
use pinsync.Manifest.Entry.{Manifest}
use pinsync.Manifest.Codec.{Json, DecodeError, decode}
use pinsync.Store.{S3, ApiError, Object, GetInput, GetOutput, whole_object}
use pinsync.Prune.Classify.{
  Options, PruneError, no_manifest, fetch_failed, bad_manifest, Tally, manifest_key, keep_set,
  fetched, fetch_manifest, classify_listing, classify,
}
use pinsync.Prune.Delete.{
  Outcome, Plan, batch_size, delete_chunks, delete_batched, apply_tally, plan_of, prune, dry_run,
}
use pinsync.Prune.Laws.{IsTally, tally-inversion, referenced-not-garbage}

-- Nobody else writes to the bucket, listing and reading change nothing, and a request to delete
-- leaves alone the objects that it does not name; `object` is what the store holds under a key.
pub record IsQuiet (s3 : S3) (object : s3.State → Text → Option Text) : Type 0 where
  pub get_keeps :
      (i : GetInput) (s : s3.State) (k : Text) → object (s3.get_object i s).1 k ≡ object s k
  pub list_keeps :
      (p : Text) (s : s3.State) (k : Text) → object (s3.list_pages p s).1 k ≡ object s k
  pub delete_keeps :
      (ks : List Text) (s : s3.State) (k : Text)
      → contains ks k ≡ false
      → object (s3.delete_objects ks s).1 k ≡ object s k

split_contains :
    (xs ys : List Text) (k : Text)
    → contains (xs ++ ys) k ≡ false
    → (contains xs k ≡ false) × (contains ys k ≡ false)
split_contains xs ys k h = ground (arith, contains-append xs ys k)

spared :
    (keep : List Text) (cutoff : ℤ) (os : List Object) (t : Tally) (k : Text)
    → IsTally keep cutoff os t
    → contains keep k ≡ true
    → contains t.delete k ≡ false
spared keep cutoff os t k good kept = elim (Bool-cases (contains t.delete k)) [
  | inl e ↦ absurd (referenced-not-garbage keep cutoff os k kept ((good.garbage k).0 e))
  | inr e ↦ e
]

module _ (s3 : S3) where
  module _ (object : s3.State → Text → Option Text) (quiet : IsQuiet s3 object) (k : Text) where
    open quiet use {get_keeps, list_keeps, delete_keeps}

    delete_chunks-keeps :
        (n : ℤ) (errs : List Text) (batches : List (List Text)) (s : s3.State)
        → contains (concat batches) k ≡ false
        → object (delete_chunks s3 n errs batches s).1 k ≡ object s k
    unfolding delete_chunks concat
    delete_chunks-keeps n errs [] s h = refl
    delete_chunks-keeps n errs (b ∷ bs) s h =
        let out = split_contains b (concat bs) k h in
        elim (Result-cases (s3.delete_objects b s).0) [
          | inl (failed, e) ↦
              rw (e, delete_chunks)
                (delete_chunks-keeps (n +ℤ (pos (length b) -ℤ pos (length failed))) (errs ++ failed)
                    bs (s3.delete_objects b s).1 out.1
                  ∙ delete_keeps b s k out.0)
          | inr (x, e) ↦ rw (e, delete_chunks) (delete_keeps b s k out.0)
        ]

    delete_batched-keeps :
        (keys : List Text) (s : s3.State)
        → contains keys k ≡ false
        → object (delete_batched s3 keys s).1 k ≡ object s k
    unfolding delete_batched
    delete_batched-keeps keys s h =
        delete_chunks-keeps (pos 0) [] (chunks batch_size keys) s
          (rw (concat-chunks batch_size keys (omega arith)) h)

  module _ (casing : Casing) (json : Json) where
    abbrev key_for : Text → Options → Text
    key_for prefix opts = manifest_key (trim_suffix prefix b'/') opts.manifest_key

    abbrev fetch : Text → Options → Action s3.State PruneError Manifest
    fetch prefix opts = fetch_manifest s3 casing json (key_for prefix opts)

    refused : PruneError → Outcome s3
    refused e = record { stats = none; failure = some e }

    prune_err :
        (prefix : Text) (opts : Options) (now : ℤ) (s : s3.State) (e : PruneError)
        → (classify s3 casing json prefix opts now s).0 ≡ err e
        → prune s3 casing json prefix opts now s
          ≡ (refused e, (classify s3 casing json prefix opts now s).1)
    unfolding prune refused
    prune_err prefix opts now s e h = rw (h, prune)

    prune_ok :
        (prefix : Text) (opts : Options) (now : ℤ) (s : s3.State) (t : Tally)
        → (classify s3 casing json prefix opts now s).0 ≡ ok t
        → prune s3 casing json prefix opts now s
          ≡ apply_tally s3 casing json t (classify s3 casing json prefix opts now s).1
    unfolding prune
    prune_ok prefix opts now s t h = rw (h, prune)

    fetch_err :
        (prefix : Text) (opts : Options) (now : ℤ) (s : s3.State) (e : PruneError)
        → (fetch prefix opts s).0 ≡ err e
        → prune s3 casing json prefix opts now s ≡ (
          record { stats = none; failure = some e },
          (s3.get_object (whole_object (key_for prefix opts)) s).1,
        )
    unfolding refused classify fetch_manifest
    fetch_err prefix opts now s e h =
        let stop =
          bind_err (fetch prefix opts)
            (λ m.
              classify_listing s3 casing json (trim_suffix prefix b'/') (key_for prefix opts) opts
                now m)
            s e h in
        prune_err prefix opts now s e (ap (λ r. r.0) stop) ∙ ap (λ r. (refused e, r.1)) stop

    -- Replies to the request for the manifest from which none can be read.
    abbrev pub IsUnreadable : Result ApiError GetOutput → Type 0
    IsUnreadable (err e) = Unit {0}
    IsUnreadable (ok out) = (d : DecodeError) × (decode json casing out.body.bytes ≡ err d)

    -- What a run says of such a reply: there is no manifest, it was not sent, or it is malformed.
    abbrev pub refusal : Text → (r : Result ApiError GetOutput) → IsUnreadable r → PruneError
    refusal key (err e) u = if e.no_such_key then no_manifest key else fetch_failed key e
    refusal key (ok out) (d, _) = bad_manifest key d

    fetched-refusal :
        (key : Text) (r : Result ApiError GetOutput) (u : IsUnreadable r)
        → fetched s3 casing json key r ≡ err (refusal key r u)
    fetched-refusal key (err e) u = ground arith
    fetched-refusal key (ok out) (d, k) = rw (k, fetched) refl

    -- If the store has no manifest, does not send it, or sends one that is malformed, a run returns
    -- the error that says which alone, and the request for the manifest is all it sends: nothing is
    -- listed and nothing is deleted.
    pub prune_refuses :
        (prefix : Text) (opts : Options) (now : ℤ) (s : s3.State) (r : Result ApiError GetOutput)
        (u : IsUnreadable r)
        → (s3.get_object (whole_object (key_for prefix opts)) s).0 ≡ r
        → prune s3 casing json prefix opts now s ≡ (
          record { stats = none; failure = some (refusal (key_for prefix opts) r u) },
          (s3.get_object (whole_object (key_for prefix opts)) s).1,
        )
    unfolding fetch_manifest
    prune_refuses prefix opts now s r u h =
        fetch_err prefix opts now s (refusal (key_for prefix opts) r u) (
          ap (fetched s3 casing json (key_for prefix opts)) h
          ∙ fetched-refusal (key_for prefix opts) r u)

    abbrev tally_of : Plan → Tally
    tally_of p = record {
      delete = p.delete;
      protected = p.protected;
      referenced = p.referenced;
      listed = p.listed;
    }

    -- Where a preview succeeds, a run from the same state deletes in batches the keys that it lists,
    -- all of them and no other, gives the count and the error of that deletion, and counts the
    -- other objects as the preview does.
    pub prune-dry_run :
        (prefix : Text) (opts : Options) (now : ℤ) (s : s3.State) (p : Plan)
        → (dry_run s3 casing json prefix opts now s).0 ≡ ok p
        → prune s3 casing json prefix opts now s ≡ (
            let (d, s') = delete_batched s3 p.delete (dry_run s3 casing json prefix opts now s).1 in
            (
              record {
                stats = some (record {
                  deleted = d.deleted;
                  protected = p.protected;
                  referenced = p.referenced;
                  listed = p.listed;
                });
                failure = d.failure;
              },
              s',
            ))
    unfolding dry_run apply_tally
    prune-dry_run prefix opts now s p h =
        let (t, e, k) =
          bind_inversion (classify s3 casing json prefix opts now)
            (λ t. pure (plan_of s3 casing json t)) s p h in
        let same : plan_of s3 casing json t ≡ p = cc k in
        let state =
          ap (λ r. r.1)
            (bind_ok (classify s3 casing json prefix opts now)
              (λ t. pure (plan_of s3 casing json t)) s t e) in
        prune_ok prefix opts now s t e
        ∙ ap
            (λ (x : Plan).
              apply_tally s3 casing json (tally_of x) (classify s3 casing json prefix opts now s).1)
            same
        ∙ ap (λ s'. apply_tally s3 casing json (tally_of p) s') (sym state)

    module _ (object : s3.State → Text → Option Text) (quiet : IsQuiet s3 object) (k : Text) where
      open quiet use {get_keeps, list_keeps}

      classify-keeps :
          (prefix : Text) (opts : Options) (now : ℤ) (s : s3.State) (m : Manifest)
          → (fetch prefix opts s).0 ≡ ok m
          → object (classify s3 casing json prefix opts now s).1 k ≡ object s k
      unfolding classify classify_listing fetch_manifest
      classify-keeps prefix opts now s m h =
          ap (λ r. object r.1 k)
            (bind_ok (fetch prefix opts)
              (classify_listing s3 casing json (trim_suffix prefix b'/') (key_for prefix opts) opts
                now)
              s m h)
          ∙ list_keeps _ _ k
          ∙ get_keeps _ s k

      -- The keys to delete are none that the manifest names.
      tally-spares :
          (prefix : Text) (opts : Options) (now : ℤ) (s : s3.State) (m : Manifest) (t : Tally)
          → (fetch prefix opts s).0 ≡ ok m
          → contains (keep_set (trim_suffix prefix b'/') (key_for prefix opts) m.files) k ≡ true
          → (classify s3 casing json prefix opts now s).0 ≡ ok t
          → contains t.delete k ≡ false
      unfolding classify classify_listing
      tally-spares prefix opts now s m t h kept e =
          let keep = keep_set (trim_suffix prefix b'/') (key_for prefix opts) m.files in
          let cutoff = now -ℤ opts.min_age in
          let step =
            bind_ok (fetch prefix opts)
              (classify_listing s3 casing json (trim_suffix prefix b'/') (key_for prefix opts) opts
                now)
              s m h in
          let (os, listed, good) = tally-inversion keep cutoff _ t (sym (ap (λ r. r.0) step) ∙ e) in
          spared keep cutoff os t k good kept

      -- In a quiet store whose manifest can be read, every object that the manifest names, and the
      -- manifest itself, is after the run as it was, whether the run ends well or not.
      pub prune-keeps :
          (prefix : Text) (opts : Options) (now : ℤ) (s : s3.State) (m : Manifest)
          → (fetch prefix opts s).0 ≡ ok m
          → contains (keep_set (trim_suffix prefix b'/') (key_for prefix opts) m.files) k ≡ true
          → object (prune s3 casing json prefix opts now s).1 k ≡ object s k
      unfolding apply_tally
      prune-keeps prefix opts now s m h kept =
          elim (Result-cases (classify s3 casing json prefix opts now s).0) [
            | inl (t, e) ↦
                ap (λ r. object r.1 k) (prune_ok prefix opts now s t e)
                ∙ delete_batched-keeps object quiet k t.delete _
                    (tally-spares prefix opts now s m t h kept e)
                ∙ classify-keeps prefix opts now s m h
            | inr (x, e) ↦
                ap (λ r. object r.1 k) (prune_err prefix opts now s x e)
                ∙ classify-keeps prefix opts now s m h
          ]
