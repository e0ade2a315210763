-- ===== src/Push/Publish/Sent.antt =====
-- What a push that succeeds has sent (pkg/push/push.go): every planned upload, then the manifest.
use pinsync.Base.{
  Bool, true, false, not, ◌&&◌, ◌≡◌, refl, sym, ap, subst, ◌∙◌, List, [], ◌∷◌, map, Option, ℕ,
  arith, if◌then◌else◌, Result, ok, err, ◌==◌, nat_eq, length, Bool-cases, inl, inr,
}
use pinsync.Base.Action.{pure, lift, ◌>>◌, bind_both, bind_inversion, bind_ok}
use pinsync.Base.Sort.{sort}
use pinsync.Base.Text.{Text, text_lt, trim_suffix}
use pinsync.Manifest.Path.{Casing}
use pinsync.Manifest.Entry.{File, Manifest}
use pinsync.Manifest.Codec.{Json, sorted, encode}
use pinsync.Store.{S3}
use pinsync.Push.Key.{KeyError, resolve_manifest_key}
use pinsync.Push.Verify.{PushError, Digests, manifest_failed}
use pinsync.Push.Diff.{Diff, diff_remote}
use pinsync.Push.Publish.{
  Options, Stats, Plan, key_of, put_manifest, upload_files, publish, publish_diff, push_from, push,
  plan_diff, plan_from, dry_run,
}
use pinsync.Push.Publish.Uploads.{
  manifest_put, Uploads, no_uploads, Sent, accepted, upload_files-Uploads,
}

abbrev result {ℓ} : {A : Type ℓ} → A → Result PushError A
result a = ok a

is_same {ℓ} : {A : Type ℓ} (a b : A) → result a ≡ result b → a ≡ b
is_same a b h = cc

no_files : (fs : List File) → length fs ≡ 0 → fs ≡ []
no_files [] h = refl
no_files (f ∷ fs) h = absurd (omega arith)

module _ (json : Json) (casing : Casing) (digests : Digests) (s3 : S3)
    (root : Text → Option Text) where
  -- The uploads, then the manifest if it is asked for.
  abbrev pub Publishes : Text → Text → Text → List File → Bool → s3.State → s3.State → Type 0
  Publishes prefix key bytes todo put_m s t =
      (u : s3.State) × Uploads json casing digests s3 root prefix todo s u
      × Sent json casing digests s3 root put_m key bytes u t

  manifest-Sent :
      (put_m : Bool) (key bytes : Text) (s t : s3.State)
      → (if put_m then put_manifest json casing digests s3 key bytes else pure tt) s ≡ (ok tt, t)
      → Sent json casing digests s3 root put_m key bytes s t
  unfolding put_manifest
  manifest-Sent true key bytes s t h =
      accepted json casing digests s3 root manifest_failed
        (s3.put_object (manifest_put digests key bytes) s) t h
  manifest-Sent false key bytes s t h = ap (λ (y : Result PushError (Unit {0}) × s3.State). y.1) h

  paired :
      {A : Type 0} (x : Result PushError A × s3.State) (a : A) (t : s3.State)
      → x.0 ≡ ok a
      → x.1 ≡ t
      → x ≡ (ok a, t)
  paired (r, v) a t e k = cc

  publish-Publishes :
      (prefix key bytes : Text) (todo : List File) (stats st : Stats) (put_m : Bool)
      (s t : s3.State)
      → publish json casing digests s3 root prefix key bytes todo stats put_m s ≡ (ok st, t)
      → Publishes prefix key bytes todo put_m s t
  unfolding publish
  publish-Publishes prefix key bytes todo stats st put_m s t h =
      let up = upload_files json casing digests s3 root prefix todo in
      let put = if put_m then put_manifest json casing digests s3 key bytes else pure tt in
      let last = record stats { uploaded = length todo } in
      let (u, e, k) = bind_both up (λ _. put >> pure last) s t st h in
      let (v, e', k') = bind_both put (λ _. pure last) (up s).1 t st k in
      (
        (up s).1,
        upload_files-Uploads json casing digests s3 root prefix todo s (up s).1
            (paired (up s) tt (up s).1 e refl),
        manifest-Sent put_m key bytes (up s).1 t (
            paired (put (up s).1) tt t e' (ap (λ (y : Result PushError Stats × s3.State). y.1) k')),
      )

  publish_diff-Publishes :
      (prefix key bytes : Text) (total : ℕ) (d : Diff) (st : Stats) (s t : s3.State)
      → publish_diff json casing digests s3 root prefix key bytes total d s ≡ (ok st, t)
      → Publishes prefix key bytes d.upload (not d.same_manifest) s t
  unfolding publish_diff
  publish_diff-Publishes prefix key bytes total d st s t h =
      elim (Bool-cases (d.same_manifest && length d.upload == 0)) [
        | inl e ↦
            let same : s ≡ t = ap (λ (y : Result PushError Stats × s3.State). y.1) (rw e at h) in
            let up = no_files d.upload (ground arith) in
            let alike : d.same_manifest ≡ true = ground arith in
            subst (λ fs. Publishes prefix key bytes fs (not d.same_manifest) s t) (sym up)
              (subst (λ b. Publishes prefix key bytes [] (not b) s t) (sym alike)
                (s, no_uploads s, same))
        | inr e ↦
            publish-Publishes prefix key bytes d.upload
              (record {
                uploaded = 0;
                repaired = length d.repair;
                skipped = d.verified;
                total = total;
              })
              st (not d.same_manifest) s t (rw e at h)
      ]

  -- What a push sent from `s` on, where the dry run told `p` and ended there: the uploads are those
  -- that it listed, and the manifest follows unless the diff found the published one the same.
  pub record Sends (prefix key : Text) (full : Bool) (m : Manifest) (p : Plan)
      (start s t : s3.State) : Type 0 where
    pub todo : List File
    pub planned : sort text_lt (map (λ (f : File). f.path) todo) ≡ p.upload
    pub put_m : Bool
    pub published : Publishes prefix key (encode json m) todo put_m s t
    pub omitted :
        put_m ≡ false
        → (full ≡ false)
          × (d : Diff) × ((diff_remote json casing digests s3 prefix key
                (encode json m)
                m.files
                start).0
              ≡ ok d)
          × (d.same_manifest ≡ true)

  push_from-Sends :
      (prefix : Text) (opts : Options) (m : Manifest) (key : Text) (s t : s3.State) (p : Plan)
      (st : Stats)
      → opts.adopt ≡ false
      → (plan_from json casing digests s3 prefix opts m key s).0 ≡ ok p
      → push_from json casing digests s3 root prefix opts m key s ≡ (ok st, t)
      → Sends prefix key opts.full m p s (plan_from json casing digests s3 prefix opts m key s).1 t
  unfolding plan_from push_from
  push_from-Sends prefix opts m key s t p st plain hp hs = elim (Bool-cases opts.full) [
    | inl e ↦
        let whole : Plan = record {
          upload = sort text_lt (map (λ (f : File). f.path) m.files);
          repair = [];
          orphan = [];
          unchanged = 0;
          total = length m.files;
          manifest_only = false;
        } in
        let told : whole ≡ p = is_same whole p (rw (plain, e) at hp) in
        rw (plain, e)
          (record {
            todo = m.files;
            planned = ap (λ (q : Plan). q.upload) told;
            put_m = true;
            published =
                publish-Publishes prefix key (encode json m) m.files
                  (record { uploaded = 0; repaired = 0; skipped = 0; total = length m.files }) st
                  true s t (rw (plain, e) at hs);
            omitted = λ no. absurd cc;
          })
    | inr e ↦
        let total = length m.files in
        let diff = diff_remote json casing digests s3 prefix key (encode json m) m.files in
        let (d, a, k) =
          bind_inversion diff (λ d. pure (plan_diff json casing digests s3 total d)) s p
            (rw (plain, e) at hp) in
        let (d', a', k') =
          bind_both diff
            (λ d. publish_diff json casing digests s3 root prefix key (encode json m) total d) s t
            st (rw (plain, e) at hs) in
        let same : d ≡ d' = is_same d d' (sym a ∙ a') in
        let told = is_same (plan_diff json casing digests s3 total d) p k in
        let ends =
          ap (λ (y : Result PushError Plan × s3.State). y.1)
            (bind_ok diff (λ d. pure (plan_diff json casing digests s3 total d)) s d a) in
        rw (plain, e)
          (subst (λ u. Sends prefix key false m p s u t) (sym ends)
            (record {
              todo = d'.upload;
              planned =
                  ap (λ (x : Diff). sort text_lt (map (λ (f : File). f.path) x.upload)) (sym same)
                  ∙ ap (λ (q : Plan). q.upload) told;
              put_m = not d'.same_manifest;
              published =
                  publish_diff-Publishes prefix key (encode json m) total d' st (diff s).1 t k';
              omitted = λ no. (refl, d', a', ground arith);
            }))
  ]

  -- The key is the resolved one, and the files are those that the manifest has once it is sorted.
  abbrev pub Sending : Text → Options → Manifest → Plan → s3.State → s3.State → s3.State → Type 0
  Sending raw_prefix opts m p start s t =
      (key : Text) × (resolve_manifest_key (trim_suffix raw_prefix b'/') opts.manifest_key m.files
        ≡ ok key)
      × Sends (trim_suffix raw_prefix b'/') key opts.full (sorted m) p start s t

  resolved : (r : Result KeyError Text) (key : Text) → key_of r ≡ ok key → r ≡ ok key
  resolved (ok k) key h = cc
  resolved (err e) key h = absurd cc

  pub push-Sending :
      (raw_prefix : Text) (opts : Options) (m : Manifest) (s : s3.State) (p : Plan) (st : Stats)
      → opts.adopt ≡ false
      → (dry_run json casing digests s3 raw_prefix opts m s).0 ≡ ok p
      → (push json casing digests s3 root raw_prefix opts m s).0 ≡ ok st
      → Sending raw_prefix opts m p s
          (dry_run json casing digests s3 raw_prefix opts m s).1
          (push json casing digests s3 root raw_prefix opts m s).1
  unfolding dry_run push
  push-Sending raw_prefix opts m s p st plain hp hs =
      let prefix = trim_suffix raw_prefix b'/' in
      let found = key_of (resolve_manifest_key prefix opts.manifest_key m.files) in
      let plan = λ (k : Text). plan_from json casing digests s3 prefix opts (sorted m) k in
      let run = λ (k : Text). push_from json casing digests s3 root prefix opts (sorted m) k in
      let (k, a, hp') = bind_inversion (lift found) plan s p hp in
      let (k', a', hs') =
        bind_both (lift found) run s (push json casing digests s3 root raw_prefix opts m s).1 st
          (paired (push json casing digests s3 root raw_prefix opts m s) st _ hs refl) in
      let same : k ≡ k' = is_same k k' (sym a ∙ a') in
      let ends =
        ap (λ (y : Result PushError Plan × s3.State). y.1) (bind_ok (lift found) plan s k a) in
      (
        k,
        resolved (resolve_manifest_key prefix opts.manifest_key m.files) k a,
        subst
            (λ u.
              Sends prefix k opts.full (sorted m) p s u
                (push json casing digests s3 root raw_prefix opts m s).1)
            (sym ends)
            (push_from-Sends prefix opts (sorted m) k s _ p st plain hp' (
              subst
                (λ x. run x s ≡ (ok st, (push json casing digests s3 root raw_prefix opts m s).1))
                (sym same) hs')),
      )
