-- ===== src/Push/Diff/Laws.antt =====
-- How many files a diff counts as uploads and as verified (pkg/push/push.go).
use pinsync.Base.{
  ◌≡◌, sym, ap, ◌∙◌, List, [], ◌∷◌, ◌++◌, Option, none, some, suc, ◌+◌, subst, ◌≤◌, arith,
  if◌then◌else◌, Result, ok, ◌==◌, nat_eq, list_eq, length, length-append,
}
use pinsync.Base.Action.{pure, ◌>>=◌, bind_inversion}
use pinsync.Base.Sort.Laws.{length-sort}
use pinsync.Base.Slash.{join_path}
use pinsync.Base.Text.{Text, text_lt}
use pinsync.Manifest.Path.{Casing}
use pinsync.Manifest.Entry.{File, Manifest}
use pinsync.Manifest.Codec.{Json}
use pinsync.Store.{S3}
use pinsync.Push.Verify.{PushError, Reason, Digests, verify_object, verify_objects}
use pinsync.Base.Dict.{get, erase}
use pinsync.Push.Diff.{
  or_empty, remote_sums, files_in, Diff, Sorted, sort_out, sorted_out, apply_verdicts, sort_repairs,
  unverified, remote_manifest, diff_remote,
}

sort_out-counts :
    (v : Sorted) (fs : List File)
    → length (sort_out v fs).candidates + length (sort_out v fs).upload
      ≡ length v.candidates + length v.upload + length fs
unfolding sort_out
sort_out-counts v [] = omega arith
sort_out-counts v (f ∷ fs) =
    let same = or_empty (get v.remote f.path) == f.sha256 in
    let w : Sorted = record {
      candidates = if same then v.candidates ++ (f ∷ []) else v.candidates;
      upload = if same then v.upload else v.upload ++ (f ∷ []);
      remote = erase v.remote f.path;
    } in
    ground (
      arith,
      length-append v.candidates (f ∷ []),
      length-append v.upload (f ∷ []),
      sort_out-counts w fs,
    )

apply_verdicts-counts :
    (d : Diff) (fs : List File) (vs : List (Option Reason))
    → length vs ≡ length fs
    → let e = apply_verdicts d fs vs in
      (length e.upload + e.verified ≡ length d.upload + d.verified + length fs)
      × (length e.upload + length d.repair ≡ length d.upload + length e.repair)
unfolding apply_verdicts
apply_verdicts-counts d [] vs h = omega arith
apply_verdicts-counts d (f ∷ fs) [] h = absurd (omega arith)
apply_verdicts-counts d (f ∷ fs) (none ∷ vs) h =
    omega
      (arith, apply_verdicts-counts (record d { verified = d.verified + 1 }) fs vs (omega arith))
apply_verdicts-counts d (f ∷ fs) (some r ∷ vs) h = omega (
  arith,
  length-append d.upload (f ∷ []),
  length-append d.repair (f.path ∷ []),
  apply_verdicts-counts
      (record d { upload = d.upload ++ (f ∷ []); repair = d.repair ++ (f.path ∷ []) }) fs vs
      (omega arith),
)

abbrev pub result {ℓ} : {A : Type ℓ} → A → Result PushError A
result a = ok a

pub is_same {ℓ} : {A : Type ℓ} (a b : A) → result a ≡ result b → a ≡ b
is_same a b h = cc

module _ (json : Json) (casing : Casing) (digests : Digests) (s3 : S3) where
  pub length-verify_objects :
      (prefix : Text) (fs : List File) (s : s3.State) (vs : List (Option Reason))
      → (verify_objects digests s3 prefix fs s).0 ≡ ok vs
      → length vs ≡ length fs
  unfolding verify_objects
  length-verify_objects prefix [] s vs h = ap length (sym (is_same [] vs h))
  length-verify_objects prefix (f ∷ fs) s vs h =
      let first = verify_object digests s3 (join_path prefix f.path) f in
      let (v, e, k) =
        bind_inversion first (λ v. verify_objects digests s3 prefix fs >>= λ vs. pure (v ∷ vs)) s vs
          h in
      let (ws, e', k') =
        bind_inversion (verify_objects digests s3 prefix fs) (λ ws. pure (v ∷ ws)) (first s).1 vs
          k in
      let same : v ∷ ws ≡ vs = is_same (v ∷ ws) vs k' in
      ap length (sym same) ∙ ap suc (length-verify_objects prefix fs (first s).1 ws e')

  counted :
      (bytes : Text) (rm : Option Manifest) (files : List File) (vs : List (Option Reason))
      → length vs ≡ length (sorted_out json rm files).candidates
      → let d = sort_repairs (
          apply_verdicts
            (unverified json bytes rm files)
            (sorted_out json rm files).candidates
            vs) in
        (length d.upload + d.verified ≡ length files) × (length d.repair ≤ length d.upload)
  unfolding sorted_out
  counted bytes rm files vs h =
      let start : Sorted = record {
        candidates = [];
        upload = [];
        remote = remote_sums [] (files_in json rm);
      } in
      let v = sort_out start files in
      let u = apply_verdicts (unverified json bytes rm files) v.candidates vs in
      omega (
        arith,
        sort_out-counts start files,
        apply_verdicts-counts (unverified json bytes rm files) v.candidates vs h,
        length-sort text_lt u.repair,
      )

  -- In a diff that succeeds every local file is counted as verified or is among the uploads, and the
  -- repairs are no more than the uploads.
  pub diff_remote-counts :
      (prefix key bytes : Text) (files : List File) (s : s3.State) (d : Diff)
      → (diff_remote json casing digests s3 prefix key bytes files s).0 ≡ ok d
      → (length d.upload + d.verified ≡ length files) × (length d.repair ≤ length d.upload)
  unfolding diff_remote
  diff_remote-counts prefix key bytes files s d h =
      let (rm, e, k) = bind_inversion (remote_manifest json casing digests s3 key) _ s d h in
      let v = sorted_out json rm files in
      let (vs, e', k') =
        bind_inversion (verify_objects digests s3 prefix v.candidates)
          (λ vs.
            pure (sort_repairs (apply_verdicts (unverified json bytes rm files) v.candidates vs)))
          (remote_manifest json casing digests s3 key s).1 d k in
      let u = apply_verdicts (unverified json bytes rm files) v.candidates vs in
      let same : sort_repairs u ≡ d = is_same (sort_repairs u) d k' in
      subst
        (λ (d : Diff).
          (length d.upload + d.verified ≡ length files) × (length d.repair ≤ length d.upload))
        same
        (counted bytes rm files vs (
          length-verify_objects prefix v.candidates (remote_manifest json casing digests s3 key s).1
            vs e'))
