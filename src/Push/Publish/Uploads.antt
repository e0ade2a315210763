-- ===== src/Push/Publish/Uploads.antt =====
-- The uploads of a push that succeeds (`uploadFiles` and `putFile` of pkg/push/push.go).
use pinsync.Base.{
  Bool, true, false, ◌≡◌, refl, ap, subst, List, [], ◌∷◌, Option, none, some, Result, ok, err,
  nat_eq, length,
}
use pinsync.Base.Action.{bind_both}
use pinsync.Base.Int.{pos}
use pinsync.Base.Slash.{join_path}
use pinsync.Base.Text.{Text}
use pinsync.Manifest.Path.{Casing}
use pinsync.Manifest.Entry.{File}
use pinsync.Manifest.Codec.{Json}
use pinsync.Store.{S3, ApiError, PutInput}
use pinsync.Push.Verify.{PushError, Digests, upload_failed}
use pinsync.Push.Publish.{put_result, put_body, put_summed, put_file, upload_files}

-- The requests for a content file and for the manifest.
abbrev pub file_put : Text → File → Text → Text → PutInput
file_put prefix f sum body = record {
  key = join_path prefix f.path;
  body = body;
  content_length = f.size;
  checksum = sum;
}

abbrev pub manifest_put : Digests → Text → Text → PutInput
manifest_put digests key bytes = record {
  key = key;
  body = bytes;
  content_length = pos (length bytes);
  checksum = digests.b64_sha256 bytes;
}

module _ (json : Json) (casing : Casing) (digests : Digests) (s3 : S3)
    (root : Text → Option Text) where
  -- One upload after the other leads from a state to another, each with the content that is under
  -- the root and the entry's checksum, and each accepted by the store.
  pub data Uploads (prefix : Text) : List File → s3.State → s3.State → Type 0 where
    no_uploads : (s : s3.State) → Uploads prefix [] s s
    upload_next :
        (f : File) (fs : List File) (sum body : Text) (s t u : s3.State)
        → digests.hex_to_b64 f.sha256 ≡ some sum
        → root f.path ≡ some body
        → s3.put_object (file_put prefix f sum body) s ≡ (ok tt, t)
        → Uploads prefix fs t u
        → Uploads prefix (f ∷ fs) s u

  abbrev pub Sent : Bool → Text → Text → s3.State → s3.State → Type 0
  Sent true key bytes s t = s3.put_object (manifest_put digests key bytes) s ≡ (ok tt, t)
  Sent false key bytes s t = s ≡ t

  pub accepted :
      (f : ApiError → PushError) (x : Result ApiError (Unit {0}) × s3.State) (t : s3.State)
      → ◌≡◌ {A = Result PushError (Unit {0}) × s3.State}
          (put_result json casing digests s3 f x.0, x.1)
          (ok tt, t)
      → x ≡ (ok tt, t)
  accepted f (ok _, s) t h = ap (λ (y : Result PushError (Unit {0}) × s3.State). (ok tt, y.1)) h
  accepted f (err e, s) t h = absurd cc

  put_file-next :
      (prefix : Text) (f : File) (fs : List File) (s t u : s3.State)
      → put_file json casing digests s3 root prefix f s ≡ (ok tt, t)
      → Uploads prefix fs t u
      → Uploads prefix (f ∷ fs) s u
  unfolding put_file
  put_file-next prefix f fs s t u h rest = with_sum (digests.hex_to_b64 f.sha256) refl h
    where
      with_body :
          (sum : Text) (body : Option Text)
          → digests.hex_to_b64 f.sha256 ≡ some sum
          → root f.path ≡ body
          → put_body json casing digests s3 root prefix f sum body s ≡ (ok tt, t)
          → Uploads prefix (f ∷ fs) s u
      with_body sum none a b k = absurd cc
      with_body sum (some body) a b k =
          upload_next f fs sum body s t u a b
            (accepted (upload_failed f.path) (s3.put_object (file_put prefix f sum body) s) t k)
            rest

      with_sum :
          (sum : Option Text)
          → digests.hex_to_b64 f.sha256 ≡ sum
          → put_summed json casing digests s3 root prefix f sum s ≡ (ok tt, t)
          → Uploads prefix (f ∷ fs) s u
      with_sum none a k = absurd cc
      with_sum (some sum) a k = with_body sum (root f.path) a refl k

  pub upload_files-Uploads :
      (prefix : Text) (fs : List File) (s t : s3.State)
      → upload_files json casing digests s3 root prefix fs s ≡ (ok tt, t)
      → Uploads prefix fs s t
  unfolding upload_files
  upload_files-Uploads prefix [] s t h =
      let same : s ≡ t = ap (λ (y : Result PushError (Unit {0}) × s3.State). y.1) h in
      subst (Uploads prefix [] s) same (no_uploads s)
  upload_files-Uploads prefix (f ∷ fs) s t h =
      let put = put_file json casing digests s3 root prefix f in
      let (u, e, k) =
        bind_both put (λ _. upload_files json casing digests s3 root prefix fs) s t tt h in
      put_file-next prefix f fs s (put s).1 t (paired (put s) u e)
        (upload_files-Uploads prefix fs (put s).1 t k)
    where
      paired :
          (x : Result PushError (Unit {0}) × s3.State) (u : Unit {0})
          → x.0 ≡ ok u
          → x ≡ (ok tt, x.1)
      paired (r, v) u e = cc
