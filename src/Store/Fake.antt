-- ===== src/Store/Fake.antt =====
-- The in-memory store of pkg/s3test/fake.go, as a value of the interface `S3`. Locks, delays and the
-- counters of calls in flight only serve concurrent tests and are left out.
pub mod Laws
use pinsync.Base.{
  Bool, true, false, not, ◌&&◌, ◌||◌, List, [], ◌∷◌, ◌++◌, map, Option, none, some, ℕ, zero, suc,
  ◌+◌, ◌-◌, if◌then◌else◌, leb, Result, ok, err, ◌==◌, nat_eq, list_eq, length, take, drop,
}
use pinsync.Base.Int.{ℤ, pos, negsuc, int_eq}
use pinsync.Base.Decimal.{decimal}
use pinsync.Base.Dict.{Dict, get, put, erase, keys}
use pinsync.Base.Sort.{sort}
use pinsync.Base.Text.{Text, lit, text_lt, has_prefix}
use pinsync.Base.Action.{Action}
use pinsync.Store.{S3, ApiError, Body, GetInput, GetOutput, HeadOutput, PutInput, Object}

-- The maps of `Fake` and the keys of its calls in order.
pub record Fake : Type 0 where
  pub objects : Dict Text Text
  pub mod_times : Dict Text ℤ
  pub sums : Dict Text Text
  pub etags : Dict Text Text
  pub versions : Dict Text Text
  pub put_order : List Text
  pub get_order : List Text
  pub head_order : List Text
  pub del_order : List Text

-- NewFake
abbrev pub new_fake : Fake
new_fake = record {
  objects = [];
  mod_times = [];
  sums = [];
  etags = [];
  versions = [];
  put_order = [];
  get_order = [];
  head_order = [];
  del_order = [];
}

-- The digests of the standard library, and the fault-injection hooks.
pub record Setup : Type 0 where
  pub b64_sha256 : Text → Text
  pub md5_etag : Text → Text
  pub put_err : Text → ℕ → Option ApiError
  pub head_err : Text → Option ApiError
  pub delete_err : Text → Bool
  pub get_body : Text → Text → Text
  pub head_checksum : Text → Text → Text
  pub before_get : Text → Fake → Fake
  pub ignore_range : Bool

abbrev pub api_error : Option ℕ → Text → ApiError
api_error status code = record {
  no_such_key = false;
  not_found = false;
  status = status;
  code = some code;
}

-- &types.NoSuchKey{}, of a GET
abbrev pub no_key : ApiError
no_key = record {
  no_such_key = true;
  not_found = false;
  status = none;
  code = some (lit "NoSuchKey");
}

-- &types.NotFound{}, of a HEAD
abbrev pub no_object : ApiError
no_object = record {
  no_such_key = false;
  not_found = true;
  status = none;
  code = some (lit "NotFound");
}

abbrev or_text : Option Text → Text → Text
or_text none t = t
or_text (some s) t = s

-- Delete
unfoldable pub delete_key : Text → Fake → Fake
delete_key k f = record f {
  objects = erase f.objects k;
  mod_times = erase f.mod_times k;
  sums = erase f.sums k;
  etags = erase f.etags k;
  versions = erase f.versions k;
}

-- SetETag
unfoldable pub set_etag : Text → Text → Fake → Fake
set_etag k etag f = record f { etags = put f.etags k etag }

-- SetVersionID
unfoldable pub set_version_id : Text → Text → Fake → Fake
set_version_id k version f = record f { versions = put f.versions k version }

-- Store: the time of an earlier object stays.
unfoldable pub store : Text → Text → Fake → Fake
store k body f = record f {
  objects = put f.objects k body;
  sums = erase f.sums k;
  etags = erase f.etags k;
  versions = erase f.versions k;
}

-- Object
unfoldable pub stored_object : Fake → Text → Option Text
stored_object f k = get f.objects k

-- ResetCalls
unfoldable pub reset_calls : Fake → Fake
reset_calls f = record f { put_order = []; get_order = []; head_order = []; del_order = [] }

-- StoreAt: an object without a stored checksum.
unfoldable pub store_at : Text → Text → ℤ → Fake → Fake
store_at k body time f = record f {
  objects = put f.objects k body;
  mod_times = put f.mod_times k time;
  sums = erase f.sums k;
  etags = erase f.etags k;
  versions = erase f.versions k;
}

module _ (setup : Setup) where
  -- etagLocked
  unfoldable pub etag_of : Fake → Text → Text
  etag_of f k = or_text (get f.etags k) (setup.md5_etag (or_text (get f.objects k) []))

  -- The end of PutObject, after its checks.
  abbrev stored : PutInput → Fake → Fake
  stored i f = record f {
    objects = put f.objects i.key i.body;
    sums = put f.sums i.key (setup.b64_sha256 i.body);
    etags = erase f.etags i.key;
    versions = erase f.versions i.key;
  }

  -- A put that the hook lets through: length, then checksum.
  unfoldable pub checked_put : PutInput → Action Fake ApiError (Unit {0})
  checked_put i f =
      if not (i.content_length == pos (length i.body))
      then (err (api_error none (lit "InvalidRequest")), f)
      else if not (i.checksum == []) && not (i.checksum == setup.b64_sha256 i.body)
      then (err (api_error none (lit "BadDigest")), f)
      else (ok tt, stored i f)

  unfoldable pub put_object : PutInput → Action Fake ApiError (Unit {0})
  unfolding checked_put
  put_object i f =
      let f' = record f { put_order = f.put_order ++ (i.key ∷ []) } in
      elim (setup.put_err i.key (length f'.put_order)) [
        | some e ↦ (err e, f')
        | none ↦ checked_put i f'
      ]

  abbrev head_output : Fake → Text → Text → HeadOutput
  head_output f k body = record {
    content_length = pos (length body);
    checksum = elim (get f.sums k) [ none ↦ [] | some sum ↦ setup.head_checksum k sum ];
    composite = false;
  }

  unfoldable pub head_object : Text → Action Fake ApiError HeadOutput
  head_object k f =
      let f' = record f { head_order = f.head_order ++ (k ∷ []) } in
      elim (setup.head_err k) [
        | some e ↦ (err e, f')
        | none ↦ elim (get f.objects k) [
          | none ↦ (err (no_object), f')
          | some body ↦ (ok (head_output f k body), f')
        ]
      ]

  abbrev whole_output : Fake → Text → Text → GetOutput
  whole_output f k body = record {
    body = record { bytes = body; broken = false };
    content_range = none;
    content_length = pos (length body);
    etag = etag_of f k;
    version_id = or_text (get f.versions k) [];
  }

  -- "bytes %d-%d/%d"
  abbrev pub content_range : ℕ → ℕ → ℕ → Text
  content_range from last size =
      lit "bytes " ++ (decimal from ++ (lit "-" ++ (decimal last ++ (lit "/" ++ decimal size))))

  -- The reply to a GET for a body, whole or from an offset.
  unfoldable pub serve : Fake → Text → Text → Option ℕ → Result ApiError GetOutput
  serve f k body none = ok (whole_output f k body)
  serve f k body (some start) =
      if setup.ignore_range
      then ok (whole_output f k body)
      else if leb (length body) start
      then err (api_error (some 416) (lit "InvalidRange"))
      else ok (record (whole_output f k body) {
        body = record { bytes = drop start body; broken = false };
        content_range = some (content_range start (length body - 1) (length body));
        content_length = pos (length (drop start body));
      })

  unfoldable pub get_object : GetInput → Action Fake ApiError GetOutput
  unfolding serve
  get_object i f₀ =
      let f = setup.before_get i.key f₀ in
      let f' = record f { get_order = f.get_order ++ (i.key ∷ []) } in
      elim (get f.objects i.key) [
        | none ↦ (err (no_key), f')
        | some body ↦ (
          (if not (i.if_match == []) && not (i.if_match == etag_of f i.key)
              then err (api_error (some 412) (lit "PreconditionFailed"))
              else serve f i.key (setup.get_body i.key body) i.range_from),
          f',
        )
      ]

  -- The loop of DeleteObjects over the keys of one request.
  unfoldable pub delete_loop : List Text → List Text → Fake → List Text × Fake
  unfolding delete_key
  delete_loop [] failed f = (failed, f)
  delete_loop (k ∷ ks) failed f =
      let gone = delete_key k f in
      delete_loop ks (if setup.delete_err k then failed ++ (k ∷ []) else failed)
        (if setup.delete_err k then f else record gone { del_order = f.del_order ++ (k ∷ []) })

  unfoldable pub delete_objects : List Text → Action Fake ApiError (List Text)
  unfolding delete_loop
  delete_objects ks f = let (failed, f') = delete_loop ks [] f in (ok failed, f')

-- The keys of one page: under the prefix, after the token, in order, `max` at most.
unfoldable pub keys_after : Text → Text → List Text → List Text
keys_after prefix token [] = []
keys_after prefix token (k ∷ ks) =
    let rest = keys_after prefix token ks in
    if has_prefix k prefix && text_lt token k then k ∷ rest else rest

unfoldable pub listed_keys : Fake → Text → Text → List Text
listed_keys f prefix token = sort text_lt (keys_after prefix token (keys f.objects))

-- time.Time{}, the start of the year 1, in nanoseconds of Unix time.
abbrev pub zero_time : ℤ
zero_time = negsuc 62135596799999999999

-- LastModified is the zero time for an object that was stored without one.
abbrev listed_object : Fake → Text → Object
listed_object f k = record {
  key = k;
  modified = some (elim (get f.mod_times k) [ none ↦ zero_time | some t ↦ t ]);
}

-- ListObjectsV2
unfoldable pub list_page : ℕ → Text → Text → Fake → List Object × Bool
list_page max prefix token f =
    let ks = listed_keys f prefix token in
    (map (listed_object f) (take max ks), not (leb (length ks) max))

last_key : Text → List Object → Text
last_key token [] = token
last_key token (o ∷ os) = last_key o.key os

-- The paginator's calls; a page that is cut off has an object, so the objects bound the pages.
unfoldable pub pages : ℕ → ℕ → Text → Text → Fake → List (Result ApiError (List Object))
unfolding last_key list_page
pages zero max prefix token f = []
pages (suc fuel) max prefix token f =
    let (page, more) = list_page max prefix token f in
    let rest = pages fuel max prefix (last_key token page) f in
    ok page ∷ (if more then rest else [])

unfoldable pub list_pages : Text → Fake → List (Result ApiError (List Object)) × Fake
unfolding pages
list_pages prefix f = (pages (suc (length f.objects)) 1000 prefix [] f, f)

abbrev pub fake_store : Setup → S3
fake_store setup = record {
  State = Fake;
  get_object = get_object setup;
  head_object = head_object setup;
  put_object = put_object setup;
  list_pages = list_pages;
  delete_objects = delete_objects setup;
}
