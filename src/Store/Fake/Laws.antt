-- ===== src/Store/Fake/Laws.antt =====
-- What the calls of the in-memory store do to the bodies that it holds.
use pinsync.Base.{
  true, false, ◌≡◌, eq_iff, Bool-cases, inl, inr, refl, List, [], ◌∷◌, ◌++◌, Option, none, some,
  arith, if◌then◌else◌, ok, err, ◌==◌, nat_eq, list_eq, contains, not-contains-cons,
}
use pinsync.Base.Int.{int_eq}
use pinsync.Base.Dict.{get, get-put, get-erase}
use pinsync.Base.Text.{Text}
use pinsync.Store.{S3, PutInput, GetInput}
use pinsync.Store.Fake.{
  Fake, Setup, delete_key, delete_loop, delete_objects, put_object, get_object, list_pages,
  fake_store,
}
use pinsync.Prune.Safety.{IsQuiet}
use pinsync.Prune.Count.{IsDeleting}

abbrev pub body_of : Fake → Text → Option Text
body_of f = get f.objects

not_nil : (xs : List Text) (x : Text) → xs ++ (x ∷ []) ≡ [] → ⊥
not_nil [] x h = cc
not_nil (y ∷ xs) x h = cc

-- A store that nobody else writes to, which deletes what it is asked to, stores what is put when it
-- says so, and leaves every other key alone.
pub record IsBucket (s3 : S3) (object : s3.State → Text → Option Text) : Type 0 where
  pub quiet : IsQuiet s3 object
  pub deleting : IsDeleting s3 object
  pub puts :
      (i : PutInput) (s : s3.State)
      → (s3.put_object i s).0 ≡ ok tt
      → object (s3.put_object i s).1 i.key ≡ some i.body
  pub put_keeps :
      (i : PutInput) (s : s3.State) (k : Text)
      → (i.key == k) ≡ false
      → object (s3.put_object i s).1 k ≡ object s k

module _ (setup : Setup) where
  delete_loop-keeps :
      (ks failed : List Text) (f : Fake) (k : Text)
      → contains ks k ≡ false
      → body_of (delete_loop setup ks failed f).1 k ≡ body_of f k
  unfolding delete_loop
  delete_loop-keeps [] failed f k h = refl
  delete_loop-keeps (j ∷ ks) failed f k h =
      let parts = (not-contains-cons j k ks).0 h in
      ground (
        arith,
        delete_loop-keeps ks failed
            (record (delete_key j f) { del_order = f.del_order ++ (j ∷ []) }) k parts.1,
        delete_loop-keeps ks (failed ++ (j ∷ [])) f k parts.1,
        get-erase f.objects j k,
      )

  delete_loop-never_adds :
      (ks failed : List Text) (f : Fake) (k : Text)
      → body_of f k ≡ none
      → body_of (delete_loop setup ks failed f).1 k ≡ none
  unfolding delete_loop
  delete_loop-never_adds [] failed f k h = h
  delete_loop-never_adds (j ∷ ks) failed f k h = ground (
    arith,
    delete_loop-never_adds ks failed
        (record (delete_key j f) { del_order = f.del_order ++ (j ∷ []) }) k,
    delete_loop-never_adds ks (failed ++ (j ∷ [])) f k,
    get-erase f.objects j k,
  )

  -- Failed keys stay failed.
  delete_loop-failed :
      (ks failed : List Text) (f : Fake) → (delete_loop setup ks failed f).0 ≡ [] → failed ≡ []
  unfolding delete_loop
  delete_loop-failed [] failed f h = h
  delete_loop-failed (j ∷ ks) failed f h = elim (Bool-cases (setup.delete_err j)) [
    | inl e ↦
        absurd (
          not_nil failed j
            (delete_loop-failed ks (failed ++ (j ∷ [])) f (rw (e, delete_loop) at h)))
    | inr e ↦
        delete_loop-failed ks failed
          (record (delete_key j f) { del_order = f.del_order ++ (j ∷ []) })
          (rw (e, delete_loop) at h)
  ]

  delete_loop-removes :
      (ks failed : List Text) (f : Fake) (k : Text)
      → (delete_loop setup ks failed f).0 ≡ []
      → contains ks k ≡ true
      → body_of (delete_loop setup ks failed f).1 k ≡ none
  unfolding delete_loop contains
  delete_loop-removes [] failed f k h c = absurd cc
  delete_loop-removes (j ∷ ks) failed f k h c = elim (Bool-cases (setup.delete_err j)) [
    | inl e ↦
        absurd (
          not_nil failed j
            (delete_loop-failed ks (failed ++ (j ∷ [])) f (rw (e, delete_loop) at h)))
    | inr e ↦
        let g : Fake = record (delete_key j f) { del_order = f.del_order ++ (j ∷ []) } in
        rw (e, delete_loop)
          (elim (Bool-cases (j == k)) [
            | inl same ↦
                delete_loop-never_adds ks failed g k
                  (unfold delete_key in ground (arith, get-erase f.objects j k))
            | inr other ↦
                delete_loop-removes ks failed g k (rw (e, delete_loop) at h) (ground arith)
          ])
  ]

  -- A put that succeeds stores its body; one that fails stores nothing.
  pub put_object-body :
      (i : PutInput) (f : Fake) (k : Text)
      → let (r, f') = put_object setup i f in
        body_of f' k
        ≡ elim r [ ok _ ↦ (if i.key == k then some i.body else body_of f k) | err _ ↦ body_of f k ]
  unfolding put_object
  put_object-body i f k = ground (arith, get-put f.objects i.key k i.body)

  pub fake_store-IsDeleting : IsDeleting (fake_store setup) body_of
  unfolding delete_objects
  fake_store-IsDeleting = record {
    removes = λ ks f k h c. delete_loop-removes ks [] f k (gone ks f h) c;
    never_adds = λ ks f k h. delete_loop-never_adds ks [] f k h;
  }
    where
      gone :
          (ks : List Text) (f : Fake)
          → ((fake_store setup).delete_objects ks f).0 ≡ ok []
          → (delete_loop setup ks [] f).0 ≡ []
      gone ks f h = cc

  module _ (undisturbed : (k : Text) (f : Fake) → setup.before_get k f ≡ f) where
    get_object-keeps :
        (i : GetInput) (f : Fake) (k : Text) → body_of (get_object setup i f).1 k ≡ body_of f k
    unfolding get_object
    get_object-keeps i f k = ground (arith, undisturbed i.key f)

    pub fake_store-IsQuiet : IsQuiet (fake_store setup) body_of
    unfolding list_pages delete_objects
    fake_store-IsQuiet = record {
      get_keeps = get_object-keeps;
      list_keeps = λ p f k. refl;
      delete_keeps = λ ks f k h. delete_loop-keeps ks [] f k h;
    }

    -- Where its hook before a GET changes nothing, what the in-memory store holds under its keys is
    -- a bucket as the packages rely on it: reads and listings change nothing, a put that succeeds
    -- stores its body under its key alone, and a deletion that names no failed key removes the keys
    -- it was given and no other.
    pub fake_store-IsBucket : IsBucket (fake_store setup) body_of
    unfolding put_object
    fake_store-IsBucket = record {
      quiet = fake_store-IsQuiet;
      deleting = fake_store-IsDeleting;
      puts = λ i f h. ground (arith, put_object-body i f i.key, eq_iff i.key i.key);
      put_keeps = λ i f k h. ground (arith, put_object-body i f k);
    }
