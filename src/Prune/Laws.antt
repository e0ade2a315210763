-- ===== src/Prune/Laws.antt =====
-- What `classify` finds.
use pinsync.Base.{
  true, false, ◌≡◌, ◌↔◌, ◌⊎◌, refl, ap, ◌∙◌, subst, List, [], ◌∷◌, ◌++◌, ℕ, ◌+◌, arith,
  if◌then◌else◌, Result, ok, err, ◌==◌, eq_iff, nat_eq, list_eq, contains, contains-append, length,
  ◌>>=◌, >>=-eq-ok, length-append, Result-cases, inl, inr,
}
use pinsync.Base.Int.{ℤ}
use pinsync.Base.Sort.Laws.{length-sort, contains-sort, Ascending, Ascending-sort}
use pinsync.Base.Text.{Text, text_lt}
use pinsync.Base.Text.Order.{text_order}
use pinsync.Store.{Object, ApiError}
use pinsync.Prune.Classify.{
  Tally, list_failed, no_objects, is_young, tally_object, tally_page, tally_pages, sort_keys,
  sorted_tally,
}

module _ (keep : List Text) (cutoff : ℤ) where
  -- An object that prune may delete.
  abbrev pub IsGarbage : Object → Type 0
  IsGarbage o = (contains keep o.key ≡ false) × (is_young cutoff o ≡ false)

  -- One of the objects is garbage and has the key.
  abbrev pub HasGarbage : List Object → Text → Type 0
  HasGarbage [] k = ⊥
  HasGarbage (o ∷ os) k = ((o.key == k) ≡ true) × IsGarbage o ⊎ HasGarbage os k

  -- The objects that are kept because the manifest names them, and because they are young.
  abbrev pub count_referenced : List Object → ℕ
  count_referenced [] = 0
  count_referenced (o ∷ os) =
      let n = count_referenced os in if contains keep o.key then n + 1 else n

  -- Every object is counted once, and the keys to delete are those of the garbage, in order.
  pub record IsTally (os : List Object) (t : Tally) : Type 0 where
    pub complete : t.listed ≡ length os
    pub partition : length t.delete + t.protected + t.referenced ≡ t.listed
    pub referenced : t.referenced ≡ count_referenced os
    pub garbage : (k : Text) → (contains t.delete k ≡ true) ↔ HasGarbage os k
    pub ascending : Ascending text_lt t.delete

  tally_object-counts :
      (t : Tally) (o : Object)
      → ((tally_object keep cutoff t o).listed ≡ t.listed + 1)
        × (let u = tally_object keep cutoff t o in
            length u.delete + u.protected + u.referenced
            ≡ length t.delete + t.protected + t.referenced + 1)
  unfolding tally_object
  tally_object-counts t o = ground (arith, length-append t.delete (o.key ∷ []))

  tally_page-counts :
      (t : Tally) (os : List Object)
      → ((tally_page keep cutoff t os).listed ≡ t.listed + length os)
        × (let u = tally_page keep cutoff t os in
            length u.delete + u.protected + u.referenced
            ≡ length t.delete + t.protected + t.referenced + length os)
  unfolding tally_page
  tally_page-counts t [] = omega arith
  tally_page-counts t (o ∷ os) =
      omega (arith, tally_object-counts t o, tally_page-counts (tally_object keep cutoff t o) os)

  tally_page-referenced :
      (t : Tally) (os : List Object)
      → (tally_page keep cutoff t os).referenced ≡ t.referenced + count_referenced os
  unfolding tally_page tally_object
  tally_page-referenced t [] = omega arith
  tally_page-referenced t (o ∷ os) =
      ground (arith, tally_page-referenced (tally_object keep cutoff t o) os)

  tally_object-delete :
      (t : Tally) (o : Object) (k : Text)
      → (contains (tally_object keep cutoff t o).delete k ≡ true)
        ↔ ((contains t.delete k ≡ true) ⊎ ((o.key == k) ≡ true) × IsGarbage o)
  unfolding tally_object contains
  tally_object-delete t o k = ground (arith, contains-append t.delete (o.key ∷ []) k)

  tally_page-delete :
      (t : Tally) (os : List Object) (k : Text)
      → (contains (tally_page keep cutoff t os).delete k ≡ true)
        ↔ ((contains t.delete k ≡ true) ⊎ HasGarbage os k)
  unfolding tally_page
  tally_page-delete t [] k = (λ h. inl h, λ h. elim h [ inl e ↦ e | inr e ↦ absurd e ])
  tally_page-delete t (o ∷ os) k =
      ground
        (arith, tally_object-delete t o k, tally_page-delete (tally_object keep cutoff t o) os k)

  tally_page-append :
      (t : Tally) (os ps : List Object)
      → tally_page keep cutoff t (os ++ ps)
        ≡ tally_page keep cutoff (tally_page keep cutoff t os) ps
  unfolding tally_page
  tally_page-append t [] ps = refl
  tally_page-append t (o ∷ os) ps = tally_page-append (tally_object keep cutoff t o) os ps

-- All objects of a listing, or the error of its first page that failed.
unfoldable pub listing : List (Result ApiError (List Object)) → Result ApiError (List Object)
listing [] = ok []
listing (err e ∷ pages) = err e
listing (ok page ∷ pages) = listing pages >>= λ rest. ok (page ++ rest)

rest_failed :
    (r : Result ApiError (List Object)) (page : List Object) (e : ApiError)
    → (r >>= λ rest. ok (page ++ rest)) ≡ err e
    → r ≡ err e
rest_failed (ok rest) page e h = cc
rest_failed (err x) page e h = h

module _ (keep : List Text) (cutoff : ℤ) where
  tally_pages-listing :
      (t : Tally) (pages : List (Result ApiError (List Object))) (os : List Object)
      → listing pages ≡ ok os
      → tally_pages keep cutoff t pages ≡ ok (tally_page keep cutoff t os)
  unfolding listing tally_pages
  tally_pages-listing t [] os h = unfold tally_page in cc h
  tally_pages-listing t (err e ∷ pages) os h = cc
  tally_pages-listing t (ok page ∷ pages) os h =
      let (rest, e, k) = >>=-eq-ok (listing pages) (λ rest. ok (page ++ rest)) os h in
      tally_pages-listing (tally_page keep cutoff t page) pages rest e
      ∙ cc (tally_page-append keep cutoff t page rest, k)

  -- A listing without errors is classified whole: every object is counted once, and exactly the
  -- unreferenced objects that are old enough are to be deleted, in ascending order.
  pub classify-IsTally :
      (pages : List (Result ApiError (List Object))) (os : List Object)
      → listing pages ≡ ok os
      → (t : Tally) × (sorted_tally (tally_pages keep cutoff no_objects pages) ≡ ok t)
        × IsTally keep cutoff os t
  unfolding sorted_tally
  classify-IsTally pages os h =
      let t = tally_page keep cutoff no_objects os in
      (
        sort_keys t,
        rw (tally_pages-listing no_objects pages os h),
        record {
          complete = omega (arith, tally_page-counts keep cutoff no_objects os);
          partition =
              omega
                (arith, length-sort text_lt t.delete, tally_page-counts keep cutoff no_objects os);
          referenced = omega (arith, tally_page-referenced keep cutoff no_objects os);
          garbage = λ k.
              rw (contains-sort text_lt t.delete k)
                (unfold contains in ground (arith, tally_page-delete keep cutoff no_objects os k));
          ascending = Ascending-sort text_lt text_order t.delete;
        },
      )

  tally_pages-failed :
      (t : Tally) (pages : List (Result ApiError (List Object))) (e : ApiError)
      → listing pages ≡ err e
      → tally_pages keep cutoff t pages ≡ err (list_failed e)
  unfolding listing tally_pages
  tally_pages-failed t [] e h = cc
  tally_pages-failed t (err x ∷ pages) e h = cc
  tally_pages-failed t (ok page ∷ pages) e h =
      tally_pages-failed (tally_page keep cutoff t page) pages e
        (rest_failed (listing pages) page e h)

  -- A tally that came back describes the objects of a listing without errors.
  pub tally-inversion :
      (pages : List (Result ApiError (List Object))) (t : Tally)
      → sorted_tally (tally_pages keep cutoff no_objects pages) ≡ ok t
      → (os : List Object) × (listing pages ≡ ok os) × IsTally keep cutoff os t
  tally-inversion pages t h = elim (Result-cases (listing pages)) [
    | inl (os, e) ↦
        let (u, k, good) = classify-IsTally pages os e in
        (os, e, subst (IsTally keep cutoff os) (cc (h, k)) good)
    | inr (x, e) ↦
        absurd
          (unfold sorted_tally in cc (h, ap sorted_tally (tally_pages-failed no_objects pages x e)))
  ]

  -- What the keep set names is no garbage.
  pub referenced-not-garbage :
      (os : List Object) (k : Text) → contains keep k ≡ true → ¬ HasGarbage keep cutoff os k
  referenced-not-garbage [] k h g = g
  referenced-not-garbage (o ∷ os) k h g =
      ground (arith, referenced-not-garbage os k h, eq_iff o.key k)
