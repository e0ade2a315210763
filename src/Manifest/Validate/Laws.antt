-- ===== src/Manifest/Validate/Laws.antt =====
-- `Validate` reports nothing exactly for the manifests whose entries are sound and whose paths
-- differ in more than case.
use pinsync.Base.{
  Bool, true, false, not, ◌≡◌, ◌↔◌, refl, sym, subst, List, [], ◌∷◌, ◌++◌, map, none, ℕ, Result, ok,
  err, nat_eq, list_eq, contains, not-contains-cons, arith, All, eq_iff,
}
use pinsync.Base.Int.{ℤ, pos, ◌≤ℤ◌, ltb_ℤ}
use pinsync.Base.Text.{Text}
use pinsync.Base.Dict.{Dict, get, put, get-put}
use pinsync.Manifest.Path.{Casing}
use pinsync.Manifest.Path.Laws.{IsPortable, validate_path_iff}
use pinsync.Manifest.Mode.{ModeError, file_mode}
use pinsync.Manifest.Entry.{File, Manifest}
use pinsync.Manifest.Validate.{
  Violation, bad_sha256, negative_size, is_sha256, report, mode_violation, field_violations, enter,
  check_path, validate_from, validate,
}

append-eq-nil {ℓ} : {A : Type ℓ} (xs ys : List A) → (xs ++ ys ≡ []) ↔ ((xs ≡ []) × (ys ≡ []))
append-eq-nil [] ys = (λ h. (refl, h), λ h. h.1)
append-eq-nil (x ∷ xs) ys = (λ h. cc, λ h. cc (h.0))

-- No value stands twice in the list.
abbrev pub Distinct : List Text → Type 0
Distinct [] = Unit
Distinct (x ∷ xs) = (contains xs x ≡ false) × Distinct xs

mode_violation_iff :
    (p : Text) (r : Result ModeError ℕ) → (mode_violation p r ≡ []) ↔ ((n : ℕ) × (r ≡ ok n))
mode_violation_iff p (ok n) = (λ _. (n, refl), λ _. refl)
mode_violation_iff p (err e) = (λ h. cc, λ h. cc (h.1))

-- What the checks before the path ask of an entry.
abbrev FieldsSound : File → Type 0
FieldsSound f =
    (is_sha256 f.sha256 ≡ true) × (pos 0 ≤ℤ f.size) × ((n : ℕ) × (file_mode f.mode ≡ ok n))

nonnegative_iff : (n : ℤ) → (ltb_ℤ n (pos 0) ≡ false) ↔ (pos 0 ≤ℤ n)
nonnegative_iff n = ground arith

report-eq-nil : (b : Bool) (v : Violation) → (report b v ≡ []) ↔ (b ≡ false)
report-eq-nil true v = (λ h. cc, λ h. cc)
report-eq-nil false v = (λ h. refl, λ h. refl)

not-false : (b : Bool) → (not b ≡ false) ↔ (b ≡ true)
not-false b = ground arith

field_violations_iff : (f : File) → (field_violations f ≡ []) ↔ FieldsSound f
unfolding field_violations
field_violations_iff f = ground (
  arith,
  append-eq-nil (report (not (is_sha256 f.sha256)) (bad_sha256 f.path f.sha256)) (
      report (ltb_ℤ f.size (pos 0)) (negative_size f.path f.size)
      ++ mode_violation f.path (file_mode f.mode)),
  append-eq-nil (report (ltb_ℤ f.size (pos 0)) (negative_size f.path f.size))
      (mode_violation f.path (file_mode f.mode)),
  mode_violation_iff f.path (file_mode f.mode),
)

module _ (casing : Casing) where
  open casing use {to_lower}

  -- An entry that obeys the schema by itself.
  pub record IsSound (f : File) : Type 0 where
    pub hex : is_sha256 f.sha256 ≡ true
    pub nonnegative : pos 0 ≤ℤ f.size
    pub permissions : (n : ℕ) × (file_mode f.mode ≡ ok n)
    pub portable : IsPortable casing f.path

  pub record IsValid (m : Manifest) : Type 0 where
    pub sound : All IsSound m.files
    pub distinct : Distinct (map (λ f. to_lower f.path) m.files)

  -- No path of the list is in the map up to case.
  abbrev Fresh : Dict Text Text → List File → Type 0
  Fresh seen = All (λ f. get seen (to_lower f.path) ≡ none)

  abbrev lowered : List File → List Text
  lowered = map (λ f. to_lower f.path)

  Fresh-put :
      (seen : Dict Text Text) (k v : Text) (fs : List File)
      → Fresh (put seen k v) fs ↔ ((contains (lowered fs) k ≡ false) × Fresh seen fs)
  Fresh-put seen k v [] = (unfold contains in λ _. (refl, tt), λ _. tt)
  Fresh-put seen k v (f ∷ fs) = ground (
    arith,
    get-put seen k (to_lower f.path) v,
    not-contains-cons (to_lower f.path) k (lowered fs),
    Fresh-put seen k v fs,
    eq_iff (to_lower f.path) k,
    eq_iff k (to_lower f.path),
  )

  check_path_iff :
      (seen : Dict Text Text) (path : Text)
      → ((check_path casing seen path).0 ≡ [])
        ↔ (IsPortable casing path × (get seen (to_lower path) ≡ none))
  unfolding check_path enter
  check_path_iff seen path = ground (arith, validate_path_iff casing path)

  -- A path that passes is in the map for the entries after it.
  check_path-put :
      (seen : Dict Text Text) (path : Text)
      → IsPortable casing path
      → get seen (to_lower path) ≡ none
      → (check_path casing seen path).1 ≡ put seen (to_lower path) path
  unfolding check_path enter
  check_path-put seen path p fresh = ground (arith, validate_path_iff casing path)

  -- The two halves of the induction step, from the same fact about the rest.
  clean_entry :
      (seen : Dict Text Text) (f : File) (fs : List File)
      → (let next = (check_path casing seen f.path).1 in
          validate_from casing next fs ≡ []
          → All IsSound fs × Distinct (lowered fs) × Fresh next fs)
      → field_violations f
          ++ ((check_path casing seen f.path).0
              ++ validate_from casing (check_path casing seen f.path).1 fs)
        ≡ []
      → All IsSound (f ∷ fs) × Distinct (lowered (f ∷ fs)) × Fresh seen (f ∷ fs)
  clean_entry seen f fs rest h =
      let next = (check_path casing seen f.path).1 in
      let later = validate_from casing next fs in
      let cut =
        (append-eq-nil (field_violations f) ((check_path casing seen f.path).0 ++ later)).0 h in
      let cut' = (append-eq-nil (check_path casing seen f.path).0 later).0 cut.1 in
      let fields = (field_violations_iff f).0 cut.0 in
      let path_ok = (check_path_iff seen f.path).0 cut'.0 in
      let tail = rest cut'.1 in
      let key = to_lower f.path in
      let fresh =
        (Fresh-put seen key f.path fs).0
          (subst (λ d. Fresh d fs) (check_path-put seen f.path path_ok.0 path_ok.1) tail.2) in
      (
        (
          record {
            hex = fields.0;
            nonnegative = fields.1;
            permissions = fields.2;
            portable = path_ok.0;
          },
          tail.0,
        ),
        (fresh.0, tail.1),
        (path_ok.1, fresh.1),
      )

  sound_entry :
      (seen : Dict Text Text) (f : File) (fs : List File)
      → (let next = (check_path casing seen f.path).1 in
          All IsSound fs × Distinct (lowered fs) × Fresh next fs
          → validate_from casing next fs ≡ [])
      → All IsSound (f ∷ fs) × Distinct (lowered (f ∷ fs)) × Fresh seen (f ∷ fs)
      → field_violations f
          ++ ((check_path casing seen f.path).0
              ++ validate_from casing (check_path casing seen f.path).1 fs)
        ≡ []
  sound_entry seen f fs rest ((s, ss), (d, ds), (n, ns)) =
      let next = (check_path casing seen f.path).1 in
      let later = validate_from casing next fs in
      let fresh =
        subst (λ m. Fresh m fs) (sym (check_path-put seen f.path s.portable n))
          ((Fresh-put seen (to_lower f.path) f.path fs).1 (d, ns)) in
      (append-eq-nil (field_violations f) ((check_path casing seen f.path).0 ++ later)).1 (
        (field_violations_iff f).1 (s.hex, s.nonnegative, s.permissions),
        (append-eq-nil (check_path casing seen f.path).0 later).1
            ((check_path_iff seen f.path).1 (s.portable, n), rest (ss, ds, fresh)),
      )

  Fresh-nil : (fs : List File) → Fresh [] fs
  unfolding get
  Fresh-nil [] = tt
  Fresh-nil (f ∷ fs) = (refl, Fresh-nil fs)

  validate_from_iff :
      (seen : Dict Text Text) (fs : List File)
      → (validate_from casing seen fs ≡ [])
        ↔ (All IsSound fs × Distinct (lowered fs) × Fresh seen fs)
  unfolding validate_from
  validate_from_iff seen [] = (λ _. (tt, tt, tt), λ _. refl)
  validate_from_iff seen (f ∷ fs) = (
    λ h. clean_entry seen f fs (validate_from_iff (check_path casing seen f.path).1 fs).0 h,
    λ h. sound_entry seen f fs (validate_from_iff (check_path casing seen f.path).1 fs).1 h,
  )

  -- `Validate` reports nothing exactly for the valid manifests.
  pub validate_iff : (m : Manifest) → (validate casing m ≡ []) ↔ IsValid m
  unfolding validate
  validate_iff m = (
    λ h.
        let parts = (validate_from_iff [] m.files).0 h in
        record { sound = parts.0; distinct = parts.1 },
    λ v. (validate_from_iff [] m.files).1 (v.sound, v.distinct, Fresh-nil m.files),
  )
