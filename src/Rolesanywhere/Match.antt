-- ===== src/Rolesanywhere/Match.antt =====
-- pkg/rolesanywhere/match.go: the names of certificate fields and stores, and the match of a
-- certificate. x509 and regexp are taken by the names and the test that the code uses of them.
use pinsync.Base.{
  Bool, true, false, ◌≡◌, refl, sym, subst, ◌↔◌, inl, inr, ℕ, ◌+◌, if◌then◌else◌, Result, ok, err,
  ◌==◌, eq_iff, nat_eq, list_eq, Bool-cases, [], ◌∷◌, ◌++◌,
}
use pinsync.Base.Decimal.{decimal}
use pinsync.Base.Text.{Text, lit}

-- The Go types are integers. `other_field n` is the value n + 2 and `negative_field n` the value
-- -1 - n, neither of which is one of the constants; the stores are alike.
pub data CertField : Type 0 where
  subject_field : CertField
  issuer_field : CertField
  other_field negative_field : ℕ → CertField

pub data StoreLoc : Type 0 where
  user_store : StoreLoc
  machine_store : StoreLoc
  other_store negative_store : ℕ → StoreLoc

-- A value that is not known by name.
pub data NameError : Type 0 where
  invalid_name : Text → NameError

-- CertField.String
unfoldable pub field_name : CertField → Text
field_name subject_field = lit "subject"
field_name issuer_field = lit "issuer"
field_name (other_field n) = lit "CertField(" ++ decimal (n + 2) ++ lit ")"
field_name (negative_field n) = lit "CertField(-" ++ decimal (n + 1) ++ lit ")"

unfoldable pub parse_cert_field : Text → Result NameError CertField
parse_cert_field s =
    if s == lit "subject"
    then ok subject_field
    else if s == lit "issuer"
    then ok issuer_field
    else err (invalid_name s)

-- StoreLoc.String
unfoldable pub store_name : StoreLoc → Text
store_name user_store = lit "user"
store_name machine_store = lit "machine"
store_name (other_store n) = lit "StoreLoc(" ++ decimal (n + 2) ++ lit ")"
store_name (negative_store n) = lit "StoreLoc(-" ++ decimal (n + 1) ++ lit ")"

unfoldable pub parse_store_loc : Text → Result NameError StoreLoc
parse_store_loc s =
    if s == lit "user"
    then ok user_store
    else if s == lit "machine"
    then ok machine_store
    else err (invalid_name s)

-- The common names of an x509 certificate.
pub record Cert : Type 0 where
  pub subject : Text
  pub issuer : Text

abbrev pub common_name : CertField → Cert → Text
common_name subject_field c = c.subject
common_name issuer_field c = c.issuer
common_name (other_field n) c = []
common_name (negative_field n) c = []

-- `matches` is Regexp.MatchString.
unfoldable pub match_cert : (Text → Bool) → CertField → Cert → Bool
match_cert matches field c = matches (common_name field c)

-- The fields and stores that have a name of their own.
abbrev pub IsField : CertField → Type 0
IsField subject_field = Unit {0}
IsField issuer_field = Unit {0}
IsField (other_field n) = ⊥
IsField (negative_field n) = ⊥

abbrev pub IsStore : StoreLoc → Type 0
IsStore user_store = Unit {0}
IsStore machine_store = Unit {0}
IsStore (other_store n) = ⊥
IsStore (negative_store n) = ⊥

parse_cert_field-field_name : (f : CertField) → IsField f → parse_cert_field (field_name f) ≡ ok f
unfolding parse_cert_field field_name pinsync.Base.list_beq
parse_cert_field-field_name subject_field k = refl
parse_cert_field-field_name issuer_field k = refl
parse_cert_field-field_name (other_field n) k = absurd k
parse_cert_field-field_name (negative_field n) k = absurd k

parse_store_loc-store_name : (l : StoreLoc) → IsStore l → parse_store_loc (store_name l) ≡ ok l
unfolding parse_store_loc store_name pinsync.Base.list_beq
parse_store_loc-store_name user_store k = refl
parse_store_loc-store_name machine_store k = refl
parse_store_loc-store_name (other_store n) k = absurd k
parse_store_loc-store_name (negative_store n) k = absurd k

-- ParseCertField accepts exactly the names of the two fields, each for the field that String
-- writes it for.
pub parse_cert_field_iff :
    (s : Text) (f : CertField) → (parse_cert_field s ≡ ok f) ↔ (IsField f × (field_name f ≡ s))
unfolding parse_cert_field field_name
parse_cert_field_iff s f = (
  λ h. elim (Bool-cases (s == lit "subject")) [
    | inl e ↦
        let found : ok subject_field ≡ ok f = rw e at h in
        let same : subject_field ≡ f = cc found in
        subst (λ x. IsField x × (field_name x ≡ s)) same (tt, sym ((eq_iff s (lit "subject")).0 e))
    | inr e ↦ elim (Bool-cases (s == lit "issuer")) [
      | inl k ↦
          let found : ok issuer_field ≡ ok f = rw (e, k) at h in
          let same : issuer_field ≡ f = cc found in
          subst (λ x. IsField x × (field_name x ≡ s)) same (tt, sym ((eq_iff s (lit "issuer")).0 k))
      | inr k ↦ let failed : err (invalid_name s) ≡ ok f = rw (e, k) at h in absurd (cc failed)
    ]
  ],
  λ k. subst (λ x. parse_cert_field x ≡ ok f) k.1 (parse_cert_field-field_name f k.0),
)

-- ParseStoreLoc accepts exactly the names of the two stores, each for the store that String
-- writes it for.
pub parse_store_loc_iff :
    (s : Text) (l : StoreLoc) → (parse_store_loc s ≡ ok l) ↔ (IsStore l × (store_name l ≡ s))
unfolding parse_store_loc store_name
parse_store_loc_iff s l = (
  λ h. elim (Bool-cases (s == lit "user")) [
    | inl e ↦
        let found : ok user_store ≡ ok l = rw e at h in
        let same : user_store ≡ l = cc found in
        subst (λ x. IsStore x × (store_name x ≡ s)) same (tt, sym ((eq_iff s (lit "user")).0 e))
    | inr e ↦ elim (Bool-cases (s == lit "machine")) [
      | inl k ↦
          let found : ok machine_store ≡ ok l = rw (e, k) at h in
          let same : machine_store ≡ l = cc found in
          subst (λ x. IsStore x × (store_name x ≡ s)) same
            (tt, sym ((eq_iff s (lit "machine")).0 k))
      | inr k ↦ let failed : err (invalid_name s) ≡ ok l = rw (e, k) at h in absurd (cc failed)
    ]
  ],
  λ k. subst (λ x. parse_store_loc x ≡ ok l) k.1 (parse_store_loc-store_name l k.0),
)
