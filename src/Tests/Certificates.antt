-- ===== src/Tests/Certificates.antt =====
-- The certificates of a store with three identities.
use pinsync.Base.{
  Bool, ◌≡◌, refl, ◌↔◌, [], ◌∷◌, none, some, ℕ, ok, ◌==◌, nat_eq, list_eq, if◌then◌else◌,
}
use pinsync.Base.Text.{Text, lit}
use pinsync.Rolesanywhere.Match.{
  issuer_field, subject_field, machine_store, IsField, IsStore, field_name, store_name,
  parse_cert_field, parse_store_loc, parse_cert_field_iff, parse_store_loc_iff,
}
use pinsync.Rolesanywhere.Selector.{CertStores, find_identity}
use pinsync.Rolesanywhere.Selector.Laws.{Selected, find_identity-IsFirst}

-- One identity does not parse, two have certificates.
abbrev host_stores : CertStores (Unit {0}) ℕ
host_stores = record {
  open_store = λ machine. ok tt;
  identities = λ store. ok (0 ∷ 1 ∷ 2 ∷ []);
  certificate = λ i.
      if i == 0
      then none
      else some (record { subject = if i == 1 then lit "old" else lit "host"; issuer = lit "ca" });
}

abbrev is_host : Text → Bool
is_host t = t == lit "host"

parse_cert_field_iff_example :
    (parse_cert_field (lit "issuer") ≡ ok issuer_field)
    ↔ (IsField issuer_field × (field_name issuer_field ≡ lit "issuer"))
parse_cert_field_iff_example = parse_cert_field_iff (lit "issuer") issuer_field

parse_store_loc_iff_example :
    (parse_store_loc (lit "machine") ≡ ok machine_store)
    ↔ (IsStore machine_store × (store_name machine_store ≡ lit "machine"))
parse_store_loc_iff_example = parse_store_loc_iff (lit "machine") machine_store

find_identity-IsFirst_example :
    Selected host_stores is_host subject_field
      (0 ∷ 1 ∷ 2 ∷ [])
      (find_identity host_stores is_host subject_field machine_store)
find_identity-IsFirst_example =
    find_identity-IsFirst host_stores is_host subject_field machine_store tt (0 ∷ 1 ∷ 2 ∷ []) refl
      refl
