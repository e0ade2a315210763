-- ===== src/Rolesanywhere/Selector.antt =====
-- `FindIdentity` of pkg/rolesanywhere/selector.go. The certificate store of the system is a
-- parameter, and a run lists what it closes, in order.
pub mod Laws
use pinsync.Base.{
  Bool, true, false, List, [], ◌∷◌, ◌++◌, map, Option, none, some, ℕ, if◌then◌else◌, Result, ok,
  err, length,
}
use pinsync.Base.Text.{Text}
use pinsync.Rolesanywhere.Match.{
  CertField, StoreLoc, user_store, machine_store, other_store, negative_store, Cert, match_cert,
}

-- What the code calls of github.com/tailscale/certstore: `open_store true` opens the machine's store.
pub record CertStores (Handle Ident : Type 0) : Type 0 where
  pub open_store : Bool → Result Text Handle
  pub identities : Handle → Result Text (List Ident)
  pub certificate : Ident → Option Cert

pub data Closed (Ident : Type 0) : Type 0 where
  closed_identity : Ident → Closed Ident
  closed_store : Closed Ident

pub data SelectError : Type 0 where
  no_machine_store : Text → SelectError
  no_user_store : Text → SelectError
  not_listed : Text → SelectError
  no_match : CertField → ℕ → SelectError

abbrev pub is_machine : StoreLoc → Bool
is_machine machine_store = true
is_machine user_store = false
is_machine (other_store n) = false
is_machine (negative_store n) = false

abbrev pub open_error : Bool → Text → SelectError
open_error true e = no_machine_store e
open_error false e = no_user_store e

module _ {Handle Ident : Type 0} (stores : CertStores Handle Ident) (matches : Text → Bool)
    (field : CertField) where
  -- closeIdentities
  abbrev pub close_identities : List Ident → List (Closed Ident)
  close_identities idents = map closed_identity idents

  -- The loop: the identity that is handed to the caller, and what is closed meanwhile.
  unfoldable pub scan : List Ident → Option (Ident × Cert) × List (Closed Ident)
  unfolding match_cert
  scan [] = (none, [])
  scan (i ∷ rest) =
      let found : Option (Ident × Cert) × List (Closed Ident) = scan rest in
      let skipped : Option (Ident × Cert) × List (Closed Ident) =
        (found.0, closed_identity i ∷ found.1) in
      elim (stores.certificate i) [
        | none ↦ skipped
        | some c ↦
            if match_cert matches field c then (some (i, c), close_identities rest) else skipped
      ]

  abbrev pub selected : ℕ → Option (Ident × Cert) → Result SelectError (Ident × Cert)
  selected n none = err (no_match field n)
  selected n (some x) = ok x

  -- After the store is opened; it is closed on every way out.
  unfoldable pub find_in :
      Result Text (List Ident) → Result SelectError (Ident × Cert) × List (Closed Ident)
  unfolding scan
  find_in (err e) = (err (not_listed e), closed_store ∷ [])
  find_in (ok idents) =
      let (found, closed) = scan idents in
      (selected (length idents) found, closed ++ (closed_store ∷ []))

  abbrev pub find_opened :
      Bool → Result Text Handle → Result SelectError (Ident × Cert) × List (Closed Ident)
  find_opened machine (err e) = (err (open_error machine e), [])
  find_opened machine (ok store) = find_in (stores.identities store)

  unfoldable pub find_identity : StoreLoc → Result SelectError (Ident × Cert) × List (Closed Ident)
  unfolding find_in
  find_identity loc = find_opened (is_machine loc) (stores.open_store (is_machine loc))
