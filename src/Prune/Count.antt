-- ===== src/Prune/Count.antt =====
-- What the count of `deleteBatched` says, and how the keys are put into requests.
use pinsync.Base.{
  true, ◌⊎◌, ◌≡◌, refl, sym, ap, ◌∙◌, List, [], ◌∷◌, ◌++◌, Option, none, ℕ, ◌+◌, arith, ok, err,
  Result-cases, Bool-cases, nat_eq, list_eq, contains, contains-append, length, length-append, inl,
  inr,
}
use pinsync.Base.Int.{ℤ, pos, ◌+ℤ◌, ◌-ℤ◌}
use pinsync.Base.Chunks.{chunks, concat, concat-chunks}
use pinsync.Base.Text.{Text}
use pinsync.Store.{S3, ApiError}
use pinsync.Prune.Delete.{batch_size, delete_chunks, delete_batched, keys_error}

-- A request to delete that names no failed key removes all the keys that it names, and no request to
-- delete stores an object.
pub record IsDeleting (s3 : S3) (object : s3.State → Text → Option Text) : Type 0 where
  pub removes :
      (ks : List Text) (s : s3.State) (k : Text)
      → (s3.delete_objects ks s).0 ≡ ok []
      → contains ks k ≡ true
      → object (s3.delete_objects ks s).1 k ≡ none
  pub never_adds :
      (ks : List Text) (s : s3.State) (k : Text)
      → object s k ≡ none
      → object (s3.delete_objects ks s).1 k ≡ none

no_keys_error : (ks : List Text) → keys_error ks ≡ none → ks ≡ []
no_keys_error [] h = refl
no_keys_error (k ∷ ks) h = cc

left_nil : (xs ys : List Text) → xs ++ ys ≡ [] → (xs ≡ []) × (ys ≡ [])
left_nil [] ys h = (refl, h)
left_nil (x ∷ xs) ys h = cc

add_all : (n : ℤ) (a b : ℕ) → n +ℤ (pos a -ℤ pos 0) +ℤ pos b ≡ n +ℤ pos (a + b)
unfolding ◌+ℤ◌ ◌-ℤ◌
add_all n a b = ground arith

module _ (s3 : S3) where
  failed_count {ℓ} :
      {P : Type ℓ} (n : ℤ) (errs b : List Text) (bs : List (List Text)) (s : s3.State)
      (x : ApiError)
      → (s3.delete_objects b s).0 ≡ err x
      → (delete_chunks s3 n errs (b ∷ bs) s).0.failure ≡ none
      → P
  unfolding delete_chunks
  failed_count n errs b bs s x e h = absurd (cc (rw (e, delete_chunks) at h))

  delete_chunks-all :
      (n : ℤ) (errs : List Text) (batches : List (List Text)) (s : s3.State)
      → (delete_chunks s3 n errs batches s).0.failure ≡ none
      → (errs ≡ [])
        × ((delete_chunks s3 n errs batches s).0.deleted ≡ n +ℤ pos (length (concat batches)))
  unfolding concat
  delete_chunks-all n errs [] s h =
      unfold delete_chunks ◌+ℤ◌ in (no_keys_error errs h, ground arith)
  delete_chunks-all n errs (b ∷ bs) s h = elim (Result-cases (s3.delete_objects b s).0) [
    | inl (failed, e) ↦
        let step : delete_chunks s3 n errs (b ∷ bs) s
            ≡ delete_chunks s3 (n +ℤ (pos (length b) -ℤ pos (length failed))) (errs ++ failed) bs
                (s3.delete_objects b s).1 =
          unfold delete_chunks in rw (e, delete_chunks) in
        let rest =
          delete_chunks-all (n +ℤ (pos (length b) -ℤ pos (length failed))) (errs ++ failed) bs
            (s3.delete_objects b s).1 (sym (ap (λ r. r.0.failure) step) ∙ h) in
        let none_failed = left_nil errs failed rest.0 in
        (
          none_failed.0,
          ap (λ r. r.0.deleted) step
              ∙ rest.1
              ∙ ap
                  (λ (f : List Text).
                    n +ℤ (pos (length b) -ℤ pos (length f)) +ℤ pos (length (concat bs)))
                  none_failed.1
              ∙ add_all n (length b) (length (concat bs))
              ∙ ap (λ (i : ℕ). n +ℤ pos i) (sym (length-append b (concat bs))),
        )
    | inr (x, e) ↦ failed_count n errs b bs s x e h
  ]

  module _ (object : s3.State → Text → Option Text) (deleting : IsDeleting s3 object)
      (k : Text) where
    open deleting use {removes, never_adds}

    -- A key that is gone, or that is yet to be asked for, is gone in the end.
    delete_chunks-removes :
        (n : ℤ) (errs : List Text) (batches : List (List Text)) (s : s3.State)
        → (delete_chunks s3 n errs batches s).0.failure ≡ none
        → (object s k ≡ none) ⊎ (contains (concat batches) k ≡ true)
        → object (delete_chunks s3 n errs batches s).1 k ≡ none
    unfolding delete_chunks concat contains
    delete_chunks-removes n errs [] s h (inl gone) = gone
    delete_chunks-removes n errs [] s h (inr c) = absurd cc
    delete_chunks-removes n errs (b ∷ bs) s h at_hand =
        elim (Result-cases (s3.delete_objects b s).0) [
          | inl (failed, e) ↦
              let done : (delete_chunks s3 (n +ℤ (pos (length b) -ℤ pos (length failed)))
                    (errs ++ failed) bs (s3.delete_objects b s).1).0.failure
                  ≡ none =
                rw (e, delete_chunks) at h in
              let all_gone =
                left_nil errs failed
                  (delete_chunks-all (n +ℤ (pos (length b) -ℤ pos (length failed))) (errs ++ failed)
                    bs (s3.delete_objects b s).1 done).0 in
              rw (e, delete_chunks)
                (delete_chunks-removes (n +ℤ (pos (length b) -ℤ pos (length failed)))
                  (errs ++ failed) bs (s3.delete_objects b s).1 done
                  (next (e ∙ ap ok (all_gone.1)) at_hand))
          | inr (x, e) ↦ failed_count n errs b bs s x e h
        ]
      where
        next :
            (s3.delete_objects b s).0 ≡ ok []
            → (object s k ≡ none) ⊎ (contains (b ++ concat bs) k ≡ true)
            → (object (s3.delete_objects b s).1 k ≡ none) ⊎ (contains (concat bs) k ≡ true)
        next e (inl gone) = inl (never_adds b s k gone)
        next e (inr c) = elim (Bool-cases (contains b k)) [
          | inl now ↦ inl (removes b s k e now)
          | inr later ↦ inr (ground (arith, contains-append b (concat bs) k))
        ]

  -- In a store that deletes what it is asked to, a deletion without an error counts every key that it
  -- was given, and the store holds nothing under any of them afterwards.
  pub delete_batched-all :
      (object : s3.State → Text → Option Text) (deleting : IsDeleting s3 object) (keys : List Text)
      (s : s3.State)
      → (delete_batched s3 keys s).0.failure ≡ none
      → ((delete_batched s3 keys s).0.deleted ≡ pos (length keys))
        × ((k : Text) → contains keys k ≡ true → object (delete_batched s3 keys s).1 k ≡ none)
  unfolding delete_batched ◌+ℤ◌
  delete_batched-all object deleting keys s h = (
    (delete_chunks-all (pos 0) [] (chunks batch_size keys) s h).1
        ∙ rw (concat-chunks batch_size keys (omega arith)) (ground arith),
    λ k c.
        delete_chunks-removes object deleting k (pos 0) [] (chunks batch_size keys) s h
          (inr (rw (concat-chunks batch_size keys (omega arith)) c)),
  )
