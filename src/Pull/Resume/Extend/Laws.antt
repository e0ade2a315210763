-- ===== src/Pull/Resume/Extend/Laws.antt =====
-- Downloads through the prefix files (`extend` and `fetchWhole` of pkg/pull/resume.go) and the files
-- that were there before.
use pinsync.Base.{
  Bool, true, false, ◌≡◌, refl, sym, subst, List, [], ◌∷◌, ◌++◌, ℕ, ◌+◌, Result, ok, err, ◌==◌,
  nat_eq, list_eq, length, take,
}
use pinsync.Base.Action.{
  Action, pure, lift, on_err, ◌>>=◌, ◌>>◌, Meets, Meets-bind, Meets-choose, Meets-on_err,
  Meets-weaken,
}
use pinsync.Base.Dict.{erase}
use pinsync.Base.Int.{pos, ◌-ℤ◌}
use pinsync.Base.Text.{Text}
use pinsync.Manifest.Entry.{File}
use pinsync.Store.{Body}
use pinsync.Pull.Files.{
  Fs, Calls, FileError, missing, present, failed, broken, create, copy_in, read_file, rename,
  remove,
}
use pinsync.Pull.Files.Rules.{Untouched, Untouched-names, Writing, create_rule, copy_in_rule}
use pinsync.Pull.Files.Names.{read_file_keeps, remove_keeps, remove_rule, rename_keeps, rename_rule}
use pinsync.Pull.Write.{
  StageError, io, stuck, discard_prefix, shrank, limit_from, closing, check_staged, chmod,
}
use pinsync.Pull.Write.Laws.{
  Untouched-tick, Writing-tick, closing_rule, check_staged_sound, Stages, chmod_rule,
}
use pinsync.Pull.Resume.Prefix.{
  PrefixFiles, remove_old, remove_each, discard, create_data, owner_writable, remove_quietly,
  install, unless_missing, info_tmp,
}
use pinsync.Pull.Resume.Extend.{whole_prefix, copy_prefix, refill, discarding, extend}

-- The file that is installed is neither the sidecar nor named as the content that is copied forward.
pub record IsApart (p : PrefixFiles) (dst : Text) : Type 0 where
  pub previous : (p.prev == p.content) ≡ false
  pub beside : (p.info == dst) ≡ false

module _ (old : Fs) (os : Calls) where
  -- What fails leaves the old files alone.
  abbrev pub Safe {ℓ} : {E : Type ℓ} → E → Fs → Type 0
  Safe e = Untouched old

  pub remove_old_rule :
      (name : Text) (s : Fs) → Untouched old s → Meets Safe Safe (remove_old os name s)
  unfolding remove_old
  remove_old_rule name s h = go (remove os name s) (
      remove_keeps old os (Untouched old) name s (Untouched-tick old os s h)
        (Untouched-names old (erase s.names name) (s.calls + 1) s h))
    where
      go :
          (x : Result FileError (Unit {0}) × Fs)
          → Meets Safe Safe x
          → Meets Safe Safe (unless_missing x.0, x.1)
      go (ok _, t) u = u
      go (err (missing n), t) u = u
      go (err (present n), t) u = u
      go (err (failed n), t) u = u
      go (err broken, t) u = u

  remove_each_rule :
      (names : List Text) (s : Fs) → Untouched old s → Meets Safe Safe (remove_each os names s)
  unfolding remove_each
  remove_each_rule [] s h = h
  remove_each_rule (n ∷ ns) s h =
      Meets-bind Safe Safe Safe (remove_old os n) (λ _. remove_each os ns) s (remove_old_rule n s h)
        (λ _ t u. remove_each_rule ns t u)

  pub discard_rule : (p : PrefixFiles) (s : Fs) → Untouched old s → Meets Safe Safe (discard os p s)
  unfolding discard
  discard_rule p s h = remove_each_rule (p.content ∷ p.prev ∷ p.info ∷ info_tmp p ∷ []) s h

  -- What is copied comes after the bytes that the file has.
  pub copy_rule :
      (i limit : ℕ) (body : Body) (name bytes : Text) (s : Fs)
      → Writing old i name bytes s
      → Meets Safe (λ read. Writing old i name (bytes ++ read)) (copy_in os i limit body s)
  copy_rule i limit body name bytes s h =
      Meets-weaken Safe Safe
        (λ read t. Writing old i name (bytes ++ read) t × (read ≡ take limit body.bytes))
        (λ read. Writing old i name (bytes ++ read)) (λ e t u. u) (λ read t w. w.0)
        (copy_in os i limit body s) (copy_in_rule old os i limit body name bytes s h)

  copy_prefix_rule :
      (i : ℕ) (name prev : Text) (n : ℕ) (s : Fs)
      → Writing old i name [] s
      → Meets Safe (λ kept. Writing old i name kept) (copy_prefix os i prev n s)
  unfolding copy_prefix
  copy_prefix_rule i name prev n s h =
      Meets-bind Safe (λ b. Writing old i name []) (λ kept. Writing old i name kept)
        (on_err stuck (read_file os prev)) after_read s
        (Meets-on_err Safe (λ b. Writing old i name []) stuck (read_file os prev s)
          (Meets-weaken (λ e. Writing old i name []) Safe (λ b. Writing old i name [])
            (λ b. Writing old i name []) (λ e t w. w.rest) (λ b t w. w) (read_file os prev s)
            (read_file_keeps old os (Writing old i name []) prev s
              (Writing-tick old os i name [] s h))))
        after_read_rule
    where
      after_read : Text → Action Fs StageError Text
      after_read bytes =
          on_err stuck (copy_in os i n (record { bytes = bytes; broken = false })) >>= λ kept.
          lift (whole_prefix n kept)

      after_read_rule :
          (bytes : Text) (t : Fs)
          → Writing old i name [] t
          → Meets Safe (λ kept. Writing old i name kept) (after_read bytes t)
      after_read_rule bytes t w =
          Meets-bind Safe (λ kept. Writing old i name kept) (λ kept. Writing old i name kept)
            (on_err stuck (copy_in os i n (record { bytes = bytes; broken = false })))
            (λ kept. lift (whole_prefix n kept)) t
            (Meets-on_err Safe (λ kept. Writing old i name kept) stuck
              (copy_in os i n (record { bytes = bytes; broken = false }) t)
              (copy_rule i n (record { bytes = bytes; broken = false }) name [] t w))
            (λ kept u v.
              Meets-choose Safe (λ all. Writing old i name all) (length kept == n) kept
                (discard_prefix (shrank (length kept))) u (λ _. v) (λ _. v.rest))

  refill_rule :
      (i : ℕ) (p : PrefixFiles) (f : File) (n : ℕ) (rest : Body) (s : Fs)
      → (p.prev == p.content) ≡ false
      → Writing old i p.content [] s
      → Meets Safe (λ all. Writing old i p.content all) (refill os i p f n rest s)
  unfolding refill
  refill_rule i p f n rest s ne h =
      Meets-bind Safe (λ kept. Writing old i p.content kept) (λ all. Writing old i p.content all)
        (copy_prefix os i p.prev n) after_prefix s (copy_prefix_rule i p.content p.prev n s h)
        (λ kept t w.
          Meets-bind Safe (λ _. Writing old i p.content kept) (λ all. Writing old i p.content all)
            (on_err stuck (remove os p.prev)) (λ _. after_remove kept) t
            (Meets-on_err Safe (λ _. Writing old i p.content kept) stuck (remove os p.prev t)
              (Meets-weaken (λ e. Writing old i p.content kept) Safe
                (λ _. Writing old i p.content kept) (λ _. Writing old i p.content kept)
                (λ e u v. v.rest) (λ _ u v. v) (remove os p.prev t)
                (remove_rule old os i p.prev p.content kept t ne w)))
            (λ _ u v.
              Meets-bind Safe (λ got. Writing old i p.content (kept ++ got))
                (λ all. Writing old i p.content all)
                (on_err io (copy_in os i (limit_from (f.size -ℤ pos n) (pos 1)) rest))
                (λ got. pure (kept ++ got)) u
                (Meets-on_err Safe (λ got. Writing old i p.content (kept ++ got)) io
                  (copy_in os i (limit_from (f.size -ℤ pos n) (pos 1)) rest u)
                  (copy_rule i (limit_from (f.size -ℤ pos n) (pos 1)) rest p.content kept u v))
                (λ got x y. y)))
    where
      after_remove : Text → Action Fs StageError Text
      after_remove kept =
          on_err io (copy_in os i (limit_from (f.size -ℤ pos n) (pos 1)) rest) >>= λ got.
          pure (kept ++ got)

      after_prefix : Text → Action Fs StageError Text
      after_prefix kept = on_err stuck (remove os p.prev) >> after_remove kept

  module _ (sha256_hex : Text → Text) (windows : Bool) where
    install_rule :
        (f : File) (i : ℕ) (p : PrefixFiles) (dst bytes : Text) (mode : ℕ) (s : Fs)
        → (p.info == dst) ≡ false
        → (pos (length bytes) ≡ f.size) × (sha256_hex bytes ≡ f.sha256)
        → Writing old i p.content bytes s
        → Meets Safe (Stages old os sha256_hex windows f dst mode) (install os windows p dst mode s)
    unfolding install
    install_rule f i p dst bytes mode s ne fit h =
        Meets-bind Safe (λ _. Writing old i dst bytes) (Stages old os sha256_hex windows f dst mode)
          (on_err stuck (rename os p.content dst))
          (λ _. remove_quietly os p.info >> chmod os windows dst mode) s
          (Meets-on_err Safe (λ _. Writing old i dst bytes) stuck (rename os p.content dst s)
            (rename_rule old os i p.content dst bytes s h))
          (λ _ t w.
            chmod_rule old os sha256_hex windows f i dst bytes mode (remove os p.info t).1 fit
              (either (remove os p.info t) (remove_rule old os i p.info dst bytes t ne w)))
      where
        either :
            (x : Result FileError (Unit {0}) × Fs)
            → Meets (λ e. Writing old i dst bytes) (λ _. Writing old i dst bytes) x
            → Writing old i dst bytes x.1
        either (ok _, t) w = w
        either (err e, t) w = w

    -- The bytes are checked, and installed if they are the entry's.
    pub settle_rule :
        (f : File) (i : ℕ) (p : PrefixFiles) (dst bytes : Text) (mode : ℕ)
        (check : Result StageError (Unit {0}) → Action Fs StageError (Unit {0})) (s : Fs)
        → (p.info == dst) ≡ false
        → Writing old i p.content bytes s
        → (check (ok tt) s ≡ (ok tt, s))
        → ((e : StageError) → Meets Safe (λ _ t. true ≡ false) (check (err e) s))
        → Meets Safe
            (Stages old os sha256_hex windows f dst mode)
            ((check (check_staged sha256_hex f bytes) >> install os windows p dst mode) s)
    settle_rule f i p dst bytes mode check s ne w passes fails =
        go (check_staged sha256_hex f bytes) refl
      where
        go :
            (r : Result StageError (Unit {0}))
            → check_staged sha256_hex f bytes ≡ r
            → Meets Safe
                (Stages old os sha256_hex windows f dst mode)
                ((check r >> install os windows p dst mode) s)
        go (ok _) e =
            Meets-bind Safe (λ _. Writing old i p.content bytes)
              (Stages old os sha256_hex windows f dst mode) (check (ok tt))
              (λ _. install os windows p dst mode) s
              (subst (Meets Safe (λ _. Writing old i p.content bytes)) (sym passes) w)
              (λ _ t v.
                install_rule f i p dst bytes mode t ne
                  (check_staged_sound old os sha256_hex windows f bytes e) v)
        go (err x) e =
            Meets-bind Safe (λ _ t. true ≡ false) (Stages old os sha256_hex windows f dst mode)
              (check (err x)) (λ _. install os windows p dst mode) s (fails x) (λ _ t no. absurd cc)

    pub extend_rule :
        (p : PrefixFiles) (f : File) (n : ℕ) (rest : Body) (dst : Text) (mode : ℕ) (s : Fs)
        → IsApart p dst
        → Untouched old s
        → Meets Safe
            (Stages old os sha256_hex windows f dst mode)
            (extend os sha256_hex windows p f n rest dst mode s)
    unfolding extend create_data
    extend_rule p f n rest dst mode s apart h =
        Meets-bind Safe Safe (Stages old os sha256_hex windows f dst mode)
          (on_err stuck (rename os p.content p.prev)) (λ _. after_rename) s
          (Meets-on_err Safe Safe stuck (rename os p.content p.prev s)
            (rename_keeps old os p.content p.prev s h))
          (λ _ t u.
            Meets-bind Safe (λ i. Writing old i p.content [])
              (Stages old os sha256_hex windows f dst mode)
              (on_err stuck (create os p.content (owner_writable mode))) after_create t
              (Meets-on_err Safe (λ i. Writing old i p.content []) stuck
                (create os p.content (owner_writable mode) t)
                (create_rule old os p.content (owner_writable mode) t u))
              (λ i v w.
                Meets-bind Safe (λ all. Writing old i p.content all)
                  (Stages old os sha256_hex windows f dst mode)
                  (closing os (refill os i p f n rest)) after_refill v
                  (closing_rule old os (λ all. Writing old i p.content all) (refill os i p f n rest)
                    v (λ all. Writing-tick old os i p.content all) (λ all x y. y.rest)
                    (refill_rule i p f n rest v apart.previous w))
                  (λ all x y.
                    settle_rule f i p dst all mode (λ r. lift (discarding r)) x apart.beside y refl
                      (λ e. y.rest))))
      where
        after_refill : Text → Action Fs StageError (Unit {0})
        after_refill all =
            lift (discarding (check_staged sha256_hex f all)) >> install os windows p dst mode

        after_create : ℕ → Action Fs StageError (Unit {0})
        after_create i = closing os (refill os i p f n rest) >>= after_refill

        after_rename : Action Fs StageError (Unit {0})
        after_rename = on_err stuck (create os p.content (owner_writable mode)) >>= after_create
