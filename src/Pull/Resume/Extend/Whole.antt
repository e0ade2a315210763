-- ===== src/Pull/Resume/Extend/Whole.antt =====
-- A whole download that a later pull could continue (`writeInfo`, `fetchWhole` of pkg/pull/resume.go).
use pinsync.Base.{
  Bool, true, false, ◌≡◌, refl, [], ◌++◌, ℕ, if◌then◌else◌, Result, ok, err, ◌==◌, nat_eq, list_eq,
  length,
}
use pinsync.Base.Action.{Action, on_err, ◌>>=◌, ◌>>◌, Meets, Meets-bind, Meets-on_err}
use pinsync.Base.Int.{pos}
use pinsync.Base.Text.{Text}
use pinsync.Manifest.Entry.{File}
use pinsync.Store.{GetOutput}
use pinsync.Pull.Files.{Fs, Calls, FileError, create, copy_in, close, rename}
use pinsync.Pull.Files.Rules.{Untouched, Writing, create_rule, close_rule}
use pinsync.Pull.Files.Names.{rename_keeps}
use pinsync.Pull.Write.{StageError, io, stuck, limit_from, closing, check_staged, write_verified}
use pinsync.Pull.Write.Laws.{
  Untouched-tick, Writing-tick, closing_rule, Stages, write_verified_rule,
}
use pinsync.Pull.Resume.Prefix.{
  PrefixInfo, Sidecar, PrefixFiles, info_tmp, remove_old, discard, closed_write, write_closed,
  write_info, create_data, owner_writable, install,
}
use pinsync.Pull.Resume.Extend.{discard_after, info_of, keep_whole}
use pinsync.Pull.Resume.Extend.Laws.{Safe, copy_rule, remove_old_rule, discard_rule, settle_rule}

module _ (old : Fs) (os : Calls) where
  write_closed_rule :
      (i : ℕ) (name raw : Text) (s : Fs)
      → Writing old i name [] s
      → Meets (Safe old os) (Safe old os) (write_closed os i raw s)
  write_closed_rule i name raw s h =
      go (copy_in os i (length raw) (record { bytes = raw; broken = false }) s)
        (copy_rule old os i (length raw) (record { bytes = raw; broken = false }) name [] s h)
    where
      closes : (t : Fs) → Untouched old t → Meets (Safe old os) (Safe old os) (close os t)
      closes t u =
          close_rule old os (Safe old os) (Safe old os) t (λ e. Untouched-tick old os t u)
            (Untouched-tick old os t u)

      after :
          (x : Result FileError (Unit {0}) × Fs)
          → Meets (Safe old os) (Safe old os) x
          → Untouched old x.1
      after (ok _, t) u = u
      after (err e, t) u = u

      go :
          (x : Result FileError Text × Fs)
          → Meets (Safe old os) (λ read. Writing old i name ([] ++ read)) x
          → Meets (Safe old os) (Safe old os) (closed_write os x)
      go (ok read, t) w = closes t w.rest
      go (err e, t) u = after (close os t) (closes t u)

  write_info_rule :
      (sidecar : Sidecar) (p : PrefixFiles) (info : PrefixInfo) (s : Fs)
      → Untouched old s
      → Meets (Safe old os) (Safe old os) (write_info os sidecar p info s)
  unfolding write_info
  write_info_rule sidecar p info s h =
      Meets-bind (Safe old os) (Safe old os) (Safe old os) (remove_old os (info_tmp p))
        (λ _. after_remove) s (remove_old_rule old os (info_tmp p) s h)
        (λ _ t u.
          Meets-bind (Safe old os) (λ i. Writing old i (info_tmp p) []) (Safe old os)
            (create os (info_tmp p) 420) after_create t (create_rule old os (info_tmp p) 420 t u)
            (λ i v w.
              Meets-bind (Safe old os) (Safe old os) (Safe old os)
                (write_closed os i (sidecar.write info)) (λ _. rename os (info_tmp p) p.info) v
                (write_closed_rule i (info_tmp p) (sidecar.write info) v w)
                (λ _ x y. rename_keeps old os (info_tmp p) p.info x y)))
    where
      after_create : ℕ → Action Fs FileError (Unit {0})
      after_create i = write_closed os i (sidecar.write info) >> rename os (info_tmp p) p.info

      after_remove : Action Fs FileError (Unit {0})
      after_remove = create os (info_tmp p) 420 >>= after_create

  module _ (sha256_hex : Text → Text) (windows : Bool) where
    pub keep_whole_rule :
        (sidecar : Sidecar) (p : PrefixFiles) (f : File) (out : GetOutput) (dst : Text) (mode : ℕ)
        (s : Fs)
        → (p.info == dst) ≡ false
        → Untouched old s
        → Meets
            (Safe old os)
            (Stages old os sha256_hex windows f dst mode)
            (keep_whole os sha256_hex windows sidecar p f out dst mode s)
    unfolding keep_whole create_data
    keep_whole_rule sidecar p f out dst mode s ne h = choose (out.etag == [])
      where
        copied : ℕ → Action Fs StageError Text
        copied i = on_err io (copy_in os i (limit_from f.size (pos 1)) out.body)

        after_copy : Text → Action Fs StageError (Unit {0})
        after_copy all =
            discard_after os p (check_staged sha256_hex f all) >> install os windows p dst mode

        after_create : ℕ → Action Fs StageError (Unit {0})
        after_create i = closing os (copied i) >>= after_copy

        after_info : Action Fs StageError (Unit {0})
        after_info = on_err stuck (create os p.content (owner_writable mode)) >>= after_create

        kept : Action Fs StageError (Unit {0})
        kept = on_err stuck (write_info os sidecar p (info_of f out)) >> after_info

        discards :
            (i : ℕ) (all : Text) (t : Fs)
            → Writing old i p.content all t
            → (e : StageError)
            → Meets (Safe old os) (λ _ u. true ≡ false) (discard_after os p (err e) t)
        discards i all t w e = after (discard os p t) (discard_rule old os p t w.rest)
          where
            after :
                (x : Result FileError (Unit {0}) × Fs)
                → Meets (Safe old os) (Safe old os) x
                → Untouched old x.1
            after (ok _, t) u = u
            after (err e, t) u = u

        keeps : Meets (Safe old os) (Stages old os sha256_hex windows f dst mode) (kept s)
        keeps =
            Meets-bind (Safe old os) (Safe old os) (Stages old os sha256_hex windows f dst mode)
              (on_err stuck (write_info os sidecar p (info_of f out))) (λ _. after_info) s
              (Meets-on_err (Safe old os) (Safe old os) stuck
                (write_info os sidecar p (info_of f out) s)
                (write_info_rule sidecar p (info_of f out) s h))
              (λ _ t u.
                Meets-bind (Safe old os) (λ i. Writing old i p.content [])
                  (Stages old os sha256_hex windows f dst mode)
                  (on_err stuck (create os p.content (owner_writable mode))) after_create t
                  (Meets-on_err (Safe old os) (λ i. Writing old i p.content []) stuck
                    (create os p.content (owner_writable mode) t)
                    (create_rule old os p.content (owner_writable mode) t u))
                  (λ i v w.
                    Meets-bind (Safe old os) (λ all. Writing old i p.content all)
                      (Stages old os sha256_hex windows f dst mode) (closing os (copied i))
                      after_copy v
                      (closing_rule old os (λ all. Writing old i p.content all) (copied i) v
                        (λ all. Writing-tick old os i p.content all) (λ all x y. y.rest)
                        (Meets-on_err (Safe old os) (λ all. Writing old i p.content all) io
                          (copy_in os i (limit_from f.size (pos 1)) out.body v)
                          (copy_rule old os i (limit_from f.size (pos 1)) out.body p.content [] v
                            w)))
                      (λ all x y.
                        settle_rule old os sha256_hex windows f i p dst all mode
                          (discard_after os p) x ne y refl (discards i all x y))))

        choose :
            (b : Bool)
            → Meets
                (Safe old os)
                (Stages old os sha256_hex windows f dst mode)
                ((if b then write_verified os sha256_hex windows out.body f dst mode else kept) s)
        choose true = write_verified_rule old os sha256_hex windows out.body f dst mode s h
        choose false = keeps
