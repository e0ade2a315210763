-- ===== src/Pull/Write/Laws.antt =====
-- What is staged has the manifest's bytes, and no file that was there before is written to
-- (`writeVerified`, `copyFile` and `linkOrCopy` of pkg/pull/stage.go).
use pinsync.Base.{
  Bool, true, false, ◌≡◌, refl, sym, ap, ◌∙◌, subst, [], some, ℕ, ◌+◌, ◌≤◌, arith, if◌then◌else◌,
  Result, ok, err, ◌==◌, nat_eq, list_eq, length, take, Bool-cases, inl, inr, eq_iff,
}
use pinsync.Base.Action.{
  Action, pure, lift, on_err, ◌>>=◌, ◌>>◌, Meets, Meets-bind, Meets-if, Meets-on_err, Meets-weaken,
}
use pinsync.Base.Dict.{get}
use pinsync.Base.Int.{ℤ, pos, negsuc, ltb_ℤ}
use pinsync.Base.Text.{Text}
use pinsync.Manifest.Entry.{File}
use pinsync.Store.{Body}
use pinsync.Pull.Files.{
  Inode, Fs, Calls, FileError, tick, create, copy_in, close, read_file, link_file, chmod_file,
}
use pinsync.Pull.Files.Rules.{
  Untouched, Untouched-names, Writing, Writing-names, create_rule, copy_in_rule,
}
use pinsync.Pull.Files.Names.{read_file_keeps, link_file_keeps, chmod_file_rule}
use pinsync.Pull.Write.{
  StageError, io, limit_from, prefer, closing, check_staged, chmod, chmod_result, write_verified,
  copy_file, or_copy, link_or_copy,
}

-- The name stands for a file that `old` did not have, with the entry's size and digest and, off
-- Windows, its mode.
pub record IsStaged (sha256_hex : Text → Text) (windows : Bool) (old : Fs) (f : File) (dst : Text)
    (mode : ℕ) (s : Fs) : Type 0 where
  pub inode : ℕ
  pub unused : old.fresh ≤ inode
  pub named : get s.names dst ≡ some inode
  pub file : Inode
  pub here : get s.inodes inode ≡ some file
  pub size : pos (length file.bytes) ≡ f.size
  pub digest : sha256_hex file.bytes ≡ f.sha256
  pub perm : windows ≡ false → file.mode ≡ mode

same_size :
    (n : ℕ) (size : ℤ) → ltb_ℤ size (pos n) ≡ false → ltb_ℤ (pos n) size ≡ false → pos n ≡ size
same_size n (pos m) h k = ap pos (ground arith)
same_size n (negsuc m) h k = absurd (ground arith)

module _ (old : Fs) (os : Calls) where
  pub Untouched-tick : (s : Fs) → Untouched old s → Untouched old (tick s)
  Untouched-tick s h = Untouched-names old s.names (s.calls + 1) s h

  pub Writing-tick :
      (i : ℕ) (name bytes : Text) (s : Fs)
      → Writing old i name bytes s
      → Writing old i name bytes (tick s)
  Writing-tick i name bytes s h =
      Writing-names old i name name bytes s.names (s.calls + 1) s h h.named

  close-tick : (s : Fs) → (close os s).1 ≡ tick s
  unfolding close
  close-tick s = elim (Bool-cases (os.fails s.calls)) [ inl e ↦ rw e refl | inr e ↦ rw e refl ]

  pub closing_rule :
      {A : Type 0} (Q : A → Fs → Type 0) (m : Action Fs StageError A) (s : Fs)
      → ((a : A) (t : Fs) → Q a t → Q a (tick t))
      → ((a : A) (t : Fs) → Q a t → Untouched old t)
      → Meets (λ e. Untouched old) Q (m s)
      → Meets (λ e. Untouched old) Q (closing os m s)
  closing_rule {A} Q m s up down h = go (m s) h
    where
      done :
          (r : Result StageError A) (t : Fs)
          → Meets (λ e. Untouched old) Q (r, tick t)
          → Untouched old (tick t)
          → (x : Result FileError (Unit {0}) × Fs) → x.1 ≡ tick t
          → Meets (λ e. Untouched old) Q (prefer r x.0, x.1)
      done (ok a) t h u (ok _, t') e = subst (Q a) (sym e) h
      done (ok a) t h u (err _, t') e = subst (Untouched old) (sym e) u
      done (err b) t h u (r, t') e = subst (Untouched old) (sym e) h

      go :
          (x : Result StageError A × Fs)
          → Meets (λ e. Untouched old) Q x
          → Meets (λ e. Untouched old) Q (prefer x.0 (close os x.1).0, (close os x.1).1)
      go (ok a, t) q =
          done (ok a) t (up a t q) (Untouched-tick t (down a t q)) (close os t) (close-tick t)
      go (err b, t) u =
          done (err b) t (Untouched-tick t u) (Untouched-tick t u) (close os t) (close-tick t)

  module _ (sha256_hex : Text → Text) (windows : Bool) where
    pub check_staged_sound :
        (f : File) (staged : Text)
        → check_staged sha256_hex f staged ≡ ok tt
        → (pos (length staged) ≡ f.size) × (sha256_hex staged ≡ f.sha256)
    unfolding check_staged
    check_staged_sound f staged h = elim (Bool-cases (ltb_ℤ f.size (pos (length staged)))) [
      | inl e ↦ absurd (cc (rw e at h))
      | inr e ↦ elim (Bool-cases (ltb_ℤ (pos (length staged)) f.size)) [
        | inl e2 ↦ absurd (cc (rw (e, e2) at h))
        | inr e2 ↦ elim (Bool-cases (sha256_hex staged == f.sha256)) [
          | inl e3 ↦
              (same_size (length staged) f.size e e2, (eq_iff (sha256_hex staged) f.sha256).0 e3)
          | inr e3 ↦ absurd (cc (rw (e, e2, e3) at h))
        ]
      ]
    ]

    IsStaged-now :
        (f : File) (i : ℕ) (dst bytes : Text) (mode : ℕ) (s : Fs)
        → (pos (length bytes) ≡ f.size) × (sha256_hex bytes ≡ f.sha256)
        → (h : Writing old i dst bytes s)
        → (windows ≡ false → (nd : Inode) × (get s.inodes i ≡ some nd) × (nd.mode ≡ mode))
        → IsStaged sha256_hex windows old f dst mode s
    IsStaged-now f i dst bytes mode s fits h perm = record {
      inode = i;
      unused = h.made.unused;
      named = h.named;
      file = h.made.inode;
      here = h.made.here;
      size = ap (λ b. pos (length b)) h.made.holds ∙ fits.0;
      digest = ap sha256_hex h.made.holds ∙ fits.1;
      perm = λ w.
          let (nd, e, m) = perm w in
          let same : h.made.inode ≡ nd = cc (h.made.here, e) in ap (λ (x : Inode). x.mode) same ∙ m;
    }

    abbrev pub Stages : File → Text → ℕ → Unit {0} → Fs → Type 0
    Stages f dst mode r t = Untouched old t × IsStaged sha256_hex windows old f dst mode t

    -- The last step of every way to stage: the entry's mode.
    pub chmod_rule :
        (f : File) (i : ℕ) (dst bytes : Text) (mode : ℕ) (s : Fs)
        → (pos (length bytes) ≡ f.size) × (sha256_hex bytes ≡ f.sha256)
        → Writing old i dst bytes s
        → Meets (λ e. Untouched old) (Stages f dst mode) (chmod os windows dst mode s)
    unfolding chmod
    chmod_rule f i dst bytes mode s fits h =
        go (chmod_file os dst mode s) (chmod_file_rule old os i dst bytes mode s h)
      where
        go :
            (x : Result FileError (Unit {0}) × Fs)
            → Meets
                (λ e. Writing old i dst bytes)
                (λ r t.
                  Writing old i dst bytes t
                  × (nd : Inode) × (get t.inodes i ≡ some nd)
                  × (nd.mode ≡ mode))
                x
            → Meets (λ e. Untouched old) (Stages f dst mode) (chmod_result windows x.0, x.1)
        go (ok _, t) (w, nd, e, m) =
            (w.rest, IsStaged-now f i dst bytes mode t fits w (λ _. (nd, e, m)))
        go (err x, t) w = chosen windows refl
          where
            chosen :
                (b : Bool)
                → windows ≡ b
                → Meets
                    (λ e. Untouched old)
                    (Stages f dst mode)
                    (if b then ok tt else err (io x), t)
            chosen true e = (w.rest, IsStaged-now f i dst bytes mode t fits w (λ no. absurd cc))
            chosen false e = w.rest

    pub write_verified_rule :
        (body : Body) (f : File) (dst : Text) (mode : ℕ) (s : Fs)
        → Untouched old s
        → Meets
            (λ e. Untouched old)
            (Stages f dst mode)
            (write_verified os sha256_hex windows body f dst mode s)
    unfolding write_verified
    write_verified_rule body f dst mode s h =
        Meets-bind (λ e. Untouched old) (λ i. Writing old i dst []) (Stages f dst mode)
          (on_err io (create os dst mode)) after_create s
          (Meets-on_err (λ e. Untouched old) (λ i. Writing old i dst []) io (create os dst mode s)
            (create_rule old os dst mode s h))
          (λ i t w.
            Meets-bind (λ e. Untouched old) (λ b. Writing old i dst b) (Stages f dst mode)
              (closing os (on_err io (copy_in os i (limit_from f.size (pos 1)) body))) after_copy t
              (closing_rule (λ b. Writing old i dst b)
                (on_err io (copy_in os i (limit_from f.size (pos 1)) body)) t
                (λ b u v. Writing-tick i dst b u v) (λ b u v. v.rest)
                (Meets-on_err (λ e. Untouched old) (λ b. Writing old i dst b) io
                  (copy_in os i (limit_from f.size (pos 1)) body t)
                  (Meets-weaken (λ e. Untouched old) (λ e. Untouched old)
                    (λ b u.
                      Writing old i dst b u × (b ≡ take (limit_from f.size (pos 1)) body.bytes))
                    (λ b. Writing old i dst b) (λ e u v. v) (λ b u v. v.0)
                    (copy_in os i (limit_from f.size (pos 1)) body t)
                    (copy_in_rule old os i (limit_from f.size (pos 1)) body dst [] t w))))
              (λ b u v. checked i b u v (check_staged sha256_hex f b) refl))
      where
        after_copy : Text → Action Fs StageError (Unit {0})
        after_copy b = lift (check_staged sha256_hex f b) >> chmod os windows dst mode

        after_create : ℕ → Action Fs StageError (Unit {0})
        after_create i =
            closing os (on_err io (copy_in os i (limit_from f.size (pos 1)) body)) >>= after_copy

        checked :
            (i : ℕ) (b : Text) (u : Fs)
            → Writing old i dst b u
            → (r : Result StageError (Unit {0})) → check_staged sha256_hex f b ≡ r
            → Meets
                (λ e. Untouched old)
                (Stages f dst mode)
                ((lift r >> chmod os windows dst mode) u)
        checked i b u v (ok _) e = chmod_rule f i dst b mode u (check_staged_sound f b e) v
        checked i b u v (err x) e = v.rest

    pub copy_file_rule :
        (src : Text) (f : File) (dst : Text) (mode : ℕ) (s : Fs)
        → Untouched old s
        → Meets
            (λ e. Untouched old)
            (Stages f dst mode)
            (copy_file os sha256_hex windows src f dst mode s)
    unfolding copy_file
    copy_file_rule src f dst mode s h =
        Meets-bind (λ e. Untouched old) (λ b. Untouched old) (Stages f dst mode)
          (on_err io (read_file os src))
          (λ b.
            write_verified os sha256_hex windows (record { bytes = b; broken = false }) f dst mode)
          s
          (Meets-on_err (λ e. Untouched old) (λ b. Untouched old) io (read_file os src s)
            (read_file_keeps s os (Untouched old) src s (Untouched-tick s h)))
          (λ b t u. write_verified_rule (record { bytes = b; broken = false }) f dst mode t u)

    -- A hard link writes to no file, and a copy to none that was there.
    pub link_or_copy_rule :
        (src : Text) (f : File) (mode : ℕ) (dst : Text) (copy_only : Bool) (s : Fs)
        → Untouched old s
        → Meets
            (λ e. Untouched old)
            (λ linked. Untouched old)
            (link_or_copy os sha256_hex windows src f mode dst copy_only s)
    unfolding link_or_copy
    link_or_copy_rule src f mode dst copy_only s h =
        Meets-if (λ e. Untouched old) (λ linked. Untouched old) copy_only (copied s)
          (or_copy os sha256_hex windows copied (link_file os src dst s)) (λ _. copies s h)
          (λ _. linked (link_file os src dst s) (link_file_keeps old os src dst s h))
      where
        copied : Action Fs StageError Bool
        copied = copy_file os sha256_hex windows src f dst mode >> pure false

        copies :
            (t : Fs)
            → Untouched old t
            → Meets (λ e. Untouched old) (λ linked. Untouched old) (copied t)
        copies t u =
            Meets-bind (λ e. Untouched old) (Stages f dst mode) (λ linked. Untouched old)
              (copy_file os sha256_hex windows src f dst mode) (λ _. pure false) t
              (copy_file_rule src f dst mode t u) (λ _ v q. q.0)

        linked :
            (x : Result FileError (Unit {0}) × Fs)
            → Meets (λ e. Untouched old) (λ _. Untouched old) x
            → Meets
                (λ e. Untouched old)
                (λ linked. Untouched old)
                (or_copy os sha256_hex windows copied x)
        linked (ok _, t) u = u
        linked (err e, t) u = copies t u
