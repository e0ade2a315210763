-- ===== src/Pull/Files/Names.antt =====
-- What the calls on names leave as it was, and what they make.
use pinsync.Base.{
  false, not, ◌≡◌, refl, sym, ◌∙◌, subst, Option, none, some, ℕ, ◌+◌, if◌then◌else◌, ok, err, ◌==◌,
  nat_eq, list_eq, eq_refl,
}
use pinsync.Base.Action.{Meets, Meets-if}
use pinsync.Base.Dict.{get, put, erase, get-put, get-erase}
use pinsync.Base.Text.{Text}
use pinsync.Pull.Files.Rules.{
  Untouched, Untouched-names, Writing, Writing-names, Writing-store_inode,
}
use pinsync.Pull.Files.{
  Inode, Fs, Calls, FileError, missing, present, failed, tick, has_name, store_inode, find,
  read_inode, rename_inode, link_inode, chmod_inode, set_mode, read_file, make_dirs, rename,
  link_file, remove, chmod_file,
}

module _ (old : Fs) (os : Calls) where
  pub read_file_keeps :
      (P : Fs → Type 0) (name : Text) (s : Fs)
      → P (tick s)
      → Meets (λ e. P) (λ read. P) (read_file os name s)
  unfolding read_file
  read_file_keeps P name s h =
      Meets-if (λ e. P) (λ read. P) (os.fails s.calls) (err (failed s.calls), tick s)
        (read_inode name (find name s) s) (λ _. h) (λ _. at_inode (find name s))
    where
      at_inode : (o : Option Inode) → Meets (λ e. P) (λ read. P) (read_inode name o s)
      at_inode none = h
      at_inode (some nd) = h

  pub make_dirs_rule :
      (s : Fs) → Untouched old s → Meets (λ e. Untouched old) (λ r. Untouched old) (make_dirs os s)
  unfolding make_dirs
  make_dirs_rule s h =
      Meets-if (λ e. Untouched old) (λ r. Untouched old) (os.fails s.calls)
        (err (failed s.calls), tick s) (ok tt, tick s)
        (λ _. Untouched-names old s.names (s.calls + 1) s h)
        (λ _. Untouched-names old s.names (s.calls + 1) s h)

  pub remove_keeps :
      (P : Fs → Type 0) (name : Text) (s : Fs)
      → P (tick s)
      → P (record s { names = erase s.names name; calls = s.calls + 1 })
      → Meets (λ e. P) (λ r. P) (remove os name s)
  unfolding remove
  remove_keeps P name s p q =
      Meets-if (λ e. P) (λ r. P) (not (has_name name s)) (err (missing name), tick s)
        (if os.fails s.calls
          then (err (failed s.calls), tick s)
          else (ok tt, record s { names = erase s.names name; calls = s.calls + 1 }))
        (λ _. p)
        (λ _.
          Meets-if (λ e. P) (λ r. P) (os.fails s.calls) (err (failed s.calls), tick s)
            (ok tt, record s { names = erase s.names name; calls = s.calls + 1 }) (λ _. p) (λ _. q))

  -- Removing another name.
  pub remove_rule :
      (i : ℕ) (other name bytes : Text) (s : Fs)
      → (other == name) ≡ false
      → Writing old i name bytes s
      → Meets (λ e. Writing old i name bytes) (λ r. Writing old i name bytes) (remove os other s)
  remove_rule i other name bytes s ne h =
      remove_keeps (Writing old i name bytes) other s
        (Writing-names old i name name bytes s.names (s.calls + 1) s h h.named)
        (Writing-names old i name name bytes (erase s.names other) (s.calls + 1) s h
          (get-erase s.names other name ∙ rw ne h.named))

  pub rename_keeps :
      (from to : Text) (s : Fs)
      → Untouched old s
      → Meets (λ e. Untouched old) (λ r. Untouched old) (rename os from to s)
  unfolding rename
  rename_keeps from to s h =
      Meets-if (λ e. Untouched old) (λ r. Untouched old) (os.fails s.calls)
        (err (failed s.calls), tick s) (rename_inode from to (get s.names from) s)
        (λ _. Untouched-names old s.names (s.calls + 1) s h) (λ _. at_name (get s.names from))
    where
      at_name :
          (o : Option ℕ)
          → Meets (λ e. Untouched old) (λ r. Untouched old) (rename_inode from to o s)
      at_name none = Untouched-names old s.names (s.calls + 1) s h
      at_name (some i) = Untouched-names old (put (erase s.names from) to i) (s.calls + 1) s h

  pub rename_rule :
      (i : ℕ) (from to bytes : Text) (s : Fs)
      → Writing old i from bytes s
      → Meets (λ e. Untouched old) (λ r. Writing old i to bytes) (rename os from to s)
  unfolding rename
  rename_rule i from to bytes s h =
      Meets-if (λ e. Untouched old) (λ r. Writing old i to bytes) (os.fails s.calls)
        (err (failed s.calls), tick s) (rename_inode from to (get s.names from) s)
        (λ _. Untouched-names old s.names (s.calls + 1) s h.rest)
        (λ _.
          subst
            (λ o.
              Meets (λ e. Untouched old) (λ r. Writing old i to bytes) (rename_inode from to o s))
            (sym h.named)
            (Writing-names old i from to bytes (put (erase s.names from) to i) (s.calls + 1) s h
              (get-put (erase s.names from) to to i ∙ rw (eq_refl to) refl)))

  pub link_file_keeps :
      (from to : Text) (s : Fs)
      → Untouched old s
      → Meets (λ e. Untouched old) (λ r. Untouched old) (link_file os from to s)
  unfolding link_file
  link_file_keeps from to s h =
      Meets-if (λ e. Untouched old) (λ r. Untouched old) (os.fails s.calls)
        (err (failed s.calls), tick s)
        (if has_name to s
          then (err (present to), tick s)
          else link_inode from to (get s.names from) s)
        (λ _. idle)
        (λ _.
          Meets-if (λ e. Untouched old) (λ r. Untouched old) (has_name to s)
            (err (present to), tick s) (link_inode from to (get s.names from) s) (λ _. idle)
            (λ _. at_name (get s.names from)))
    where
      idle : Untouched old (tick s)
      idle = Untouched-names old s.names (s.calls + 1) s h

      at_name :
          (o : Option ℕ) → Meets (λ e. Untouched old) (λ r. Untouched old) (link_inode from to o s)
      at_name none = idle
      at_name (some i) = Untouched-names old (put s.names to i) (s.calls + 1) s h

  -- A mode that is set on a file of one's own.
  pub chmod_file_rule :
      (i : ℕ) (name bytes : Text) (mode : ℕ) (s : Fs)
      → Writing old i name bytes s
      → Meets
          (λ e. Writing old i name bytes)
          (λ r t.
            Writing old i name bytes t
            × (nd : Inode) × (get t.inodes i ≡ some nd)
            × (nd.mode ≡ mode))
          (chmod_file os name mode s)
  unfolding chmod_file
  chmod_file_rule i name bytes mode s h =
      Meets-if P Q (os.fails s.calls) (err (failed s.calls), tick s)
        (chmod_inode name mode (get s.names name) s)
        (λ _. Writing-names old i name name bytes s.names (s.calls + 1) s h h.named)
        (λ _.
          subst (λ o. Meets P Q (chmod_inode name mode o s)) (sym h.named)
            (subst (λ o. Meets P Q (ok tt, set_mode i mode o s)) (sym h.made.here)
              (
                subst (λ b. Writing old i name b (store_inode i nd s)) h.made.holds
                    (Writing-store_inode old i name bytes nd s h),
                nd,
                get-put s.inodes i i nd ∙ rw (eq_refl i) refl,
                refl,
              )))
    where
      nd : Inode
      nd = record h.made.inode { mode = mode }

      P : FileError → Fs → Type 0
      P e = Writing old i name bytes

      Q : Unit {0} → Fs → Type 0
      Q r t =
          Writing old i name bytes t × (nd : Inode) × (get t.inodes i ≡ some nd) × (nd.mode ≡ mode)
