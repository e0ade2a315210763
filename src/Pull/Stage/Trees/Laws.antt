-- ===== src/Pull/Stage/Trees/Laws.antt =====
-- What is done to whole trees of names changes no file (pkg/pull/recover.go, resume.go, stage.go).
use pinsync.Base.{
  Bool, true, false, not, ◌&&◌, ◌||◌, List, [], ◌∷◌, ◌++◌, ℕ, ◌+◌, if◌then◌else◌, Result, ok, err,
  ◌==◌, nat_eq, list_eq, length, drop,
}
use pinsync.Base.Action.{◌>>◌, Meets, Meets-bind, Meets-if}
use pinsync.Base.Dict.{Dict, erase}
use pinsync.Base.Slash.{join_path}
use pinsync.Base.Text.{Text}
use pinsync.Pull.Classify.{key_eq, resume_dir}
use pinsync.Pull.Files.{Fs, Calls, FileError, failed, tick, has_name, make_dirs, rename, remove}
use pinsync.Pull.Files.Rules.{Untouched, Untouched-names}
use pinsync.Pull.Files.Names.{make_dirs_rule, remove_keeps, rename_keeps}
use pinsync.Pull.Jobs.{Job}
use pinsync.Pull.Resume.Prefix.{prefix_files_in, adopt_file, adopt_prefixes}
use pinsync.Pull.Write.Laws.{Untouched-tick}
use pinsync.Pull.Stage.Trees.{
  under, any_under, erase_under, names_of, with_names, remove_tree, drop_names, after_removal,
  release_partial, stash_names, after_mkdir, stash, removed_or, clear_resume_dir,
}

module _ (old : Fs) (os : Calls) where
  abbrev pub Safe {ℓ} : {E : Type ℓ} → E → Fs → Type 0
  Safe e = Untouched old

  remove_tree_rule :
      (root : Text) (s : Fs) → Untouched old s → Meets Safe Safe (remove_tree os root s)
  unfolding remove_tree
  remove_tree_rule root s h =
      Meets-if Safe Safe (os.fails s.calls)
        (err (failed s.calls), with_names (erase_under root (os.stays s.calls) s.names) s)
        (ok tt, with_names (erase_under root (λ n. false) s.names) s)
        (λ _. Untouched-names old (erase_under root (os.stays s.calls) s.names) (s.calls + 1) s h)
        (λ _. Untouched-names old (erase_under root (λ n. false) s.names) (s.calls + 1) s h)

  drop_names_rule :
      (root : Text) (names : Dict Text ℕ) (s : Fs)
      → Untouched old s
      → Meets Safe Safe (drop_names os root names s)
  unfolding drop_names
  drop_names_rule root [] s h = h
  drop_names_rule root ((n, i) ∷ names) s h =
      at_name (λ t u. drop_names_rule root names t u) (under root n)
        (not (os.fails s.calls) && names_of i s.names == 1)
    where
      at_name :
          ((t : Fs) → Untouched old t → Meets Safe Safe (drop_names os root names t))
          → (b sole : Bool)
          → Meets {S = Fs} {E = FileError} {A = Unit {0}} Safe Safe (elim b [
            | false ↦ drop_names os root names s
            | true ↦ elim sole [
              | true ↦ drop_names os root names (tick s)
              | false ↦ (remove os n >> drop_names os root names) (tick s)
            ]
          ])
      at_name rest false sole = rest s h
      at_name rest true true = rest (tick s) (Untouched-tick old os s h)
      at_name rest true false =
          let t = Untouched-tick old os s h in
          Meets-bind Safe Safe Safe (remove os n) (λ _. drop_names os root names) (tick s)
            (remove_keeps old os (Untouched old) n (tick s) (Untouched-tick old os (tick s) t)
              (Untouched-names old (erase s.names n) (s.calls + 1 + 1) (tick s) t))
            (λ _ u v. rest u v)

  pub release_partial_rule :
      (partial : Text) (s : Fs) → Untouched old s → Meets Safe Safe (release_partial os partial s)
  unfolding release_partial
  release_partial_rule partial s h = go (remove_tree os partial s) (remove_tree_rule partial s h)
    where
      go :
          (x : Result FileError (Unit {0}) × Fs)
          → Meets Safe Safe x
          → Meets Safe Safe (after_removal os partial x)
      go (ok _, t) u = u
      go (err e, t) u = drop_names_rule partial t.names t u

  state_of : {A : Type 0} (x : Result FileError A × Fs) → Meets Safe Safe x → Untouched old x.1
  state_of (ok a, t) u = u
  state_of (err e, t) u = u

  stash_names_rule :
      (from to : Text) (names : Dict Text ℕ) (s : Fs)
      → Untouched old s
      → Untouched old (stash_names os from to names s)
  unfolding stash_names
  stash_names_rule from to [] s h = h
  stash_names_rule from to ((n, i) ∷ names) s h =
      stash_names_rule from to names next (choose (not (under from n) || has_name moved s))
    where
      moved : Text
      moved = to ++ drop (length from) n

      next : Fs
      next = if not (under from n) || has_name moved s then s else (rename os n moved s).1

      choose : (b : Bool) → Untouched old (if b then s else (rename os n moved s).1)
      choose true = h
      choose false = state_of (rename os n moved s) (rename_keeps old os n moved s h)

  stash_rule :
      (tmp partial : Text) (s : Fs) → Untouched old s → Untouched old (stash os tmp partial s)
  unfolding stash
  stash_rule tmp partial s h =
      choose (os.fails s.calls || not (any_under (join_path tmp resume_dir) s.names))
    where
      from : Text
      from = join_path tmp resume_dir

      to : Text
      to = join_path partial resume_dir

      after :
          (x : Result FileError (Unit {0}) × Fs)
          → Meets Safe Safe x
          → Untouched old (after_mkdir os from to x)
      after (ok _, t) u = stash_names_rule from to t.names t u
      after (err e, t) u = u

      ticked : Untouched old (tick s)
      ticked = Untouched-tick old os s h

      choose :
          (b : Bool)
          → Untouched old (if b then tick s else after_mkdir os from to (make_dirs os (tick s)))
      choose true = ticked
      choose false = after (make_dirs os (tick s)) (make_dirs_rule old os (tick s) ticked)

  pub clear_resume_dir_rule :
      (tmp partial : Text) (s : Fs)
      → Untouched old s
      → Meets Safe Safe (clear_resume_dir os tmp partial s)
  unfolding clear_resume_dir
  clear_resume_dir_rule tmp partial s h =
      go (remove_tree os (join_path tmp resume_dir) s)
        (remove_tree_rule (join_path tmp resume_dir) s h)
    where
      go :
          (x : Result FileError (Unit {0}) × Fs)
          → Meets Safe Safe x
          → Meets Safe Safe (removed_or os tmp partial x)
      go (ok _, t) u = u
      go (err e, t) u =
          remove_tree_rule (join_path tmp resume_dir) (stash os tmp partial t)
            (stash_rule tmp partial t u)

  adopt_file_rule :
      (from to : Text) (s : Fs) → Untouched old s → Untouched old (adopt_file os from to s)
  unfolding adopt_file
  adopt_file_rule from to s h = choose (has_name from s)
    where
      choose :
          (b : Bool) → Untouched old (if b then ((make_dirs os >> rename os from to) s).1 else s)
      choose true = state_of ((make_dirs os >> rename os from to) s) (
          Meets-bind Safe Safe Safe (make_dirs os) (λ _. rename os from to) s
            (make_dirs_rule old os s h) (λ _ t u. rename_keeps old os from to t u))
      choose false = h

  pub adopt_prefixes_rule :
      (partial tmp : Text) (js : List Job) (s : Fs)
      → Untouched old s
      → Untouched old (adopt_prefixes os partial tmp js s)
  unfolding adopt_prefixes
  adopt_prefixes_rule partial tmp [] s h = h
  adopt_prefixes_rule partial tmp (j ∷ js) s h =
      let from = prefix_files_in partial j.file.sha256 in
      let to = prefix_files_in tmp j.file.sha256 in
      adopt_prefixes_rule partial tmp js
        (if j.resume
          then adopt_file os from.info to.info
              (adopt_file os from.prev to.prev (adopt_file os from.content to.content s))
          else s)
        (choose j.resume)
    where
      choose :
          (b : Bool)
          → Untouched old (
              if b
              then adopt_file os
                  (prefix_files_in partial j.file.sha256).info
                  (prefix_files_in tmp j.file.sha256).info
                  (adopt_file os
                    (prefix_files_in partial j.file.sha256).prev
                    (prefix_files_in tmp j.file.sha256).prev
                    (adopt_file os
                      (prefix_files_in partial j.file.sha256).content
                      (prefix_files_in tmp j.file.sha256).content
                      s))
              else s)
      choose true =
          let from = prefix_files_in partial j.file.sha256 in
          let to = prefix_files_in tmp j.file.sha256 in
          let first = adopt_file os from.content to.content s in
          let second = adopt_file os from.prev to.prev first in
          adopt_file_rule from.info to.info second
            (adopt_file_rule from.prev to.prev first (adopt_file_rule from.content to.content s h))
      choose false = h
