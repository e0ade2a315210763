-- ===== src/Pull/DryRun/Laws.antt =====
-- What a preview says (pkg/pull/dryrun.go), and that the pull's own jobs agree with it.
use pinsync.Base.{
  Bool, not, ◌&&◌, ◌≡◌, refl, ◌∙◌, subst, eq_iff, List, [], ◌∷◌, ℕ, ◌+◌, ◌≤◌, arith, ok, nat_eq,
  list_eq, contains, length, length-append, Bool-cases, >>=-eq-ok, inl, inr,
}
use pinsync.Base.Dict.{Dict, keys}
use pinsync.Base.Sort.{sort}
use pinsync.Base.Sort.Laws.{length-sort, contains-sort, Ascending, Ascending-sort}
use pinsync.Base.Text.{Text, text_lt}
use pinsync.Base.Text.Order.{text_order}
use pinsync.Manifest.Entry.{File, Manifest}
use pinsync.Pull.Classify.{
  LocalFile, ContentKey, Leftover, Act, download, copy, link, reuse, classify, Slots, resume_slots,
  resumable,
}
use pinsync.Pull.DryRun.{
  Plan, empty_plan, removed, paths_of, sort_paths, note_entry, note_entries, plan_files,
}

-- A plan that covers `n` entries: each is downloaded, copied or linked, and the downloads that are
-- spared or shortened are downloads.
abbrev pub Covers : ℕ → Plan → Type 0
Covers n p =
    (length p.download + length p.copy + p.linked ≡ n) × (p.reused + p.resumed ≤ length p.download)

module _ (windows : Bool) (kept : File → Bool) where
  Covers-note_entry :
      (n : ℕ) (f : File) (act : Act) (p : Plan) (slots : Slots)
      → Covers n p
      → Covers (n + 1) (note_entry windows kept f act (p, slots)).0
  unfolding note_entry
  Covers-note_entry n f download p slots h = elim (Bool-cases ((resumable slots f).0 && kept f)) [
    | inl e ↦ rw e (ground (arith, length-append p.download (f.path ∷ [])))
    | inr e ↦ rw e (ground (arith, length-append p.download (f.path ∷ [])))
  ]
  Covers-note_entry n f reuse p slots h = ground (arith, length-append p.download (f.path ∷ []))
  Covers-note_entry n f copy p slots h = ground (arith, length-append p.copy (f.path ∷ []))
  Covers-note_entry n f link p slots h = ground arith

  total-note_entry :
      (f : File) (act : Act) (p : Plan) (slots : Slots)
      → (note_entry windows kept f act (p, slots)).0.total ≡ p.total
  unfolding note_entry
  total-note_entry f download p slots = ground arith
  total-note_entry f reuse p slots = refl
  total-note_entry f copy p slots = refl
  total-note_entry f link p slots = refl

  module _ (live : Dict Text LocalFile) (index : Dict ContentKey Leftover) where
    Covers-note_entries :
        (n : ℕ) (fs : List File) (noted made : Plan × Slots)
        → Covers n noted.0
        → note_entries windows kept live index fs noted ≡ ok made
        → Covers (n + length fs) made.0 × (made.0.total ≡ noted.0.total)
    unfolding note_entries
    Covers-note_entries n [] noted made h e =
        let same : noted ≡ made = cc in
        subst (λ q. Covers (n + 0) q.0 × (q.0.total ≡ noted.0.total)) same (ground arith)
    Covers-note_entries n (f ∷ fs) noted made h e =
        let (decided, _, rest) =
          >>=-eq-ok (classify windows f live index)
            (λ d. note_entries windows kept live index fs (note_entry windows kept f d.0 noted))
            made e in
        let (covers, total) =
          Covers-note_entries (n + 1) fs (note_entry windows kept f decided.0 noted) made
            (Covers-note_entry n f decided.0 noted.0 noted.1 h) rest in
        (ground arith, total ∙ total-note_entry f decided.0 noted.0 noted.1)

    -- In a preview the downloads, the copies and the links add up to the entries of the manifest,
    -- and the downloads that leftovers spare or a kept prefix shortens are among the downloads.
    pub plan_files-Covers :
        (equal_fold : Text → Text → Bool) (m : Manifest) (p : Plan)
        → plan_files windows kept equal_fold live index m ≡ ok p
        → Covers (length m.files) p × (p.total ≡ length m.files)
    unfolding plan_files
    plan_files-Covers equal_fold m p h =
        let (noted, run, rest) =
          >>=-eq-ok
            (note_entries windows kept live index m.files
              (empty_plan (length m.files), resume_slots equal_fold m.files))
            (λ n. ok (sort_paths (record n.0 { remove = removed (paths_of m.files) (keys live) })))
            p h in
        let (covers, total) =
          Covers-note_entries 0 m.files
            (empty_plan (length m.files), resume_slots equal_fold m.files) noted
            (omega arith, omega arith) run in
        let same : sort_paths (record noted.0 { remove = removed (paths_of m.files) (keys live) })
            ≡ p =
          cc in
        subst (λ q. Covers (length m.files) q × (q.total ≡ length m.files)) same
          (
            ground (arith, length-sort text_lt noted.0.download, length-sort text_lt noted.0.copy),
            total,
          )

contains-removed :
    (wanted live : List Text) (q : Text)
    → contains (removed wanted live) q ≡ (contains live q && not (contains wanted q))
unfolding removed contains
contains-removed wanted [] q = refl
contains-removed wanted (p ∷ live) q = ground (arith, eq_iff p q, contains-removed wanted live q)

-- A preview removes exactly the paths of the live tree that the manifest does not name, in ascending
-- order.
pub plan_files-removes :
    (windows : Bool) (kept : File → Bool) (live : Dict Text LocalFile)
    (index : Dict ContentKey Leftover) (equal_fold : Text → Text → Bool) (m : Manifest) (p : Plan)
    → plan_files windows kept equal_fold live index m ≡ ok p
    → Ascending text_lt p.remove
      × ((q : Text)
          → contains p.remove q ≡ (contains (keys live) q && not (contains (paths_of m.files) q)))
unfolding plan_files
plan_files-removes windows kept live index equal_fold m p h =
    let (noted, _, rest) =
      >>=-eq-ok
        (note_entries windows kept live index m.files
          (empty_plan (length m.files), resume_slots equal_fold m.files))
        (λ n. ok (sort_paths (record n.0 { remove = removed (paths_of m.files) (keys live) }))) p
        h in
    let same : sort text_lt (removed (paths_of m.files) (keys live)) ≡ p.remove = cc in
    subst
      (λ r.
        Ascending text_lt r
        × ((q : Text)
            → contains r q ≡ (contains (keys live) q && not (contains (paths_of m.files) q))))
      same
      (
        Ascending-sort text_lt text_order (removed (paths_of m.files) (keys live)),
        λ q.
            contains-sort text_lt (removed (paths_of m.files) (keys live)) q
            ∙ contains-removed (paths_of m.files) (keys live) q,
      )
