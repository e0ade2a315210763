-- ===== src/Pull/Files/Rules.antt =====
-- What each call on the files leaves as it was, and what it makes.
use pinsync.Base.{
  true, ◌&&◌, ◌≡◌, refl, sym, ◌∙◌, subst, [], ◌++◌, Option, none, some, ℕ, ◌+◌, ◌≤◌, ◌<◌, arith,
  if◌then◌else◌, ltb, Result, ok, err, nat_eq, list_eq, length, take, eq_refl,
}
use pinsync.Base.Action.{Meets, Meets-if}
use pinsync.Base.Dict.{Dict, get, put, get-put}
use pinsync.Base.Text.{Text}
use pinsync.Store.{Body}
use pinsync.Pull.Files.{
  Inode, Fs, Calls, FileError, present, failed, broken, tick, has_name, store_inode, with_bytes,
  append_inode, append_to, create, copy_in, close,
}

-- The files of `old` have the bytes and modes that they had.
pub record Untouched (old s : Fs) : Type 0 where
  pub grown : old.fresh ≤ s.fresh
  pub same : (i : ℕ) → i < old.fresh → get s.inodes i ≡ get old.inodes i

-- An inode that `old` did not use, with these bytes.
pub record IsNew (old : Fs) (i : ℕ) (bytes : Text) (s : Fs) : Type 0 where
  pub unused : old.fresh ≤ i
  pub inode : Inode
  pub here : get s.inodes i ≡ some inode
  pub holds : inode.bytes ≡ bytes

pub Untouched-refl : (s : Fs) → Untouched s s
Untouched-refl s = record { grown = omega arith; same = λ i h. refl }

module _ (old : Fs) where
  pub Untouched-store_inode :
      (i : ℕ) (nd : Inode) (s : Fs)
      → old.fresh ≤ i
      → Untouched old s
      → Untouched old (store_inode i nd s)
  Untouched-store_inode i nd s le h = record {
    grown = h.grown;
    same = λ k lt. get-put s.inodes i k nd ∙ ground (arith, h.same k lt);
  }

  Untouched-append_inode :
      (i : ℕ) (more : Text) (o : Option Inode) (s : Fs)
      → old.fresh ≤ i
      → Untouched old s
      → Untouched old (append_inode i more o s)
  Untouched-append_inode i more none s le h = record { grown = h.grown; same = h.same }
  Untouched-append_inode i more (some nd) s le h =
      Untouched-store_inode i (with_bytes more nd) s le h

  -- A file is being written, under this name and with these bytes so far.
  pub record Writing (i : ℕ) (name bytes : Text) (s : Fs) : Type 0 where
    pub rest : Untouched old s
    pub made : IsNew old i bytes s
    pub named : get s.names name ≡ some i

  -- Names may come and go.
  pub Untouched-names :
      (names : Dict Text ℕ) (calls : ℕ) (s : Fs)
      → Untouched old s
      → Untouched old (record s { names = names; calls = calls })
  Untouched-names names calls s h = record { grown = h.grown; same = h.same }

  pub Writing-names :
      (i : ℕ) (name to bytes : Text) (names : Dict Text ℕ) (calls : ℕ) (s : Fs)
      → Writing i name bytes s
      → get names to ≡ some i
      → Writing i to bytes (record s { names = names; calls = calls })
  Writing-names i name to bytes names calls s h e = record {
    rest = Untouched-names names calls s h.rest;
    made = record {
      unused = h.made.unused;
      inode = h.made.inode;
      here = h.made.here;
      holds = h.made.holds;
    };
    named = e;
  }

  pub Writing-store_inode :
      (i : ℕ) (name bytes : Text) (nd : Inode) (s : Fs)
      → Writing i name bytes s
      → Writing i name nd.bytes (store_inode i nd s)
  Writing-store_inode i name bytes nd s h = record {
    rest = Untouched-store_inode i nd s h.made.unused h.rest;
    made = record {
      unused = h.made.unused;
      inode = nd;
      here = get-put s.inodes i i nd ∙ rw (eq_refl i) refl;
      holds = refl;
    };
    named = h.named;
  }

  Writing-append_to :
      (i : ℕ) (name bytes more : Text) (s : Fs)
      → Writing i name bytes s
      → Writing i name (bytes ++ more) (append_to i more s)
  unfolding append_to
  Writing-append_to i name bytes more s h =
      let nd = h.made.inode in
      subst (λ o. Writing i name (bytes ++ more) (append_inode i more o s)) (sym h.made.here)
        (subst (λ b. Writing i name (b ++ more) (append_inode i more (some nd) s)) h.made.holds
          (Writing-store_inode i name bytes (with_bytes more nd) s h))

  module _ (os : Calls) where
    pub create_rule :
        (name : Text) (mode : ℕ) (s : Fs)
        → Untouched old s
        → Meets (λ e t. Untouched old t) (λ i t. Writing i name [] t) (create os name mode s)
    unfolding create
    create_rule name mode s h =
        Meets-if (λ e t. Untouched old t) (λ i t. Writing i name [] t) (os.fails s.calls)
          (err (failed s.calls), tick s) opened (λ _. record { grown = h.grown; same = h.same })
          (λ _.
            Meets-if (λ e t. Untouched old t) (λ i t. Writing i name [] t) (has_name name s)
              (err (present name), tick s) made (λ _. record { grown = h.grown; same = h.same })
              (λ _. record {
                rest = record {
                  grown = omega (arith, h.grown);
                  same =
                      λ k lt. get-put s.inodes s.fresh k nd ∙ ground (arith, h.same k lt, h.grown);
                };
                made = record {
                  unused = h.grown;
                  inode = nd;
                  here = get-put s.inodes s.fresh s.fresh nd ∙ rw (eq_refl s.fresh) refl;
                  holds = refl;
                };
                named = get-put s.names name name s.fresh ∙ rw (eq_refl name) refl;
              }))
      where
        nd : Inode
        nd = record { bytes = []; mode = mode; regular = true }

        made : Result FileError ℕ × Fs
        made = (
          ok s.fresh,
          record {
            names = put s.names name s.fresh;
            inodes = put s.inodes s.fresh nd;
            fresh = s.fresh + 1;
            calls = s.calls + 1;
          },
        )

        opened : Result FileError ℕ × Fs
        opened = if has_name name s then (err (present name), tick s) else made

    pub copy_in_rule :
        (i limit : ℕ) (body : Body) (name bytes : Text) (s : Fs)
        → Writing i name bytes s
        → Meets
            (λ e t. Untouched old t)
            (λ read t. Writing i name (bytes ++ read) t × (read ≡ take limit body.bytes))
            (copy_in os i limit body s)
    unfolding copy_in
    copy_in_rule i limit body name bytes s h =
        Meets-if P Q (os.fails s.calls)
          (err (failed s.calls), append_to i (take (os.written s.calls) (take limit body.bytes)) s)
          copied
          (λ _.
            (Writing-append_to i name bytes (take (os.written s.calls) (take limit body.bytes)) s
              h).rest)
          (λ _.
            Meets-if P Q (body.broken && ltb (length body.bytes) limit)
              (err broken, append_to i (take limit body.bytes) s)
              (ok (take limit body.bytes), append_to i (take limit body.bytes) s)
              (λ _. (Writing-append_to i name bytes (take limit body.bytes) s h).rest)
              (λ _. (Writing-append_to i name bytes (take limit body.bytes) s h, refl)))
      where
        P : FileError → Fs → Type 0
        P e t = Untouched old t

        Q : Text → Fs → Type 0
        Q read t = Writing i name (bytes ++ read) t × (read ≡ take limit body.bytes)

        copied : Result FileError Text × Fs
        copied =
            if body.broken && ltb (length body.bytes) limit
            then (err broken, append_to i (take limit body.bytes) s)
            else (ok (take limit body.bytes), append_to i (take limit body.bytes) s)

    pub close_rule :
        (P : FileError → Fs → Type 0) (Q : Unit {0} → Fs → Type 0) (s : Fs)
        → ((e : FileError) → P e (tick s))
        → Q tt (tick s)
        → Meets P Q (close os s)
    unfolding close
    close_rule P Q s p q =
        Meets-if P Q (os.fails s.calls) (err (failed s.calls), tick s) (ok tt, tick s)
          (λ _. p (failed s.calls)) (λ _. q)
