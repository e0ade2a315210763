-- ===== src/Pull/Cycle/Laws.antt =====
-- What has passed when a cycle installs a tree, and when one may be tried again (pkg/pull/pull.go).
use pinsync.Base.{
  ◌≡◌, refl, sym, ap, ◌∙◌, subst, Option, none, some, Result, ok, err, map_err, length, inl, inr,
}
use pinsync.Base.Action.{
  Action, pure, lift, on_err, ◌>>=◌, ◌>>◌, bind_ok, bind_both, bind_inversion, bind_cases,
  map_err-eq-ok,
}
use pinsync.Base.Dict.{Dict}
use pinsync.Base.Int.{ℤ}
use pinsync.Base.Text.{Text}
use pinsync.Manifest.Entry.{Manifest}
use pinsync.Pull.Classify.{LocalFile}
use pinsync.Pull.Fetch.{check_content_size}
use pinsync.Pull.Cycle.{
  Errors, Installed, Steps, Failure, final, run_hook, settle, stage_failure, install, after_keeping,
  cleared, replace_live, replace,
}

module _ (errors : Errors) {State Stats : Type 0} (steps : Steps errors State Stats) where
  -- What has passed, in this order, when a tree is installed.
  pub record Passed (max : ℤ) (raw : Text) (m : Manifest) (s : State) (r : Installed Stats)
      (t : State) : Type 0 where
    pub within_cap : check_content_size max m ≡ ok tt
    pub live : Dict Text LocalFile
    pub hashed : (steps.hash_live s).0 ≡ ok live
    pub staged : (steps.stage m live (steps.hash_live s).1).0 ≡ ok r.stats
    pub verified : (steps.verify_tree m (steps.stage m live (steps.hash_live s).1).1).0 ≡ ok tt
    pub hooked :
        (run_hook errors steps steps.before_replace raw
          (steps.verify_tree m (steps.stage m live (steps.hash_live s).1).1).1).0
        ≡ ok tt
    pub swapped :
        steps.swap
          (run_hook errors steps steps.before_replace raw
            (steps.verify_tree m (steps.stage m live (steps.hash_live s).1).1).1).1
        ≡ (ok tt, t)
    pub exact : (r.manifest ≡ raw) × (r.total ≡ length m.files)

  pair_eq :
      {E A : Type 0} (x : Result E A × State) (a : A) (t : State)
      → x.0 ≡ ok a
      → x.1 ≡ t
      → x ≡ (ok a, t)
  pair_eq (r, u) a t h k = cc

  cleared-ok :
      (x : Result (Failure errors) (Installed Stats) × State) (r : Installed Stats) (t : State)
      → cleared errors steps x ≡ (ok r, t)
      → x ≡ (ok r, t)
  cleared-ok (ok q, s) r t h = h
  cleared-ok (err (e, again), s) r t h = go (steps.keep_staged s) h
    where
      go :
          (y : Result errors.Error (Unit {0}) × State)
          → after_keeping errors steps (e, again) y ≡ (ok r, t)
          → ◌≡◌ {A = Result (Failure errors) (Installed Stats) × State}
              (err (e, again), s)
              (ok r, t)
      go (ok _, u) k = absurd cc
      go (err f, u) k = absurd cc

  -- A cycle installs a tree only if the manifest's content is within the cap, the live tree was
  -- hashed, the tree staged, the staged tree verified against the manifest and the caller's hook
  -- passed, in this order; the swap is its last step, and the result has the manifest's bytes.
  pub replace-Passed :
      (max : ℤ) (raw : Text) (m : Manifest) (s t : State) (r : Installed Stats)
      → replace errors steps max raw m s ≡ (ok r, t)
      → Passed max raw m s r t
  unfolding replace replace_live install settle
  replace-Passed max raw m s t r h =
      let (_, capped, h1) =
        bind_both
          (lift (map_err (λ e. final errors (errors.too_large e)) (check_content_size max m)))
          (λ _.
            on_err (final errors) steps.hash_live >>= λ live. replace_live errors steps raw m live)
          s t r h in
      let (live, hashed, h2) =
        bind_both (on_err (final errors) steps.hash_live)
          (λ live. replace_live errors steps raw m live) s t r h1 in
      let s1 = (steps.hash_live s).1 in
      let (stats, staged, h3) =
        bind_both (on_err (stage_failure errors steps) (steps.stage m live))
          (λ stats. settle errors steps raw m stats) s1 t r
          (cleared-ok (install errors steps raw m live s1) r t h2) in
      let s2 = (steps.stage m live s1).1 in
      let checks : Action State errors.Error (Unit {0}) =
        steps.verify_tree m >> (run_hook errors steps steps.before_replace raw >> steps.swap) in
      let (_, settled, h4) =
        bind_both (on_err (final errors) checks)
          (λ _. pure (record { stats = stats; total = length m.files; manifest = raw })) s2 t r
          h3 in
      let s3 = (steps.verify_tree m s2).1 in
      let then_swap : Action State errors.Error (Unit {0}) =
        run_hook errors steps steps.before_replace raw >> steps.swap in
      let (v, verified, k1) =
        bind_inversion (steps.verify_tree m) (λ _. then_swap) s2 tt
          (map_err-eq-ok (final errors) (checks s2).0 tt settled) in
      let (u, hooked, k2) =
        bind_inversion (run_hook errors steps steps.before_replace raw) (λ _. steps.swap) s3 tt
          k1 in
      let s4 = (run_hook errors steps steps.before_replace raw s3).1 in
      let runs : checks s2 ≡ steps.swap s4 =
        bind_ok (steps.verify_tree m) (λ _. then_swap) s2 v verified
        ∙ bind_ok (run_hook errors steps steps.before_replace raw) (λ _. steps.swap) s3 u hooked in
      let made : record { stats = stats; total = length m.files; manifest = raw } ≡ r = cc in
      let ends : (checks s2).1 ≡ t = ap (λ z. z.1) h4 in
      record {
        within_cap =
            map_err-eq-ok (λ e. final errors (errors.too_large e)) (check_content_size max m) tt
              capped;
        live = live;
        hashed = map_err-eq-ok (final errors) (steps.hash_live s).0 live hashed;
        staged =
            map_err-eq-ok (stage_failure errors steps) (steps.stage m live s1).0 stats staged
            ∙ ap (λ (q : Installed Stats). ok q.stats) made;
        verified = verified;
        hooked = hooked;
        swapped =
            pair_eq (steps.swap s4) tt t k2
              (ap (λ (z : Result errors.Error (Unit {0}) × State). z.1) (sym runs) ∙ ends);
        exact = (
          ap (λ (q : Installed Stats). q.manifest) (sym made),
          ap (λ (q : Installed Stats). q.total) (sym made),
        );
      }

  -- An error of a step that is final is not tried again.
  no_retry :
      {X A C : Type 0} (g : X → errors.Error) (r : Result X A) (f : Failure errors)
      (e : errors.Error) (q : Text)
      → map_err (λ x. final errors (g x)) r ≡ err f
      → f ≡ (e, some q)
      → C
  no_retry g (ok a) f e q h k = absurd cc
  no_retry g (err x) f e q h k =
      let same : final errors (g x) ≡ f = cc in
      let bad : ◌≡◌ {A = Option Text} none (some q) = ap (λ z. z.1) (same ∙ k) in absurd cc

  cleared-err :
      (x : Result (Failure errors) (Installed Stats) × State) (e : errors.Error) (q : Text)
      (t : State)
      → cleared errors steps x ≡ (err (e, some q), t)
      → (x.0 ≡ err (e, some q)) × (steps.keep_staged x.1 ≡ (ok tt, t))
  cleared-err (ok r, s) e q t h = absurd cc
  cleared-err (err (f, again), s) e q t h = go (steps.keep_staged s) refl h
    where
      go :
          (y : Result errors.Error (Unit {0}) × State)
          → steps.keep_staged s ≡ y
          → after_keeping errors steps (f, again) y ≡ (err (e, some q), t)
          → (◌≡◌ {A = Result (Failure errors) (Installed Stats)} (err (f, again)) (err (e, some q)))
            × (steps.keep_staged s ≡ (ok tt, t))
      go (ok _, u) k h =
          let ends : u ≡ t = ap (λ z. z.1) h in
          (ap (λ z. z.0) h, k ∙ pair_eq (ok tt, u) tt t refl ends)
      go (err g, u) k h =
          let out : ◌≡◌ {A = Result (Failure errors) (Installed Stats)}
              (err (errors.joined f g, none)) (err (e, some q)) =
            ap (λ z. z.0) h in
          absurd cc

  staged_err :
      (r : Result errors.Error Stats) (f : Failure errors) (e : errors.Error) (q : Text)
      → map_err (stage_failure errors steps) r ≡ err f
      → f ≡ (e, some q)
      → (r ≡ err e) × (errors.mismatch_of e ≡ some q)
  staged_err (ok a) f e q h k = absurd cc
  staged_err (err x) f e q h k =
      let same : stage_failure errors steps x ≡ (e, some q) =
        (let inner : stage_failure errors steps x ≡ f = cc in inner) ∙ k in
      let error : x ≡ e = ap (λ z. z.0) same in
      (ap err error, subst (λ y. errors.mismatch_of y ≡ some q) error (ap (λ z. z.1) same))

  failure_of :
      (f : Failure errors) (s t : State) (e : errors.Error) (q : Text)
      → ◌≡◌ {A = Result (Failure errors) (Installed Stats) × State} (err f, s) (err (e, some q), t)
      → f ≡ (e, some q)
  failure_of f s t e q h =
      let out : ◌≡◌ {A = Result (Failure errors) (Installed Stats)} (err f) (err (e, some q)) =
        ap (λ z. z.0) h in
      cc

  settle_final :
      {C : Type 0} (raw : Text) (m : Manifest) (stats : Stats) (s : State)
      (x : Result (Failure errors) (Installed Stats) × State) (e : errors.Error) (q : Text)
      → settle errors steps raw m stats s ≡ x
      → x.0 ≡ err (e, some q)
      → C
  unfolding settle
  settle_final raw m stats s x e q h k =
      let checks : Action State errors.Error (Unit {0}) =
        steps.verify_tree m >> (run_hook errors steps steps.before_replace raw >> steps.swap) in
      elim (bind_cases (on_err (final errors) checks)
        (λ _. pure (record { stats = stats; total = length m.files; manifest = raw })) s x h) [
          | inl (_, _, done) ↦ absurd (cc (ap (λ z. z.0) done, k))
          | inr (f, failed, done) ↦
              let same : err f ≡ err (e, some q) = ap (λ z. z.0) done ∙ k in
              no_retry (λ y. y) (checks s).0 f e q failed cc
        ]

  -- An error can be tried again only if staging met a mismatch and the staging tree was put away: the
  -- hook and the swap did not run, whatever they would return.
  pub replace-retries :
      (max : ℤ) (raw : Text) (m : Manifest) (s t : State) (e : errors.Error) (q : Text)
      → replace errors steps max raw m s ≡ (err (e, some q), t)
      → (live : Dict Text LocalFile) × ((steps.hash_live s).0 ≡ ok live)
        × ((steps.stage m live (steps.hash_live s).1).0 ≡ err e)
        × (errors.mismatch_of e ≡ some q)
        × (steps.keep_staged (steps.stage m live (steps.hash_live s).1).1 ≡ (ok tt, t))
  unfolding replace replace_live install settle
  replace-retries max raw m s t e q h =
      elim (bind_cases
        (lift (map_err (λ e. final errors (errors.too_large e)) (check_content_size max m)))
        (λ _.
          on_err (final errors) steps.hash_live >>= λ live. replace_live errors steps raw m live)
        s (err (e, some q), t) h) [
          | inr (f, refused, k) ↦
              no_retry errors.too_large (check_content_size max m) f e q refused
                (failure_of f s t e q k)
          | inl (_, capped, k) ↦
              elim (bind_cases (on_err (final errors) steps.hash_live)
                (λ live. replace_live errors steps raw m live) s (err (e, some q), t) k) [
                  | inr (f, failed, k2) ↦
                      no_retry (λ y. y) (steps.hash_live s).0 f e q failed
                        (failure_of f (steps.hash_live s).1 t e q k2)
                  | inl (live, hashed, k2) ↦
                      let s1 = (steps.hash_live s).1 in
                      let (inside, kept) =
                        cleared-err (install errors steps raw m live s1) e q t k2 in
                      elim (bind_cases (on_err (stage_failure errors steps) (steps.stage m live))
                        (λ stats. settle errors steps raw m stats) s1
                        (install errors steps raw m live s1) refl) [
                          | inl (stats, staged, k3) ↦
                              settle_final raw m stats (steps.stage m live s1).1
                                (install errors steps raw m live s1) e q k3 inside
                          | inr (f, failed, k3) ↦
                              let same : err f ≡ err (e, some q) = ap (λ z. z.0) k3 ∙ inside in
                              let (broke, mismatched) =
                                staged_err (steps.stage m live s1).0 f e q failed cc in
                              (
                                live,
                                map_err-eq-ok (final errors) (steps.hash_live s).0 live hashed,
                                broke,
                                mismatched,
                                ap steps.keep_staged (ap (λ z. z.1) k3) ∙ kept,
                              )
                        ]
                ]
        ]
