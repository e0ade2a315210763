-- ===== src/Push/Publish/Laws.antt =====
-- A dry run of a push counts what the push then reports.
use pinsync.Base.{◌≡◌, ◌+◌, Result, ok, nat_eq, length}
use pinsync.Base.Text.{Text}
use pinsync.Manifest.Entry.{Manifest}
use pinsync.Push.Verify.{PushError}
use pinsync.Push.Diff.{Diff}
use pinsync.Push.Publish.{Stats, Plan}

abbrev result {ℓ} : {A : Type ℓ} → A → Result PushError A
result a = ok a

-- The statistics of a push are those that the plan tells.
pub record Agrees (p : Plan) (st : Stats) : Type 0 where
  pub uploaded : st.uploaded ≡ length p.upload
  pub skipped : st.skipped ≡ p.unchanged
  pub repaired : st.repaired ≡ length p.repair
  pub total : st.total ≡ p.total
  pub all : st.uploaded + st.skipped ≡ st.total
