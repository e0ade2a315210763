-- ===== src/Tests/Pulls.antt =====
-- The laws of a pull at a manifest of three entries: one to link, one to reuse and one to download.
use pinsync.Base.{
  Bool, true, false, not, ◌&&◌, ◌≡◌, ◌≤◌, ◌+◌, refl, List, [], ◌∷◌, Option, none, some, ℕ, Result,
  ok, err, All, length, contains, ◌==◌, nat_eq, list_eq, arith,
}
use pinsync.Base.Action.{Meets}
use pinsync.Base.Dict.{Dict, get, keys}
use pinsync.Base.Int.{pos}
use pinsync.Base.Sort.{sort}
use pinsync.Base.Sort.Laws.{Ascending}
use pinsync.Base.Text.{Text, lit, text_lt}
use pinsync.Manifest.Entry.{File, Manifest, schema_version}
use pinsync.Manifest.Mode.{file_mode}
use pinsync.Store.{S3}
use pinsync.Store.Fake.{Fake, new_fake, fake_store}
use pinsync.Pull.Classify.{
  LocalFile, Leftover, Act, key_eq, link, reuse, download, by_content, wanted_key, classify,
}
use pinsync.Pull.Classify.Laws.{IsLeast, IsSparing, get-by_content-IsLeast, classify-IsSparing}
use pinsync.Pull.DryRun.{Plan, plan_files, paths_of}
use pinsync.Pull.DryRun.Laws.{Covers, plan_files-Covers, plan_files-removes}
use pinsync.Pull.DryRun.Agree.{Agrees, plan_files-Agrees}
use pinsync.Pull.Files.{Fs, Calls}
use pinsync.Pull.Files.Rules.{Untouched, Untouched-refl}
use pinsync.Pull.Jobs.{Job, Jobs, make_jobs}
use pinsync.Pull.Resume.Download.{World, download_job}
use pinsync.Pull.Resume.Download.Staged.{download_job-IsStaged}
use pinsync.Pull.Resume.Prefix.{Sidecar, prefix_files_in}
use pinsync.Base.Slash.{join_path}
use pinsync.Pull.Write.Laws.{IsStaged}
use pinsync.Pull.Stage.{Counters, Staging, no_counts}
use pinsync.Pull.Stage.Phases.{stage_jobs, stage}
use pinsync.Pull.Stage.Safety.{stage_jobs-Untouched}
use pinsync.Pull.Stage.Stats.{stage-dry_run}
use pinsync.Tests.Samples.{setup}

abbrev entry : Text → Text → Text → File
entry path content mode = record {
  path = path;
  sha256 = content;
  size = pos (length content);
  mode = mode;
}

abbrev motd : File
motd = entry (lit "motd") (lit "hello") (lit "0644")

abbrev moved : File
moved = entry (lit "new") (lit "left") (lit "0644")

abbrev fresh : File
fresh = entry (lit "tool") (lit "abc") (lit "0755")

abbrev three : Manifest
three = record { version = schema_version; files = motd ∷ moved ∷ fresh ∷ [] }

abbrev live : Dict Text LocalFile
live =
    (lit "motd", record { hash = lit "hello"; size = pos 5; mode = 420 })
    ∷ (lit "gone", record { hash = lit "x"; size = pos 1; mode = 420 })
    ∷ []

-- Two files kept from a failed pull, with the same content.
abbrev kept_files : Dict Text LocalFile
kept_files =
    (lit "z", record { hash = lit "left"; size = pos 4; mode = 420 })
    ∷ (lit "a", record { hash = lit "left"; size = pos 4; mode = 420 })
    ∷ []

abbrev same_text : Text → Text → Bool
same_text s t = false

abbrev none_kept : File → Bool
none_kept f = false

abbrev preview : Plan
preview = record {
  download = lit "new" ∷ lit "tool" ∷ [];
  copy = [];
  remove = lit "gone" ∷ [];
  linked = 1;
  reused = 1;
  resumed = 0;
  total = 3;
}

previewed : plan_files false none_kept same_text live (by_content kept_files) three ≡ ok preview
unfolding plan_files classify file_mode pinsync.Base.list_beq sort get by_content
    pinsync.Pull.DryRun.removed pinsync.Pull.Classify.index_files keys pinsync.Base.Dict.put
    contains pinsync.Base.Int.int_beq pinsync.Pull.Classify.resumable
    pinsync.Pull.Classify.resume_slots text_lt
previewed = refl

classified : classify false moved live (by_content kept_files) ≡ ok (reuse, 420)
unfolding classify file_mode pinsync.Base.list_beq get by_content pinsync.Pull.Classify.index_files
    pinsync.Base.Dict.put pinsync.Base.Int.int_beq
classified = refl

get-by_content-IsLeast_example :
    IsLeast (wanted_key moved) (get (by_content kept_files) (wanted_key moved)) kept_files
get-by_content-IsLeast_example = get-by_content-IsLeast kept_files (wanted_key moved)

classify-IsSparing_example :
    (file_mode moved.mode ≡ ok 420) × IsSparing false moved 420 live kept_files reuse
classify-IsSparing_example = classify-IsSparing false moved live kept_files reuse 420 classified

plan_files-Covers_example : Covers 3 preview × (preview.total ≡ 3)
plan_files-Covers_example =
    plan_files-Covers false none_kept live (by_content kept_files) same_text three preview previewed

plan_files-removes_example :
    Ascending text_lt preview.remove
    × ((q : Text)
        → contains preview.remove q
          ≡ (contains (keys live) q && not (contains (paths_of three.files) q)))
plan_files-removes_example =
    plan_files-removes false none_kept live (by_content kept_files) same_text three preview
      previewed

plan_files-Agrees_example :
    (jobs : Jobs) × (make_jobs false true live (by_content kept_files) same_text three ≡ ok jobs)
    × Agrees none_kept (sort text_lt) preview jobs
plan_files-Agrees_example =
    plan_files-Agrees none_kept false live (by_content kept_files) same_text three preview previewed

abbrev steady : Calls
steady = record { fails = λ n. false; written = λ n. 0; stays = λ n t. false }

abbrev sidecar : Sidecar
sidecar = record { write = λ i. lit "s"; read = λ t. none }

abbrev verbatim : Text → Text
verbatim bytes = bytes

abbrev disk : Fs
disk = record {
  names = (lit "d/motd", 0) ∷ (lit "p/a", 1) ∷ (lit "p/z", 2) ∷ [];
  inodes =
      (0, record { bytes = lit "hello"; mode = 420; regular = true })
      ∷ (1, record { bytes = lit "left"; mode = 420; regular = true })
      ∷ (2, record { bytes = lit "left"; mode = 420; regular = true })
      ∷ [];
  fresh = 3;
  calls = 0;
}

abbrev s3 : S3
s3 = fake_store setup

abbrev world : World s3
world = (disk, record new_fake { objects = (lit "os/tool", lit "abc") ∷ [] })

abbrev job : File → Act → ℕ → Bool → Job
job f act mode resume = record {
  file = f;
  act = act;
  mode = mode;
  live = 420;
  in_live = false;
  resume = resume;
}

abbrev local_jobs : List Job
local_jobs = job motd link 420 false ∷ job moved reuse 420 false ∷ []

-- It may resume, though nothing is kept.
abbrev remote_job : Job
remote_job = job fresh download 493 true

not_own_sidecar :
    ((prefix_files_in (lit "t") fresh.sha256).info == join_path (lit "t") fresh.path) ≡ false
unfolding prefix_files_in pinsync.Base.list_beq join_path pinsync.Base.Slash.render
    pinsync.Base.Text.has_prefix pinsync.Base.Text.join pinsync.Base.Slash.clean_segments
    pinsync.Base.Text.split
not_own_sidecar = refl

download_job-IsStaged_example :
    Meets
      (λ e v. Untouched disk v.0)
      (λ resumed v.
        Untouched disk v.0
        × IsStaged verbatim false disk fresh (join_path (lit "t") fresh.path) 493 v.0)
      (download_job s3 steady verbatim false sidecar
        (lit "os")
        (lit "t")
        remote_job
        (join_path (lit "t") fresh.path)
        world)
download_job-IsStaged_example =
    download_job-IsStaged s3 disk steady verbatim false sidecar (lit "os") (lit "t") remote_job
      (join_path (lit "t") fresh.path) world (λ _. not_own_sidecar) (Untouched-refl disk)

stage_jobs-Untouched_example :
    Untouched disk
      (stage_jobs s3 steady verbatim false true
        (lit "d")
        (lit "t")
        (lit "p")
        (by_content kept_files)
        (download_job s3 steady verbatim false sidecar (lit "os") (lit "t"))
        (record { local = local_jobs; remote = remote_job ∷ [] })
        (world, no_counts)).1.0.0
stage_jobs-Untouched_example =
    stage_jobs-Untouched s3 disk steady verbatim false true (lit "d") (lit "t") (lit "p")
      (by_content kept_files) sidecar (lit "os")
      (record { local = local_jobs; remote = remote_job ∷ [] }) (world, no_counts)
      (λ r. absurd cc, (λ r. absurd cc, tt)) (λ _. not_own_sidecar, tt) (Untouched-refl disk)

abbrev counts : Counters
counts = record no_counts { downloaded = 1; linked = 1; reused = 1; taken = lit "a" ∷ [] }

staged :
    (stage s3 steady verbatim false true
      (lit "d")
      (lit "t")
      (lit "p")
      (by_content kept_files)
      (download_job s3 steady verbatim false sidecar (lit "os") (lit "t"))
      same_text
      three
      live
      world).0
    ≡ ok counts
unfolding stage make_jobs classify file_mode pinsync.Base.list_beq stage_jobs
    pinsync.Pull.Files.make_dirs pinsync.Pull.Stage.Trees.any_under pinsync.Base.Text.has_prefix
    pinsync.Pull.Stage.stage_all get by_content pinsync.Pull.Classify.index_files
    pinsync.Base.Dict.put pinsync.Base.Int.int_beq pinsync.Pull.Write.link_or_copy
    pinsync.Pull.Write.read_only_on_windows pinsync.Pull.Files.link_file pinsync.Base.Dict.erase
    contains pinsync.Base.Int.◌+ℤ◌ pinsync.Base.Slash.clean pinsync.Base.Slash.clean_segments
    pinsync.Base.Slash.clean_step pinsync.Base.Slash.go_up pinsync.Base.Slash.render
    pinsync.Base.Slash.join_path pinsync.Base.Text.join pinsync.Base.Text.split
    pinsync.Base.Text.add_to_head download_job pinsync.Pull.Resume.Download.download_whole
    pinsync.Pull.Write.write_verified pinsync.Pull.Write.check_staged pinsync.Pull.Write.chmod
    pinsync.Pull.Files.chmod_file pinsync.Pull.Files.create pinsync.Pull.Files.copy_in
    pinsync.Pull.Files.close pinsync.Pull.Files.append_to pinsync.Store.Fake.get_object
    pinsync.Store.Fake.serve pinsync.Pull.Stage.Trees.release_partial
    pinsync.Pull.Stage.Trees.remove_tree pinsync.Pull.Stage.Trees.erase_under
    pinsync.Pull.Resume.Prefix.adopt_prefixes pinsync.Pull.Jobs.live_content
    pinsync.Pull.Classify.resumable pinsync.Pull.Classify.resume_slots pinsync.Base.Text.before
    pinsync.Pull.Resume.Prefix.prefix_files_in pinsync.Pull.Classify.better text_lt
staged = refl

stage-dry_run_example :
    (1 + 1 ≡ length preview.download)
    × (1 ≡ preview.reused)
    × (1 + 1 + 0 + 1 ≡ preview.total)
    × (0 ≤ 1)
    × (1 + 0 ≡ preview.linked + length preview.copy)
    × (1 ≤ preview.linked)
stage-dry_run_example =
    stage-dry_run s3 steady verbatim false none_kept (lit "d") (lit "t") (lit "p")
      (by_content kept_files) (download_job s3 steady verbatim false sidecar (lit "os") (lit "t"))
      same_text three live world preview counts previewed staged
