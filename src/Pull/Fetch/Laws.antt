-- ===== src/Pull/Fetch/Laws.antt =====
-- The cap on a manifest's content (`checkContentSize` of pkg/pull/pull.go).
use pinsync.Base.{
  true, ◌≡◌, ◌↔◌, refl, List, [], ◌∷◌, ℕ, ◌+◌, ◌≤◌, ◌<◌, arith, ok, Bool-cases, inl, inr, All,
}
use pinsync.Base.Int.{ℤ, pos, pos_part, neg_part, ◌+ℤ◌, ◌-ℤ◌, ltb_ℤ}
use pinsync.Manifest.Entry.{File, Manifest}
use pinsync.Pull.Fetch.{check_sizes, check_content_size}

-- The declared size of all the files.
abbrev pub content_size : List File → ℕ
content_size [] = 0
content_size (f ∷ fs) = pos_part f.size + content_size fs

-- No declared size is negative.
abbrev pub HasSizes : List File → Type 0
HasSizes = All (λ (f : File). neg_part f.size ≡ 0)

over_iff :
    (max total : ℕ) (n : ℤ)
    → neg_part n ≡ 0
    → total ≤ max
    → (ltb_ℤ (pos max -ℤ pos total) n ≡ true) ↔ (max < total + pos_part n)
unfolding ◌-ℤ◌
over_iff max total n z h = ground arith

add_pos : (total : ℕ) (n : ℤ) → neg_part n ≡ 0 → pos total +ℤ n ≡ pos (total + pos_part n)
unfolding ◌+ℤ◌
add_pos total n z = ground arith

check_sizes_iff :
    (max total : ℕ) (fs : List File)
    → HasSizes fs
    → total ≤ max
    → (check_sizes (pos max) (pos total) fs ≡ ok tt) ↔ (total + content_size fs ≤ max)
unfolding check_sizes
check_sizes_iff max total [] h le = (λ e. omega arith, λ e. refl)
check_sizes_iff max total (f ∷ fs) h le = elim (Bool-cases (ltb_ℤ (pos max -ℤ pos total) f.size)) [
  | inl e ↦
      let above = (over_iff max total f.size h.0 le).0 e in
      (λ k. absurd (cc (rw e at k)), λ k. absurd (omega arith))
  | inr e ↦
      let below : total + pos_part f.size ≤ max =
        ground (arith, over_iff max total f.size h.0 le) in
      let rest = check_sizes_iff max (total + pos_part f.size) fs h.1 below in
      let next = add_pos total f.size h.0 in
      (
        λ k. let r = rest.0 (rw (e, next) at k) in omega arith,
        λ k. rw (e, next) (rest.1 (omega arith)),
      )
]

-- Where no declared size is negative, as in every valid manifest, the check passes exactly if the
-- whole content is within the cap.
pub check_content_size_iff :
    (max : ℕ) (m : Manifest)
    → HasSizes m.files
    → (check_content_size (pos max) m ≡ ok tt) ↔ (content_size m.files ≤ max)
unfolding check_content_size
check_content_size_iff max m h =
    let all = check_sizes_iff max 0 m.files h (omega arith) in
    (λ k. let r = all.0 k in omega arith, λ k. all.1 (omega arith))
