-- ===== src/Core/Proposal/Alloc.antt =====
-- src/core/proposal.rs: `check_alloc`, the structural check of a rhythm's allocation list, and what
-- its verdict means.
use sin.Prelude.{
  ℕ, ◌+◌, ◌≤◌, min, String, ◌≡◌, ◌≢◌, ◌↔◌, refl, false, not, ◌&&◌, List, [], ◌∷◌, arith, eq_iff,
  ltb, leb, if◌then◌else◌, is_empty, All,
}
use sin.Prelude.Text.{contains}
use sin.Core.Types.{Alloc}
use sin.Core.Proposal.Errors.{
  Result, ok, err, pct_out_of_range, duplicate_ref, invalid_alloc, empty_allocations,
}

abbrev pub u32_max : ℕ
u32_max = 4294967295

-- `u32::saturating_add`
abbrev pub saturating_add : ℕ → ℕ → ℕ
saturating_add a b = min (a + b) u32_max

-- the loop, with the set `seen` and the running `sum`
unfoldable pub check_alloc_loop : List String → ℕ → List Alloc → Result (Unit {0})
unfolding contains
check_alloc_loop seen sum [] = if ltb 100 sum then err (invalid_alloc sum) else ok tt
check_alloc_loop seen sum (a ∷ rest) =
    let next = check_alloc_loop (a.direction_id ∷ seen) (saturating_add sum a.pct) rest in
    if not (leb 1 a.pct && leb a.pct 100)
    then err (pct_out_of_range a.direction_id a.pct)
    else if contains a.direction_id seen
    then err (duplicate_ref "adjust_rhythm" a.direction_id)
    else next

unfoldable pub check_alloc : List Alloc → Result (Unit {0})
unfolding check_alloc_loop
check_alloc alloc = if is_empty alloc then err empty_allocations else check_alloc_loop [] 0 alloc

abbrev pub total_pct : List Alloc → ℕ
total_pct [] = 0
total_pct (a ∷ rest) = a.pct + total_pct rest

-- the directions are distinct, and none of them is in `seen`
abbrev pub Fresh : List String → List Alloc → Type 0
Fresh seen [] = Unit
Fresh seen (a ∷ rest) = (contains a.direction_id seen ≡ false) × Fresh (a.direction_id ∷ seen) rest

abbrev pub PctInRange : Alloc → Type 0
PctInRange a = (1 ≤ a.pct) × (a.pct ≤ 100)

loop_sound :
    (seen : List String) (sum : ℕ) (l : List Alloc)
    → sum ≤ u32_max
    → check_alloc_loop seen sum l ≡ ok tt
    → All PctInRange l × Fresh seen l × (sum + total_pct l ≤ 100)
unfolding check_alloc_loop
loop_sound seen sum [] b h = ground arith
loop_sound seen sum (a ∷ rest) b h =
    ground (arith, loop_sound (a.direction_id ∷ seen) (saturating_add sum a.pct) rest)

loop_complete :
    (seen : List String) (sum : ℕ) (l : List Alloc)
    → All PctInRange l
    → Fresh seen l
    → sum + total_pct l ≤ 100
    → check_alloc_loop seen sum l ≡ ok tt
unfolding check_alloc_loop
loop_complete seen sum [] p f b = ground arith
loop_complete seen sum (a ∷ rest) p f b =
    let ih =
      loop_complete (a.direction_id ∷ seen) (saturating_add sum a.pct) rest p.1 f.1 (omega arith) in
    ground (arith, ih)

-- no two entries name the same direction
abbrev pub Distinct : List Alloc → Type 0
Distinct [] = Unit
Distinct (a ∷ rest) = All (λ b. a.direction_id ≢ b.direction_id) rest × Distinct rest

abbrev Avoids : List String → List Alloc → Type 0
Avoids seen l = All (λ a. contains a.direction_id seen ≡ false) l

Avoids-cons :
    (d : String) (seen : List String) (l : List Alloc)
    → Avoids (d ∷ seen) l ↔ (All (λ b. d ≢ b.direction_id) l × Avoids seen l)
unfolding contains
Avoids-cons d seen [] = (λ h. (tt, tt), λ h. tt)
Avoids-cons d seen (b ∷ l) =
    let ih = Avoids-cons d seen l in
    let same = eq_iff d b.direction_id in
    (
      λ h. let t = ih.0 h.1 in (((λ e. cc (same.1 e, h.0)), t.0), (ground (arith, same), t.1)),
      λ h. (ground (arith, same, h.0.0, h.1.0), ih.1 (h.0.1, h.1.1)),
    )

Fresh-iff : (seen : List String) (l : List Alloc) → Fresh seen l ↔ (Avoids seen l × Distinct l)
Fresh-iff seen [] = (λ h. (tt, tt), λ h. tt)
Fresh-iff seen (a ∷ l) =
    let ih = Fresh-iff (a.direction_id ∷ seen) l in
    let split = Avoids-cons a.direction_id seen l in
    (
      λ h. let t = ih.0 h.1 in let s = split.0 t.0 in ((h.0, s.1), (s.0, t.1)),
      λ h. (h.0.0, ih.1 (split.1 (h.1.0, h.0.1), h.1.1)),
    )

Avoids-nil : (l : List Alloc) → Avoids [] l
unfolding contains
Avoids-nil [] = tt
Avoids-nil (a ∷ l) = (refl, Avoids-nil l)

-- `check_alloc` accepts exactly the lists that are not empty, whose percentages lie in 1..=100,
-- whose directions are pairwise different and whose percentages sum to at most 100; the saturating
-- sum of the loop changes nothing in that.
pub check_alloc_exact :
    (l : List Alloc)
    → (check_alloc l ≡ ok tt) ↔ ((l ≢ []) × All PctInRange l × Distinct l × (total_pct l ≤ 100))
unfolding check_alloc
check_alloc_exact [] = (λ h. cc, λ h. absurd (h.0 refl))
check_alloc_exact (a ∷ l) = (
  λ h.
      let t = loop_sound [] 0 (a ∷ l) (omega arith) h in
      ((λ e. cc), t.0, ((Fresh-iff [] (a ∷ l)).0 t.1).1, omega (arith, t.2)),
  λ h.
      loop_complete [] 0 (a ∷ l) h.1 ((Fresh-iff [] (a ∷ l)).1 (Avoids-nil (a ∷ l), h.2))
        (omega arith),
)
