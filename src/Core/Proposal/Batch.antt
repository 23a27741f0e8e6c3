-- ===== src/Core/Proposal/Batch.antt =====
-- src/core/proposal.rs: what an accepted op, and an accepted batch of ops, has gone through.
use mathlib.Core.List.{Memᴰ}
use sin.Prelude.{
  ℕ, Bool-cases, List, [], ◌∷◌, All, all_of, subst, ◌≤◌, String, ◌≡◌, ◌≢◌, ◌⊎◌, inl, inr, ◌↔◌, refl,
  sym, true, false, not, Option, none, some, ◌==◌, arith, eq_iff, Option-cases, ltb, length,
}
use sin.Prelude.Text.{is_blank, is_whitespace, chars, bytes}
use sin.Core.Types.{
  TaskId, DirectionId, WeekId, ReviewId, TaskStatus, DirectionStatus, ReviewStatus,
  triage_direction_id,
}
use sin.Core.Transitions.{
  task_transition_allowed, check_task_transition, direction_is_terminal, task_is_terminal,
}
use sin.Core.Proposal.Errors.{ok, refuse_if, ok_or, ReviewSnap, >>=-eq-ok}
use sin.Core.Proposal.Working.{
  Working, task_status, set_task, task_direction, set_task_direction, review_body_hash,
  set_review_hash,
}
use sin.Core.Proposal.Validate.{
  require_task, validate_transition, validate_carry_over, check_inbox, reclassifiable_from_triage,
  validate_assign, validate_draft, non_blank, is_hex_byte, is_lowercase_hex_sha256,
  max_review_body_bytes, is_draft, unwrap_or,
}

-- inversions of the arms that change the working view
pub validate_transition_ok :
    (id : TaskId) (to : TaskStatus) (w : Working) {w' : Working}
    → validate_transition id to w ≡ ok w'
    → (from : TaskStatus) × (task_status w id ≡ some from)
      × (task_transition_allowed from to ≡ true)
      × (set_task w id to ≡ w')
unfolding validate_transition require_task check_task_transition
validate_transition_ok id to w h = elim (Option-cases (task_status w id)) [
  | inl e ↦ ground arith
  | inr (from, e) ↦ (from, e, ground arith, ground arith)
]

pub validate_carry_over_ok :
    (id : TaskId) (to : WeekId) (w : Working) {w' : Working}
    → validate_carry_over id to w ≡ ok w'
    → (from : TaskStatus) × (task_status w id ≡ some from)
      × (task_transition_allowed from TaskStatus.carried_over ≡ true)
      × (set_task w id TaskStatus.carried_over ≡ w')
unfolding validate_carry_over require_task check_task_transition
validate_carry_over_ok id to w h = elim (Option-cases (task_status w id)) [
  | inl e ↦ ground arith
  | inr (from, e) ↦ (from, e, ground arith, ground arith)
]

-- the conditions A1 to A5 of the design
pub record IsAssignable (source : String) (id : TaskId) (d : DirectionId) (w : Working)
    : Type 0 where
  pub current : Option DirectionId
  pub task_known : task_direction w id ≡ some current
  pub status : TaskStatus
  pub status_known : task_status w id ≡ some status
  pub task_open : task_is_terminal status ≡ false
  pub in_inbox :
      (current ≡ none)
      ⊎ ((current ≡ some triage_direction_id)
          × (d ≢ triage_direction_id)
          × ((source ≡ "direct") ⊎ (w.ctx.task_triage_via_classify id ≡ true)))
  pub target : DirectionStatus
  pub target_known : w.ctx.direction_status d ≡ some target
  pub target_open : direction_is_terminal target ≡ false

InInbox-check :
    (source : String) (id : TaskId) (d : DirectionId) (w : Working) (c : Option DirectionId)
    → check_inbox source w id d c ≡ ok tt
    → (c ≡ none)
      ⊎ ((c ≡ some triage_direction_id)
          × (d ≢ triage_direction_id)
          × ((source ≡ "direct") ⊎ (w.ctx.task_triage_via_classify id ≡ true)))
unfolding check_inbox reclassifiable_from_triage
InInbox-check source id d w none h = inl refl
InInbox-check source id d w (some e) h =
    let same = eq_iff e triage_direction_id in
    let target = eq_iff d triage_direction_id in
    let direct = eq_iff source "direct" in
    inr (ground (arith, same), (λ p. ground (arith, target)), ground (arith, direct))

check-InInbox :
    (source : String) (id : TaskId) (d : DirectionId) (w : Working) (c : Option DirectionId)
    → (c ≡ none)
      ⊎ ((c ≡ some triage_direction_id)
          × (d ≢ triage_direction_id)
          × ((source ≡ "direct") ⊎ (w.ctx.task_triage_via_classify id ≡ true)))
    → check_inbox source w id d c ≡ ok tt
unfolding check_inbox reclassifiable_from_triage
check-InInbox source id d w none h = refl
check-InInbox source id d w (some e) h =
    let same = eq_iff e triage_direction_id in
    let target = eq_iff d triage_direction_id in
    let direct = eq_iff source "direct" in ground (arith, same, target, direct)

pub validate_assign_ok :
    (source : String) (id : TaskId) (d : DirectionId) (w : Working) {w' : Working}
    → validate_assign source id d w ≡ ok w'
    → IsAssignable source id d w × (set_task_direction w id (some d) ≡ w')
unfolding validate_assign require_task
validate_assign_ok source id d w {w'} h =
    let (c, ec, h1) = >>=-eq-ok (ok_or (task_direction w id) _) _ h in
    let (s, es, h2) = >>=-eq-ok (ok_or (task_status w id) _) _ h1 in
    let (u, et, h3) = >>=-eq-ok (refuse_if (task_is_terminal s) _) _ h2 in
    let (v, ei, h4) = >>=-eq-ok (check_inbox source w id d c) _ h3 in
    let (t, ed, h5) = >>=-eq-ok (ok_or (w.ctx.direction_status d) _) _ h4 in
    let (x, eo, h6) = >>=-eq-ok (refuse_if (direction_is_terminal t) _) _ h5 in
    (
      record {
        current = c;
        task_known = ground arith;
        status = s;
        status_known = ground arith;
        task_open = ground arith;
        in_inbox = InInbox-check source id d w c ei;
        target = t;
        target_known = ground arith;
        target_open = ground arith;
      },
      ground arith,
    )

-- `AssignTaskDirection` is accepted, whatever its source, exactly when A1 to A5 hold: the task is
-- known and not closed, it has no direction, or it is parked in the triage direction, goes
-- elsewhere and the move is a direct one or classify parked it, and the target direction is known
-- and not closed. Accepted, it changes the task's direction in the working view and nothing else.
pub assign_exact :
    (source : String) (id : TaskId) (d : DirectionId) (w w' : Working)
    → (validate_assign source id d w ≡ ok w')
      ↔ (IsAssignable source id d w × (w' ≡ set_task_direction w id (some d)))
unfolding validate_assign require_task
assign_exact source id d w w' = (
  λ h. let t = validate_assign_ok source id d w h in (t.0, sym t.1),
  λ h.
      let a = h.0 in
      rw
        (
          a.task_known,
          a.status_known,
          a.task_open,
          check-InInbox source id d w a.current a.in_inbox,
          a.target_known,
          a.target_open,
          h.1,
        )
        refl,
)

-- a digest in text: 64 bytes, each of them a digit or a letter from a to f
abbrev pub IsHexByte : ℕ → Type 0
IsHexByte b = ((48 ≤ b) × (b ≤ 57)) ⊎ ((97 ≤ b) × (b ≤ 102))

abbrev pub IsDigest : String → Type 0
IsDigest s = (length (bytes s) ≡ 64) × All IsHexByte (bytes s)

hex_byte : (b : ℕ) → (is_hex_byte b ≡ true) ↔ IsHexByte b
hex_byte b = ((λ h. ground (arith, h)), (λ h. ground (arith, h)))

hex_bytes : (l : List ℕ) → (all_of is_hex_byte l ≡ true) ↔ All IsHexByte l
hex_bytes [] = ((λ h. tt), (λ h. refl))
hex_bytes (b ∷ l) = (
  (λ h. ((hex_byte b).0 (ground (arith, h)), (hex_bytes l).0 (ground (arith, h)))),
  (λ h. rw ((hex_byte b).1 h.0, (hex_bytes l).1 h.1) refl),
)

pub is_lowercase_hex_sha256-IsDigest :
    (s : String) → (is_lowercase_hex_sha256 s ≡ true) ↔ IsDigest s
unfolding is_lowercase_hex_sha256
is_lowercase_hex_sha256-IsDigest s = (
  (λ h. (ground (arith, h), (hex_bytes (bytes s)).0 (ground (arith, h)))),
  (λ h. rw (h.0, (hex_bytes (bytes s)).1 h.1) refl),
)

-- a text with a character that is not white space
abbrev pub HasText : String → Type 0
HasText s = (c : ℕ) × Memᴰ c (chars s) × (is_whitespace c ≡ false)

some_text :
    (l : List ℕ) → all_of is_whitespace l ≡ false → (c : ℕ) × Memᴰ c l × (is_whitespace c ≡ false)
some_text [] h = absurd (ground (arith, h))
some_text (c ∷ l) h = elim (Bool-cases (is_whitespace c)) [
  | inl e ↦ let r = some_text l (rw e at h) in (r.0, Memᴰ.tail r.1, r.2)
  | inr e ↦ (c, Memᴰ.head refl, e)
]

not_all_blank :
    (l : List ℕ) (c : ℕ) → Memᴰ c l → is_whitespace c ≡ false → all_of is_whitespace l ≡ false
not_all_blank (x ∷ l) c (Memᴰ.head e) h = rw (subst (λ y. is_whitespace y ≡ false) e h) refl
not_all_blank (x ∷ l) c (Memᴰ.tail m) h = ground (arith, not_all_blank l c m h)
not_all_blank [] c m h = elim m [ ]

is_blank-HasText : (s : String) → (is_blank s ≡ false) ↔ HasText s
unfolding is_blank
is_blank-HasText s = (some_text (chars s), λ h. not_all_blank (chars s) h.0 h.1 h.2)

-- the conditions D1 to D7 of the design
pub record IsDraftable (body_sha256 : String → String) (r : ReviewId) (base body : String)
    (w : Working) : Type 0 where
  pub snap : ReviewSnap
  pub body_given : HasText body
  pub body_fits : length (bytes body) ≤ 65536
  pub base_wellformed : IsDigest base
  pub review_known : w.ctx.review_snap r ≡ some snap
  pub review_open : snap.status ≡ ReviewStatus.draft
  pub base_current : review_body_hash w r ≡ some base
  pub body_new : body_sha256 body ≢ base

pub hash_known :
    (w : Working) (r : ReviewId) (snap : ReviewSnap)
    → w.ctx.review_snap r ≡ some snap
    → review_body_hash w r ≡ some (unwrap_or (review_body_hash w r) snap.body_sha256)
unfolding review_body_hash
hash_known w r snap e = ground arith

module _ (body_sha256 : String → String) (r : ReviewId) (base body : String) (w : Working) where
  pub validate_draft_ok :
      {w' : Working}
      → validate_draft body_sha256 r base body w ≡ ok w'
      → IsDraftable body_sha256 r base body w × (set_review_hash w r (body_sha256 body) ≡ w')
  unfolding validate_draft non_blank
  validate_draft_ok {w'} h =
      let (u, e1, h1) = >>=-eq-ok (non_blank "body" body) _ h in
      let (u2, e2, h2) =
        >>=-eq-ok (refuse_if (ltb max_review_body_bytes (length (bytes body))) _) _ h1 in
      let (u3, e3, h3) = >>=-eq-ok (refuse_if (not (is_lowercase_hex_sha256 base)) _) _ h2 in
      let (s, e4, h4) = >>=-eq-ok (ok_or (w.ctx.review_snap r) _) _ h3 in
      let (u5, e5, h5) = >>=-eq-ok (refuse_if (not (is_draft s.status)) _) _ h4 in
      let c = unwrap_or (review_body_hash w r) s.body_sha256 in
      let (u6, e6, h6) = >>=-eq-ok (refuse_if (not (c == base)) _) _ h5 in
      let (u7, e7, h7) = >>=-eq-ok (refuse_if (body_sha256 body == c) _) _ h6 in
      let known : w.ctx.review_snap r ≡ some s = ground arith in
      (
        record {
          snap = s;
          body_given = (is_blank-HasText body).0 (ground arith);
          body_fits = ground arith;
          base_wellformed = (is_lowercase_hex_sha256-IsDigest base).0 (ground arith);
          review_known = known;
          review_open = ground arith;
          base_current = ground (arith, hash_known w r s known, eq_iff c base);
          body_new = λ p. ground (arith, eq_iff c base, eq_iff (body_sha256 body) c);
        },
        ground arith,
      )

  -- `DraftReviewBody` is accepted exactly when D1 to D7 hold: the body has a character that is not white
  -- space and at most 65536 bytes, the base is 64 digits or letters from a to f, the review is known and a draft, the base is the digest that
  -- the review has at this point of the batch, and the body's digest is another. Accepted, it
  -- moves that digest forward and changes nothing else.
  pub draft_exact :
      (w' : Working)
      → (validate_draft body_sha256 r base body w ≡ ok w')
        ↔ (IsDraftable body_sha256 r base body w × (w' ≡ set_review_hash w r (body_sha256 body)))
  unfolding validate_draft non_blank
  draft_exact w' = (
    λ h. let t = validate_draft_ok h in (t.0, sym t.1),
    λ h.
        let a = h.0 in
        let fits = a.body_fits in
        ground (
          arith,
          h.1,
          (is_blank-HasText body).1 a.body_given,
          (is_lowercase_hex_sha256-IsDigest base).1 a.base_wellformed,
          a.review_known,
          a.review_open,
          a.base_current,
          eq_iff base base,
          eq_iff (body_sha256 body) base,
          a.body_new,
        ),
  )
