-- ===== src/Store/Routines/Keys.antt =====
-- src/store/repo.rs: the keys of routines in the outbox and at the kernel.
use sin.Prelude.{
  String, ◌≡◌, ◌≢◌, refl, sym, ◌∙◌, ap, false, Option, none, some, ◌==◌, eq_iff, Bool-cases, inl,
  inr, if◌then◌else◌,
}
use sin.Prelude.Ascii.{
  strip_prefix, to_ascii_uppercase, to_ascii_lowercase, NoLower, upper-lower, strip_prefix-append,
}
use sin.Core.Types.{RoutineId}
use sin.Store.Routines.{routine_dedup_key, routine_kernel_key}

some-injective : {a b : String} → some a ≡ some b → a ≡ b
some-injective e = cc

pub dedup_key-injective : (a b : RoutineId) → routine_dedup_key a ≡ routine_dedup_key b → a ≡ b
unfolding routine_dedup_key
dedup_key-injective a b e = some-injective (
    sym (strip_prefix-append "routine:" a)
    ∙ ap (strip_prefix "routine:") e
    ∙ strip_prefix-append "routine:" b)

pub dedup_keys_apart :
    (a b : RoutineId) → a ≢ b → (routine_dedup_key a == routine_dedup_key b) ≡ false
dedup_keys_apart a b ne = elim (Bool-cases (routine_dedup_key a == routine_dedup_key b)) [
  | inl same ↦
      absurd
        (ne (dedup_key-injective a b ((eq_iff (routine_dedup_key a) (routine_dedup_key b)).0 same)))
  | inr apart ↦ apart
]

-- `record_routine_fire` gives up on an empty rest, and turns any other into an id
abbrev id_of_rest : Option String → Option RoutineId
id_of_rest none = none
id_of_rest (some s) = if s == "" then none else some (to_ascii_uppercase s)

unfoldable pub routine_of_key : String → Option RoutineId
routine_of_key key = id_of_rest (strip_prefix "routine." key)

lower_nonempty : (id : RoutineId) → id ≢ "" → NoLower id → (to_ascii_lowercase id == "") ≡ false
unfolding to_ascii_uppercase
lower_nonempty id ne h = elim (Bool-cases (to_ascii_lowercase id == "")) [
  | inl e ↦
      let gone : to_ascii_lowercase id ≡ "" = (eq_iff (to_ascii_lowercase id) "").0 e in
      absurd (ne (sym (upper-lower id h) ∙ ap to_ascii_uppercase gone))
  | inr e ↦ e
]

-- The key that a routine has at the kernel leads back to exactly the routine, for every id that is
-- not empty and has no lower-case letters, as the ids of `ulid()` are.
pub kernel_key_round_trip :
    (id : RoutineId) → id ≢ "" → NoLower id → routine_of_key (routine_kernel_key id) ≡ some id
unfolding routine_of_key routine_kernel_key
kernel_key_round_trip id ne h =
    rw
      (
        strip_prefix-append "routine." (to_ascii_lowercase id),
        lower_nonempty id ne h,
        upper-lower id h,
      )
      refl
