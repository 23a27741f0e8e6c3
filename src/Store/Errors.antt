-- ===== src/Store/Errors.antt =====
-- src/store/mod.rs and src/store/repo.rs: the error type of the store, its results, and the events.
use sin.Prelude.{String, ◌≡◌, refl, Bool, true, false, Option, none, some}
use sin.Core.Types.{TaskId}
use sin.Core.Transitions.{TransitionError, Checked}
use sin.Core.Cron.{CronError}
use sin.Core.Proposal.Errors.{ProposalError}
use sin.Store.Json.{Value}

-- the messages of `StoreError::Invalid`, told by the values they are formatted from
pub data Fault : Type 0 where
  blank_title empty_tz : Fault
  bad_cron : CronError → Fault
  unknown_tz : String → Fault
  not_positive : (field : String) → Fault
  bad_alloc : ProposalError → Fault

-- Of `StoreError::Sqlx` there are the violations of a constraint of a table: a key that is there
-- already, a reference to a row that is not there, and a `CHECK`.
pub data StoreError : Type 0 where
  transition : TransitionError → StoreError
  proposal : ProposalError → StoreError
  not_found : (entity id : String) → StoreError
  conflict : (entity id : String) → StoreError
  week_not_open same_week_carry : TaskId → StoreError
  invalid : Fault → StoreError
  internal : StoreError
  unique_failed foreign_key_failed check_failed : (table : String) → StoreError

pub data StoreResult {ℓ} (A : Type ℓ) : Type ℓ where
  ok : A → StoreResult A
  err : StoreError → StoreResult A

infixl 5 ◌>>=◌
abbrev pub ◌>>=◌ {μ ν} :
    {S : Type μ} {T : Type ν} → StoreResult S → (S → StoreResult T) → StoreResult T
err reason >>= rest = err reason
ok got >>= rest = rest got

infixl 5 ◌>>◌
abbrev pub ◌>>◌ {ν} : {T : Type ν} → StoreResult (Unit {0}) → StoreResult T → StoreResult T
check >> rest = check >>= λ u. rest

pub >>=-eq-ok {μ ν} :
    {S : Type μ} {T : Type ν} (step : StoreResult S) (rest : S → StoreResult T) {t : T}
    → (step >>= rest) ≡ ok t
    → (s : S) × (step ≡ ok s) × (rest s ≡ ok t)
>>=-eq-ok (err reason) rest e = cc
>>=-eq-ok (ok got) rest e = (got, refl, e)

abbrev pub fail_if : Bool → StoreError → StoreResult (Unit {0})
fail_if true e = err e
fail_if false e = ok tt

abbrev pub found {ℓ} : {A : Type ℓ} → Option A → StoreError → StoreResult A
found none e = err e
found (some a) e = ok a

-- `StoreError::from` on the results of the rules
abbrev pub transition_checked : Checked → StoreResult (Unit {0})
transition_checked Checked.ok = ok tt
transition_checked (Checked.err e) = err (transition e)

pub record Event : Type 0 where
  pub id : String
  pub entity : String
  pub entity_id : String
  pub kind : String
  pub from_state : Option String
  pub to_state : Option String
  pub payload : Value
  pub at : String

-- How an operation ends: with a value that one predicate holds of, or with an error that another does.
pub data Ends {μ} {S : Type μ} (P : S → Type 0) (Q : StoreError → Type 0)
    : StoreResult S → Type μ where
  returns : (got : S) → P got → Ends P Q (ok got)
  fails : (reason : StoreError) → Q reason → Ends P Q (err reason)

pub Ends-bind {μ κ} :
    {S : Type μ} {T : Type κ} {P : S → Type 0} {R : T → Type 0} {Q : StoreError → Type 0}
    {step : StoreResult S} {rest : S → StoreResult T}
    → Ends P Q step
    → ((got : S) → P got → Ends R Q (rest got))
    → Ends R Q (step >>= rest)
Ends-bind (returns got h) f = f got h
Ends-bind (fails reason h) f = fails reason h

pub Ends-observe :
    {S : Type 0} {P : S → Type 0} {Q : StoreError → Type 0} {r : StoreResult S}
    → Ends P Q r
    → Ends (λ got. (r ≡ ok got) × P got) Q r
Ends-observe (returns got h) = returns got (refl, h)
Ends-observe (fails reason h) = fails reason h

pub Ends-fail_if {κ} :
    {T : Type κ} {R : T → Type 0} {Q : StoreError → Type 0} (b : Bool) (reason : StoreError)
    (rest : StoreResult T)
    → (b ≡ true → Q reason)
    → (b ≡ false → Ends R Q rest)
    → Ends R Q (fail_if b reason >> rest)
Ends-fail_if true reason rest f k = fails reason (f refl)
Ends-fail_if false reason rest f k = k refl

pub Ends-found {μ κ} :
    {S : Type μ} {T : Type κ} {R : T → Type 0} {Q : StoreError → Type 0} (o : Option S)
    (reason : StoreError) (rest : S → StoreResult T)
    → (o ≡ none → Q reason)
    → ((got : S) → o ≡ some got → Ends R Q (rest got))
    → Ends R Q (found o reason >>= rest)
Ends-found none reason rest f k = fails reason (f refl)
Ends-found (some got) reason rest f k = k got refl

module _ {μ} {S : Type μ} {P : S → Type 0} {Q : StoreError → Type 0} where
  pub Ends-ok : {got : S} → Ends P Q (ok got) → P got
  Ends-ok (returns got h) = h

  pub Ends-err : {reason : StoreError} → Ends P Q (err reason) → Q reason
  Ends-err (fails reason h) = h

  pub Ends-map :
      {R : S → Type 0} {Q' : StoreError → Type 0} {r : StoreResult S}
      → ((got : S) → P got → R got)
      → ((reason : StoreError) → Q reason → Q' reason)
      → Ends P Q r
      → Ends R Q' r
  Ends-map f g (returns got h) = returns got (f got h)
  Ends-map f g (fails reason h) = fails reason (g reason h)
