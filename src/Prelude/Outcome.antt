-- ===== src/Prelude/Outcome.antt =====
-- A Go call that returns `(T, error)` and may panic on a nil pointer or an index out of range.
use Prim.Native.String.{String}
use mathlib.Core.Path.{◌≡◌, refl}
use mathlib.Core.Bool.{Bool, true, false}
use mathlib.Core.Option.{Option, none, some}
use mathlib.Core.List.{List}

-- The errors that the modelled code returns, with the values that their texts show.
pub data Error : Type 0 where
  -- "no such run config task with id %s for run config %s"
  no_such_run_config_task : String → String → Error
  -- "no such run task with id %s for run %s"
  no_such_run_task : String → String → Error
  -- "no such step for task %s in run %s"
  no_such_step : String → String → Error
  -- "no workspace archive for task %s, step %d in run %s"
  no_workspace_archive : String → String → Error
  -- "circular dependency detected"
  circular_dependency : Error
  -- a list of "circular dependency between task %q and tasks %s"
  circular_dependencies : List (String × List String) → Error
  -- "task %q and its parent %q have both a dependency on task %q"
  common_dependency : String → String → String → Error
  -- "run with id %q doesn't exist" and the like, with the id
  not_exist : String → Error
  -- util.ErrBadRequest
  bad_request : String → Error
  -- "run %q is not queued but in %q phase", "run %s is not running but in %q phase"
  wrong_phase : String → Error
  -- "unsupport change phase %q"
  unsupported_phase : Error
  -- idb.ErrConcurrent
  concurrent : Error
  -- "expected revision 0 got %d", "expected revision > 0 got %d"
  wrong_revision : Error
  -- "cannot determine group counter name, wrong group path %q"
  bad_group : String → Error
  -- "too many rows returned"
  too_many_rows : Error
  -- "failed to insert run" and the like: the id is taken
  insert_failed : Error
  -- a request whose handler has panicked: the connection is closed
  no_response : Error
  -- an error of json.Unmarshal
  not_parsed : Error

pub data Result {ℓ} (A : Type ℓ) : Type ℓ where
  ok : A → Result A
  err : Error → Result A
  panicked : Result A

infixl 5 ◌>>=◌ ◌>>◌
abbrev pub ◌>>=◌ {ℓ κ} : {A : Type ℓ} {B : Type κ} → Result A → (A → Result B) → Result B
panicked >>= next = panicked
err e >>= next = err e
ok a >>= next = next a

abbrev pub ◌>>◌ {ℓ} : {B : Type ℓ} → Result (Unit {0}) → Result B → Result B
first >> second = first >>= λ _. second

-- `return err` if the test fails.
abbrev pub guard : Bool → Error → Result (Unit {0})
guard false why = err why
guard true why = ok tt

-- The value behind a pointer that may be nil.
abbrev pub deref {ℓ} : {A : Type ℓ} → Option A → Result A
deref none = panicked
deref (some a) = ok a

abbrev pub or_err {ℓ} : {A : Type ℓ} → Option A → Error → Result A
or_err none e = err e
or_err (some a) e = ok a

-- Inversion of a successful bind, for proofs where the parts stay shut.
pub data Bound {ℓ κ} {A : Type ℓ} {B : Type κ} (m : Result A) (f : A → Result B) (b : B)
    : Type (ℓ ⊔ κ) where
  bound : (a : A) → m ≡ ok a → f a ≡ ok b → Bound m f b

pub >>=-Bound {ℓ κ} :
    {A : Type ℓ} {B : Type κ} (m : Result A) (f : A → Result B) {b : B}
    → (m >>= f) ≡ ok b
    → Bound m f b
>>=-Bound (ok a) f h = bound a refl h
>>=-Bound (err e) f h = cc
>>=-Bound panicked f h = cc

pub deref-ok {ℓ} : {A : Type ℓ} (o : Option A) {a : A} → deref o ≡ ok a → o ≡ some a
deref-ok none h = cc
deref-ok (some a) h = cc
