-- ===== src/Common/Errors.antt =====
-- internal/domain/model/errors.go: the sentinel errors. A wrapped error, `fmt.Errorf("%w: ...")`,
-- is the sentinel that `errors.Is` finds in it; its message is left out.
use mathlib.Core.Path.{◌≡◌, refl}
use mathlib.Core.Logic.{◌⊎◌, inl, inr}
use mathlib.Core.Bool.{Bool, true, false}

pub data Error : Type 0 where
  not_found conflict invalid_state_transition terminal_state invalid_platform : Error
  invalid_cron_expression invalid_resource_quantity empty_name invalid_checksum empty_s3_key : Error
  validation timeout build_failed invalid_affinity invalid_toleration invalid_deadline : Error
  barrier_not_found barrier_aborted barrier_timeout barrier_released : Error
  worker_already_registered invalid_worker_count invalid_worker_index no_scenarios_defined : Error
  run_in_flight report_not_found logs_not_found missing_go_mod missing_vuhive_dependency : Error
  forbidden_import forbidden_package_main missing_scenario_contract invalid_archive : Error
  insecure_override_forbidden unauthorized forbidden token_expired invalid_token : Error
  unsupported_go_version invalid_secret_key missing_secret secrets_disabled : Error
  -- `ctx.Err()` of a cancelled context.
  context_canceled : Error
  -- internal/bff/domain/model/errors.go, and internal/bff/adapters/outbound/eventhub/hub.go.
  session_not_found session_expired invalid_parameter hub_closed : Error

-- A function that returns `(value, error)`: at most one of the two counts.
pub data Result {ℓ} (V : Type ℓ) : Type ℓ where
  err : Error → Result V
  ok : V → Result V

infixl 5 ◌>>=◌ ◌>>◌
-- `if err != nil { return err }`, then the rest.
abbrev pub ◌>>=◌ {κ ℓ} : {V : Type ℓ} {W : Type κ} → Result V → (V → Result W) → Result W
err problem >>= rest = err problem
ok value >>= rest = rest value

abbrev pub ◌>>◌ {κ} : {W : Type κ} → Result (Unit {0}) → Result W → Result W
err problem >> rest = err problem
ok done >> rest = rest

-- `if bad { return err }`.
abbrev pub reject_if : Bool → Error → Result (Unit {0})
reject_if true e = err e
reject_if false e = ok tt

abbrev pub is_ok {ℓ} : {A : Type ℓ} → Result A → Bool
is_ok (ok a) = true
is_ok (err e) = false

pub Result-cases {ℓ} :
    {A : Type ℓ} (r : Result A) → ((a : A) × (r ≡ ok a)) ⊎ ((e : Error) × (r ≡ err e))
Result-cases (ok a) = inl (a, refl)
Result-cases (err e) = inr (e, refl)

pub ok_injective {ℓ} : {A : Type ℓ} {a b : A} → ok a ≡ ok b → a ≡ b
ok_injective h = cc

-- A chain that ends well passed each of its steps.
pub then_ok {ℓ} :
    {A : Type ℓ} (c : Result (Unit {0})) (r : Result A) (a : A)
    → (c >> r) ≡ ok a
    → (c ≡ ok tt) × (r ≡ ok a)
then_ok (err e) r a h = cc
then_ok (ok done) r a h = (refl, h)

pub bind_ok {ℓ κ} :
    {A : Type ℓ} {B : Type κ} (r : Result A) (f : A → Result B) (b : B)
    → (r >>= f) ≡ ok b
    → (a : A) × (r ≡ ok a) × (f a ≡ ok b)
bind_ok (err e) f b h = cc
bind_ok (ok a) f b h = (a, refl, h)

pub not_rejected : (b : Bool) (e : Error) → reject_if b e ≡ ok tt → b ≡ false
not_rejected true e h = cc
not_rejected false e h = refl
